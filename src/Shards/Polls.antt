-- ===== src/Shards/Polls.antt =====
-- `reactor_poll_callbacks` with the callbacks of src/server.c takes such steps only.
use ghetto_redis.Prelude.{
  ℕ, if◌then◌else◌, zero, suc, ◌+◌, ◌<◌, ◌≡◌, refl, ◌==◌, List, [], ◌∷◌, ◌++◌, Option, some,
  Bool-cases, inl, inr, arith,
}
use mathlib.Core.Path.{subst}
use ghetto_redis.Prelude.Words.{Memory, Bytes}
use ghetto_redis.HashMap.{HashMap}
use ghetto_redis.Kv.{Entry}
use ghetto_redis.Commands.State.{Message, World}
use ghetto_redis.Commands.Table.{CommandFunc, Command}
use ghetto_redis.Commands.Dispatch.Transparent.{pop}
use ghetto_redis.Reactor.{◌>>=◌, poll_loop}
use ghetto_redis.Server.{drain, conn_of, on_cb}
use ghetto_redis.Shards.{Step}
use ghetto_redis.Server.Start.{num_threads}
use ghetto_redis.Shards.Refines.{Simulates}
use ghetto_redis.Shards.Reached.{some_shard, Reach-Simulates}
use ghetto_redis.Shards.Runs.{
  Reaches, Reaches-trans, stays, one, reaches, none_ne, split, drain-Reaches,
}

module _ (h : HashMap Entry (λ e. e.key)) (t : HashMap Command (λ c. c.name)) where
  open h use {Map}
  open t use {Map as Commands}

  module _ (commands : Commands) (mem : Memory) (self : ℕ) where
    on_cb-Reaches :
        (fuel : ℕ) (message : Message Map) (rest : List (Message Map)) (w : World Map)
        {w' : World Map}
        → self < w.size
        → (w.shards self).reactor.cb_queue ≡ message ∷ rest
        → on_cb h t commands mem fuel self message (pop self rest w) ≡ some w'
        → Reaches h t w w'
    unfolding on_cb
    on_cb-Reaches fuel message rest w {w'} inside head e =
        let (v, ran, further) = split h t _ _ e in
        Reaches-trans h t w v w' (one h t w v (Step.callback self message rest inside head ran))
          (by_shard v further)
      where
        by_shard :
            (v : World Map)
            → (if (v.conns (conn_of h t message)).shard_id == self
                then drain h t commands mem fuel self (conn_of h t message) v
                else some v)
              ≡ some w'
            → Reaches h t v w'
        by_shard v e = elim (Bool-cases ((v.conns (conn_of h t message)).shard_id == self)) [
          | inl own ↦
              let e' : drain h t commands mem fuel self (conn_of h t message) v ≡ some w' =
                rw own at e in
              drain-Reaches h t commands mem self fuel (conn_of h t message) v e'
          | inr other ↦
              let e' : some v ≡ some w' = rw other at e in reaches h t v v w' e' (stays h t v)
        ]

    -- A call of `reactor_poll_callbacks` that returns, with the callbacks of the server, takes steps only.
    pub poll_loop-Reaches :
        (fuel n count : ℕ) (w : World Map) {total : ℕ} {w' : World Map}
        {calls : List (CommandFunc × (ℕ → Bytes))}
        → Simulates h num_threads 16 some_shard calls w
        → self < num_threads
        → poll_loop (λ self message w. on_cb h t commands mem fuel self message w) n self count w
          ≡ some (total, w')
        → Reaches h t w w'
    unfolding poll_loop
    poll_loop-Reaches fuel zero count w o inside e = absurd (none_ne h t e)
    poll_loop-Reaches fuel (suc n) count w {total} {w'} {calls} o inside e =
        by_queue (w.shards self).reactor.cb_queue refl e
          (λ v calls s. poll_loop-Reaches fuel n (count + 1) v s inside)
      where
        by_queue :
            (queue : List (Message Map))
            → (w.shards self).reactor.cb_queue ≡ queue
            → ◌≡◌ {A = Option (ℕ × World Map)}
                (elim queue [
                  | [] ↦ some (count, w)
                  | message ∷ rest ↦
                      on_cb h t commands mem fuel self message (pop self rest w) >>= λ w.
                      poll_loop
                        (λ self message w. on_cb h t commands mem fuel self message w)
                        n
                        self
                        (count + 1)
                        w
                ])
                (some (total, w'))
            → ((v : World Map)
                → (calls : List (CommandFunc × (ℕ → Bytes)))
                → Simulates h num_threads 16 some_shard calls v
                → poll_loop
                    (λ self message w. on_cb h t commands mem fuel self message w)
                    n
                    self
                    (count + 1)
                    v
                  ≡ some (total, w')
                → Reaches h t v w')
            → Reaches h t w w'
        by_queue [] head e further =
            let same : w ≡ w' = cc in subst (λ x. Reaches h t w x) same (stays h t w)
        by_queue (message ∷ rest) head e further =
            let (v, ran, more) = split h t _ _ e in
            let (cs, r) =
              on_cb-Reaches fuel message rest w (omega (arith, inside, o.size)) head ran in
            Reaches-trans h t w v w' (cs, r)
              (further v (cs ++ calls) (Reach-Simulates h calls cs o r) more)
