-- ===== src/Shards/Refines.antt =====
-- The shards together are one store with a queue of operations for each shard.
use ghetto_redis.Prelude.{
  ℕ, ◌%◌, ◌<◌, ◌≡◌, ◌∙◌, ◌==◌, ==_iff, List, [], ◌∷◌, ◌++◌, refl, ap, Bool-cases, some, inl, inr,
  arith,
}
use mathlib.Core.Path.{subst}
use ghetto_redis.Prelude.Words.{Bytes}
use ghetto_redis.HashMap.{HashMap}
use ghetto_redis.Kv.{Entry}
use ghetto_redis.Commands.State.{Message, request, response, Request, World, update}
use ghetto_redis.Commands.Table.{CommandFunc}
use ghetto_redis.Commands.Dispatch.{cmd_resp, run_callback}
use ghetto_redis.Commands.Dispatch.Transparent.{pop}
use ghetto_redis.Commands.Call.{call}
use ghetto_redis.Shards.{Step}
use ghetto_redis.Shards.Store.{Operation, Ask, Done, Same, Serial, wish}
use ghetto_redis.Shards.Pending.{store, Pending}
use ghetto_redis.Shards.Moves.{
  SameDbs, Operated, Effect, Moves, Quiet, Quiet-then, Executes, Executes-Moves,
}
use ghetto_redis.Shards.Updates.{set_conn-Quiet, set_reactor-Quiet}
use ghetto_redis.Shards.Commands.{reactor_wakeup_pending-Quiet}
use ghetto_redis.Shards.Steps.{call-Moves, cmd_req-Executes, cmd_resp-Quiet}
use ghetto_redis.Shards.Owned.{Keys, Waits, SameDbs-Keys, Effect-Keys, Kept-Waits, Queued-Waits}

module _ (h : HashMap Entry (λ e. e.key)) (n d : ℕ) (some_shard : 0 < n) where
  open h use {Map, hash, get_with_hash}

  -- The `n` shards with `d` databases each are a store to which the commands `calls` were given, and the
  -- messages in their queues are the operations that it still has to do.
  pub record Simulates (calls : List (CommandFunc × (ℕ → Bytes))) (w : World Map) : Type 0 where
    pub size : w.size ≡ n
    pub num_dbs : w.num_dbs ≡ d
    pub queues : ℕ → List Ask
    pub serial : Serial h n d calls (store h n w) queues
    pub keys : Keys h w
    pub waits : Waits h w queues

  SameDbs-Same : (w w' : World Map) → SameDbs h w w' → Same h (store h n w) (store h n w')
  SameDbs-Same w w' same j k = ap (λ m. get_with_hash m k (hash k)) (same (hash k % n) j)

  Operated-Done :
      (w w' : World Map) (j : ℕ) (key : Bytes) (o : Operation)
      → w.size ≡ n
      → Operated h w w' j key o
      → Done h o j key (store h n w) (store h n w')
  Operated-Done w w' j key o size (here, others) =
      (rw size at here, λ i k away. others (hash k % n) i k (inr away))

  pub command-Simulates :
      {calls : List (CommandFunc × (ℕ → Bytes))} {w w' : World Map} (func : CommandFunc)
      (self c : ℕ) (arg : ℕ → Bytes)
      → Simulates calls w
      → call h func self c arg w ≡ some w'
      → Simulates ((func, arg) ∷ calls) w'
  command-Simulates {calls} {w} {w'} func self c arg s e = by_effect m.effect
    where
      m : Moves h w w' (wish func arg)
      m = call-Moves h func self c arg w e

      keys : Keys h w'
      keys = Effect-Keys h w w' m.same_size m.same_num_dbs s.keys m.effect

      with_queues :
          (queues : ℕ → List Ask)
          → Serial h n d ((func, arg) ∷ calls) (store h n w') queues
          → Waits h w' queues
          → Simulates ((func, arg) ∷ calls) w'
      with_queues queues serial waits = record {
        size = m.same_size ∙ s.size;
        num_dbs = m.same_num_dbs ∙ s.num_dbs;
        queues = queues;
        serial = serial;
        keys = keys;
        waits = waits;
      }

      by_effect : Effect h w w' (wish func arg) → Simulates ((func, arg) ∷ calls) w'
      by_effect (Effect.quiet e same kept) =
          with_queues s.queues (Serial.refused func arg s.serial e (SameDbs-Same w w' same))
            (Kept-Waits h w w' s.queues m.same_size s.waits kept)
      by_effect (Effect.operated j key o e done kept) =
          with_queues s.queues
            (Serial.at_once func arg j key o s.serial e (Operated-Done w w' j key o s.size done))
            (Kept-Waits h w w' s.queues m.same_size s.waits kept)
      by_effect (Effect.queued key o e same grown) =
          let x : Ask = record { key = key; operation = o } in
          with_queues _ (Serial.queued func arg key o s.serial e (SameDbs-Same w w' same)) (
            subst
              (λ k.
                Waits h w' (update s.queues (hash key % k) (s.queues (hash key % k) ++ (x ∷ []))))
              s.size (Queued-Waits h w w' s.queues key o m.same_size s.waits grown))
      by_effect (Effect.flushed e gone kept) =
          with_queues s.queues
            (Serial.flush func arg s.serial e
              (λ j k inside. gone (hash k % n) j k (rw s.size (omega arith)) (rw s.num_dbs inside)))
            (Kept-Waits h w w' s.queues m.same_size s.waits kept)

  Quiet-Simulates :
      {calls : List (CommandFunc × (ℕ → Bytes))} (w w' : World Map)
      → Simulates calls w
      → Quiet h w w'
      → Simulates calls w'
  Quiet-Simulates w w' s q = record {
    size = q.same_size ∙ s.size;
    num_dbs = q.same_num_dbs ∙ s.num_dbs;
    queues = s.queues;
    serial = Serial.nothing s.serial (SameDbs-Same w w' q.dbs);
    keys = SameDbs-Keys h w w' q.same_size q.same_num_dbs s.keys q.dbs;
    waits = Kept-Waits h w w' s.queues q.same_size s.waits q.queues;
  }

  pop-SameDbs :
      (w : World Map) (self : ℕ) (rest : List (Message Map)) → SameDbs h w (pop self rest w)
  pop-SameDbs w self rest i j = ground arith

  -- The oldest operation in the queue is done.
  request-Simulates :
      {calls : List (CommandFunc × (ℕ → Bytes))} {w w' : World Map} (self : ℕ) (q : Request Map)
      (rest : List (Message Map))
      → Simulates calls w
      → self < w.size
      → (w.shards self).reactor.cb_queue ≡ request q ∷ rest
      → run_callback self (request q) (pop self rest w) ≡ some w'
      → Simulates calls w'
  unfolding run_callback
  request-Simulates {calls} {w} {w'} self q rest s inside head e =
      by_queue (s.queues self) refl
        (subst (λ ms. Pending h w.size self ms (s.queues self)) head (s.waits self inside))
    where
      v : World Map
      v = pop self rest w

      by_queue :
          (xs : List Ask)
          → s.queues self ≡ xs
          → Pending h w.size self (request q ∷ rest) xs
          → Simulates calls w'
      by_queue [] oldest p = absurd p
      by_queue (x ∷ xs) oldest (asks, more) =
          let ex : Executes h v w' x.key x.operation = cmd_req-Executes h self q x v asks e in
          let waits : Waits h v (update s.queues self xs) = λ t below.
            elim (Bool-cases (t == self)) [
              | inl here ↦ let e = (==_iff t self).0 here in rw (here, e) more
              | inr other ↦ rw (other) (s.waits t below)
            ] in
          record {
            size = ex.same_size ∙ s.size;
            num_dbs = ex.same_num_dbs ∙ s.num_dbs;
            queues = update s.queues self xs;
            serial =
                Serial.served self ex.db x xs
                  (Serial.nothing s.serial (SameDbs-Same w v (pop-SameDbs w self rest))) oldest
                  (Operated-Done v w' ex.db x.key x.operation s.size ex.operated);
            keys =
                Effect-Keys h v w' ex.same_size ex.same_num_dbs
                  (SameDbs-Keys h w v refl refl s.keys (pop-SameDbs w self rest))
                  (Executes-Moves h ex).effect;
            waits = Kept-Waits h v w' (update s.queues self xs) ex.same_size waits ex.kept;
          }

  callback-Simulates :
      {calls : List (CommandFunc × (ℕ → Bytes))} {w w' : World Map} (self : ℕ)
      (message : Message Map) (rest : List (Message Map))
      → Simulates calls w
      → self < w.size
      → (w.shards self).reactor.cb_queue ≡ message ∷ rest
      → run_callback self message (pop self rest w) ≡ some w'
      → Simulates calls w'
  unfolding run_callback
  callback-Simulates self (request q) rest s inside head e =
      request-Simulates self q rest s inside head e
  callback-Simulates {calls} {w} {w'} self (response r) rest s inside head e =
      let popped : Quiet h w (pop self rest w) =
        set_reactor-Quiet h w self _ (λ xs p. subst (λ ms. Pending h w.size self ms xs) head p) in
      let same : cmd_resp r (pop self rest w) ≡ w' = cc in
      subst (λ x. Simulates calls x) same
        (Quiet-Simulates w _ s (Quiet-then h popped (cmd_resp-Quiet h r (pop self rest w))))

  errno-Quiet : (w : World Map) (errno : ℕ → ℕ) → Quiet h w (record w { errno = errno })
  errno-Quiet w errno = record {
    same_size = refl;
    same_num_dbs = refl;
    dbs = λ i j. refl;
    queues = λ t xs p. p;
  }

  pub Step-Simulates :
      {calls : List (CommandFunc × (ℕ → Bytes))} {w w' : World Map}
      → Simulates calls w
      → Step h w w'
      → Simulates calls w'
  Step-Simulates s (Step.callback self message rest inside head e) =
      callback-Simulates self message rest s inside head e
  Step-Simulates {calls} {w} s (Step.wake self) =
      Quiet-Simulates w _ s (reactor_wakeup_pending-Quiet h self w)
  Step-Simulates {calls} {w} s (Step.connection c conn) =
      Quiet-Simulates w _ s (set_conn-Quiet h w c conn)
  Step-Simulates {calls} {w} s (Step.reactor self conns sleeping running) =
      Quiet-Simulates w _ s (set_reactor-Quiet h w self _ (λ xs p. p))
  Step-Simulates {calls} {w} s (Step.system errno) = Quiet-Simulates w _ s (errno-Quiet w errno)
