-- ===== src/Shards/Commands.antt =====
-- Every command moves entries and messages as `Moves` allows.
use ghetto_redis.Prelude.{
  ℕ, zero, suc, ◌+◌, ◌%◌, ◌≡◌, refl, ◌∙◌, ◌==◌, ==_iff, ltb, if◌then◌else◌, Bool, true, false, none,
  some, length, Bool-cases, inl, inr, arith,
}
use mathlib.Core.Path.{subst}
use ghetto_redis.Prelude.Words.{Bytes}
use ghetto_redis.HashMap.{HashMap}
use ghetto_redis.Kv.{Entry}
use ghetto_redis.Commands.State.{
  request, Request, Vars, Definition, VarsResult, proceed, reject, World, set_conn, set_db,
  set_reactor,
}
use ghetto_redis.Commands.Table.{CommandFunc}
use ghetto_redis.Commands.Dispatch.{exec_inline, exec_dispatch, cmd_exec, cmd}
use ghetto_redis.Commands.Plain.{shutdown_loop, cmd_select, flush_dbs, flush_shards, cmd_flushall}
use ghetto_redis.Reactor.{
  queue_size, reactor_send_message, push, notify, wakeup_loop, reactor_wakeup_pending,
}
use ghetto_redis.Commands.Plain.Flush.{cmd_flushall-Cleared}
use ghetto_redis.Shards.Store.{Operation, Wish, clear_all, ask, wish}
use ghetto_redis.Shards.Operations.{Grants, Meets}
use ghetto_redis.Shards.Pending.{Performs}
use ghetto_redis.Shards.Moves.{
  Kept, resize, Quiet, Quiet-refl, Quiet-then, Quiet-Moves, Moves, Moves-then, Effect,
  Executes-Moves, Executes-then,
}
use ghetto_redis.Shards.Updates.{
  set_conn-Quiet, reply-Quiet, set_reactor-Quiet, notify-Quiet, push-request-Moves, set_db-Kept,
  exec-Executes,
}

module _ (h : HashMap Entry (λ e. e.key)) where
  open h use {Map, hash, clear}

  -- The queues and the number of shards and of databases stay.
  abbrev Sized : World Map → World Map → Type 0
  Sized w w' = (w'.size ≡ w.size) × (w'.num_dbs ≡ w.num_dbs) × Kept h w w'

  Sized-refl : (w : World Map) → Sized w w
  Sized-refl w = (refl, refl, λ t xs p. p)

  Sized-then : (u v w : World Map) → Sized u v → Sized v w → Sized u w
  Sized-then u v w f g = (g.0 ∙ f.0, g.1 ∙ f.1, λ t xs p. resize h u v w f.0 g.2 t xs (f.2 t xs p))

  module _ (w : World Map) where
    exec_inline-Moves :
        (d : Definition Map) (self c : ℕ) (key : Bytes) (vars : Vars) (o : Operation)
        → Performs h d vars key o
        → hash key % w.size ≡ self
        → Moves h w (exec_inline d self c key (hash key) vars w) (ask key o)
    unfolding exec_inline
    exec_inline-Moves d self c key vars o performs own = Executes-Moves h (
        Executes-then h (exec-Executes h w d self (w.conns c).db key vars o performs own)
          (reply-Quiet h _ c _))

    pub cmd_select-Quiet : (self c : ℕ) (arg : ℕ → Bytes) → Quiet h w (cmd_select self c arg w)
    unfolding cmd_select
    cmd_select-Quiet self c arg = record {
      same_size = ground arith;
      same_num_dbs = ground arith;
      dbs = λ i j. ground arith;
      queues = λ t xs p.
          let same : ((cmd_select self c arg w).shards t).reactor.cb_queue
              ≡ (w.shards t).reactor.cb_queue =
            ground arith in
          rw same p;
    }

  pub shutdown_loop-Quiet : (n self i : ℕ) (w : World Map) → Quiet h w (shutdown_loop n self i w)
  unfolding shutdown_loop
  shutdown_loop-Quiet zero self i w = Quiet-refl h w
  shutdown_loop-Quiet (suc n) self i w =
      let w₁ = set_reactor i (record (w.shards i).reactor { running = false }) w in
      Quiet-then h (set_reactor-Quiet h w i _ (λ xs p. p)) (
        Quiet-then h (notify-Quiet h w₁ self i)
          (shutdown_loop-Quiet n self (i + 1) (notify self i w₁)))

  wakeup_loop-Quiet :
      (n self i woken : ℕ) (w : World Map) → Quiet h w (wakeup_loop n self i woken w).1
  unfolding wakeup_loop
  wakeup_loop-Quiet zero self i woken w = Quiet-refl h w
  wakeup_loop-Quiet (suc n) self i woken w =
      let set = (w.shards self).reactor.soft_notify i in
      let w₁ =
        (if set then set_reactor i (record (w.shards i).reactor { sleeping = false }) w else w) in
      Quiet-then h (by_bit set) (wakeup_loop-Quiet n self (i + 1) _ w₁)
    where
      by_bit :
          (b : Bool)
          → Quiet h w
              (if b then set_reactor i (record (w.shards i).reactor { sleeping = false }) w else w)
      by_bit true = set_reactor-Quiet h w i _ (λ xs p. p)
      by_bit false = Quiet-refl h w

  pub reactor_wakeup_pending-Quiet :
      (self : ℕ) (w : World Map) → Quiet h w (reactor_wakeup_pending self w).1
  unfolding reactor_wakeup_pending
  reactor_wakeup_pending-Quiet self w =
      Quiet-then h (wakeup_loop-Quiet w.size self 0 0 w)
        (set_reactor-Quiet h (wakeup_loop w.size self 0 0 w).1 self _ (λ xs p. p))

  flush_dbs-Sized : (n i j : ℕ) (w : World Map) → Sized w (flush_dbs h n i j w)
  unfolding flush_dbs
  flush_dbs-Sized zero i j w = Sized-refl w
  flush_dbs-Sized (suc n) i j w =
      let m = clear ((w.shards i).dbs j) in
      let v = set_db i j m w in
      Sized-then w v (flush_dbs h n i (j + 1) v) (refl, refl, set_db-Kept h w i j m)
        (flush_dbs-Sized n i (j + 1) v)

  flush_shards-Sized : (n i : ℕ) (w : World Map) → Sized w (flush_shards h n i w)
  unfolding flush_shards
  flush_shards-Sized zero i w = Sized-refl w
  flush_shards-Sized (suc n) i w =
      let v = flush_dbs h w.num_dbs i 0 w in
      Sized-then w v (flush_shards h n (i + 1) v) (flush_dbs-Sized w.num_dbs i 0 w)
        (flush_shards-Sized n (i + 1) v)

  pub cmd_flushall-Moves : (c : ℕ) (w : World Map) → Moves h w (cmd_flushall h c w) clear_all
  unfolding cmd_flushall
  cmd_flushall-Moves c w =
      let (size, num_dbs, kept) = flush_shards-Sized w.size 0 w in
      record {
        same_size = size;
        same_num_dbs = num_dbs;
        effect =
            Effect.flushed refl
              (λ i j k below inside. cmd_flushall-Cleared h c w i j k below inside) kept;
      }

  pub none_ne : {w : World Map} → none ≡ some w → ⊥
  none_ne e = cc

  pub returned-Moves :
      {u v w' : World Map} {wish : Wish} → some v ≡ some w' → Moves h u v wish → Moves h u w' wish
  returned-Moves {u} {v} {w'} {wish} e f =
      let same : v ≡ w' = cc in subst (λ x. Moves h u x wish) same f

  exec_dispatch-Moves :
      (w : World Map) (d : Definition Map) (self c : ℕ) (key : Bytes) (vars : Vars) (o : Operation)
      {w' : World Map}
      → Performs h d vars key o
      → exec_dispatch d self c (hash key % w.size) key (hash key) vars w ≡ some w'
      → Moves h w w' (ask key o)
  unfolding exec_dispatch reactor_send_message
  exec_dispatch-Moves w d self c key vars o {w'} performs e =
      let t = hash key % w.size in
      elim (Bool-cases (ltb (length (w.shards t).reactor.cb_queue) queue_size)) [
        | inl room ↦
            let q : Request Map = record {
              src = self;
              dst = t;
              conn = c;
              definition = d;
              key = key;
              hash = hash key;
              vars = vars;
            } in
            let sent = push t (request q) w in
            let waits = set_conn c (record (sent.conns c) { flag_dispatch_waiting = true }) sent in
            let e' : some (notify self t waits) ≡ some w' = rw room at e in
            returned-Moves e' (
              Moves-then h (push-request-Moves h w t q o (refl, refl, refl, performs))
                (Quiet-then h (set_conn-Quiet h sent c _) (notify-Quiet h waits self t)))
        | inr full ↦ let e' : none ≡ some w' = rw full at e in absurd (none_ne e')
      ]

  pub cmd-Moves :
      (w : World Map) (d : Definition Map) (func : CommandFunc) (self c : ℕ) (arg : ℕ → Bytes)
      {w' : World Map}
      → Meets h d func
      → cmd hash d self c arg w ≡ some w'
      → Moves h w w' (wish func arg)
  unfolding cmd cmd_exec
  cmd-Moves w d func self c arg {w'} meets e =
      by_vars (d.vars (hash (arg 1) % w.size) arg) (meets (hash (arg 1) % w.size) arg) e
    where
      by_vars :
          (r : VarsResult)
          → Grants h d (arg 1) r (wish func arg)
          → cmd_exec d self c (hash (arg 1) % w.size) (arg 1) (hash (arg 1)) r w ≡ some w'
          → Moves h w w' (wish func arg)
      by_vars (reject bytes) none_wished e =
          rw none_wished (returned-Moves e (Quiet-Moves h (reply-Quiet h w c bytes)))
      by_vars (proceed vars) (o, wished, performs) e =
          elim (Bool-cases (hash (arg 1) % w.size == self)) [
            | inl own ↦
                let e' : some (exec_inline d self c (arg 1) (hash (arg 1)) vars w) ≡ some w' =
                  rw own at e in
                let home = (==_iff (hash (arg 1) % w.size) self).0 own in
                rw wished
                  (returned-Moves e' (exec_inline-Moves w d self c (arg 1) vars o performs home))
            | inr other ↦
                let e' : exec_dispatch d self c (hash (arg 1) % w.size) (arg 1) (hash (arg 1)) vars
                      w
                    ≡ some w' =
                  rw other at e in
                rw wished (exec_dispatch-Moves w d self c (arg 1) vars o performs e')
          ]
