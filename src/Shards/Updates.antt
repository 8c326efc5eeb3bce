-- ===== src/Shards/Updates.antt =====
-- What the assignments to connections, queues and databases do.
use ghetto_redis.Prelude.{
  ℕ, ◌%◌, ◌≡◌, ◌≢◌, refl, ap, ◌∙◌, ◌==◌, ==_iff, ==_self, List, ◌&&◌, Bool-cases, inl, inr, arith,
}
use ghetto_redis.Prelude.Words.{Bytes}
use ghetto_redis.HashMap.{HashMap}
use ghetto_redis.Kv.{Entry}
use ghetto_redis.Commands.State.{
  Conn, request, response, Request, Response, Vars, Definition, Reactor, World, set_conn, set_db,
  set_reactor,
}
use ghetto_redis.Commands.Dispatch.{reply}
use ghetto_redis.Reactor.{notify, push}
use ghetto_redis.Shards.Store.{Operation, Ask, ask}
use ghetto_redis.Shards.Pending.{Performs, Asks, Pending, Pending-response, Pending-request}
use ghetto_redis.Shards.Moves.{Kept, Quiet, Moves, Effect, Executes}

module _ (h : HashMap Entry (λ e. e.key)) where
  open h use {Map, hash, get_with_hash}

  pub set_db-Kept : (w : World Map) (i j : ℕ) (m : Map) → Kept h w (set_db i j m w)
  set_db-Kept w i j m t xs p =
      let same : ((set_db i j m w).shards t).reactor.cb_queue ≡ (w.shards t).reactor.cb_queue =
        ground arith in
      rw same p

  pub set_conn-Quiet : (w : World Map) (c : ℕ) (conn : Conn) → Quiet h w (set_conn c conn w)
  set_conn-Quiet w c conn = record {
    same_size = refl;
    same_num_dbs = refl;
    dbs = λ i j. refl;
    queues = λ t xs p. p;
  }

  pub reply-Quiet : (w : World Map) (c : ℕ) (bytes : Bytes) → Quiet h w (reply c bytes w)
  reply-Quiet w c bytes = set_conn-Quiet w c _

  pub set_reactor-Quiet :
      (w : World Map) (i : ℕ) (r : Reactor Map)
      → ((xs : List Ask)
          → Pending h w.size i (w.shards i).reactor.cb_queue xs
          → Pending h w.size i r.cb_queue xs)
      → Quiet h w (set_reactor i r w)
  set_reactor-Quiet w i r keeps = record {
    same_size = refl;
    same_num_dbs = refl;
    dbs = λ a j. ground arith;
    queues = λ t xs p. elim (Bool-cases (t == i)) [
      | inl here ↦ let e = (==_iff t i).0 here in rw (here, e) (keeps xs (rw e at p))
      | inr other ↦ rw other p
    ];
  }

  pub notify-Quiet : (w : World Map) (self i : ℕ) → Quiet h w (notify self i w)
  unfolding notify
  notify-Quiet w self i = set_reactor-Quiet w self _ (λ xs p. p)

  pub push-response-Quiet :
      (w : World Map) (t : ℕ) (r : Response Map) → Quiet h w (push t (response r) w)
  push-response-Quiet w t r =
      set_reactor-Quiet w t _
        (λ xs p. Pending-response h w.size t (w.shards t).reactor.cb_queue r xs p)

  -- A request goes to the shard of its key.
  pub push-request-Moves :
      (w : World Map) (t : ℕ) (q : Request Map) (o : Operation)
      → Asks h w.size t q (record { key = q.key; operation = o })
      → Moves h w (push t (request q) w) (ask q.key o)
  push-request-Moves w t q o asks = record {
    same_size = refl;
    same_num_dbs = refl;
    effect =
        Effect.queued q.key o refl (λ a j. ground arith)
          (λ s xs p.
            let home : hash q.key % w.size ≡ t = rw asks.0 at asks.1 in
            elim (Bool-cases (s == t)) [
              | inl here ↦
                  let e = (==_iff s t).0 here in
                  rw (home, here, e)
                    (Pending-request h w.size t (w.shards t).reactor.cb_queue q
                      (record { key = q.key; operation = o }) xs asks (rw e at p))
              | inr other ↦ rw (home, other) p
            ]);
  }

  -- CMD_EXEC on the shard that the key belongs to.
  pub exec-Executes :
      (w : World Map) (d : Definition Map) (self j : ℕ) (key : Bytes) (vars : Vars) (o : Operation)
      → Performs h d vars key o
      → hash key % w.size ≡ self
      → Executes h w (set_db self j (d.exec ((w.shards self).dbs j) key (hash key) vars).0 w) key o
  exec-Executes w d self j key vars o (here, others) own =
      let m = (d.exec ((w.shards self).dbs j) key (hash key) vars).0 in
      let new : ((set_db self j m w).shards self).dbs j ≡ m = rw (==_self self, ==_self j) refl in
      record {
        same_size = refl;
        same_num_dbs = refl;
        db = j;
        operated = (
          rw own (ap (λ x. get_with_hash x key (hash key)) new ∙ here ((w.shards self).dbs j)),
          λ i b k away. elim (Bool-cases (i == self && b == j)) [
            | inl same ↦
                let e₁ : i ≡ self = ground (arith, same) in
                let e₂ : b ≡ j = ground (arith, same) in
                let ne : k ≢ key = λ e. ground (arith, e₁, e₂, own, e, away) in
                rw (e₁, e₂)
                  (ap (λ x. get_with_hash x k (hash k)) new ∙ others ((w.shards self).dbs j) k ne)
            | inr away' ↦
                let same : ((set_db self j m w).shards i).dbs b ≡ (w.shards i).dbs b =
                  ground (arith, away') in
                ap (λ x. get_with_hash x k (hash k)) same
          ],
        );
        kept = set_db-Kept w self j m;
      }
