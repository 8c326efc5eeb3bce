-- ===== src/Shards/Owned.antt =====
-- Every key is stored on the shard that it belongs to, whatever a step does.
use ghetto_redis.Prelude.{
  ℕ, ◌%◌, ◌<◌, ◌≡◌, ◌≢◌, ◌⊎◌, ◌∙◌, ◌==◌, ==_iff, if◌then◌else◌, List, [], ◌∷◌, ◌++◌, ap, Bool-cases,
  none, inl, inr, arith,
}
use mathlib.Core.Path.{subst}
use ghetto_redis.Prelude.Words.{Bytes}
use ghetto_redis.HashMap.{HashMap}
use ghetto_redis.Kv.{Entry}
use ghetto_redis.Commands.State.{World, update}
use ghetto_redis.Shards.Store.{Operation, Ask, Wish}
use ghetto_redis.Shards.Pending.{stored, Pending}
use ghetto_redis.Shards.Moves.{Kept, SameDbs, Operated, Queued, Effect}

module _ (h : HashMap Entry (λ e. e.key)) where
  open h use {Map, hash, get_with_hash}

  -- A shard stores keys with its own index only.
  abbrev pub Keys : World Map → Type 0
  Keys w =
      (i j : ℕ) (k : Bytes)
      → i < w.size
      → j < w.num_dbs
      → (stored h w i j k ≡ none) ⊎ (hash k % w.size ≡ i)

  -- The queues hold requests for these operations.
  abbrev pub Waits : World Map → (ℕ → List Ask) → Type 0
  Waits w queues =
      (t : ℕ) → t < w.size → Pending h w.size t (w.shards t).reactor.cb_queue (queues t)

  -- The operation on `key` is on the shard of `key`.
  Operated-stored :
      (w w' : World Map) (b : ℕ) (key : Bytes) (o : Operation) (i j : ℕ) (k : Bytes)
      → Operated h w w' b key o
      → (stored h w' i j k ≡ stored h w i j k) ⊎ (hash k % w.size ≡ i)
  Operated-stored w w' b key o i j k (here, others) = elim (Bool-cases (hash k == hash key)) [
    | inl same ↦
        let e : hash k ≡ hash key = (==_iff (hash k) (hash key)).0 same in
        elim (Bool-cases (i == hash key % w.size)) [
          | inl own ↦ inr (ground (arith, e, own))
          | inr away ↦ inl (others i j k (inl (ground (arith, away))))
        ]
    | inr other ↦
        let ne : k ≢ key = λ e. ground (arith, ap (λ x. hash x) e, other) in
        inl (others i j k (inr (inr ne)))
  ]

  kept_key :
      (w w' : World Map) (i j : ℕ) (k : Bytes)
      → (stored h w i j k ≡ none) ⊎ (hash k % w.size ≡ i)
      → (stored h w' i j k ≡ stored h w i j k) ⊎ (hash k % w.size ≡ i)
      → (stored h w' i j k ≡ none) ⊎ (hash k % w.size ≡ i)
  kept_key w w' i j k (inl gone) (inl same) = inl (same ∙ gone)
  kept_key w w' i j k (inr own) (inl same) = inr own
  kept_key w w' i j k before (inr own) = inr own

  -- At the old number of shards.
  Effect-stored :
      (w w' : World Map) {wish : Wish}
      → Keys w
      → Effect h w w' wish
      → (i j : ℕ) (k : Bytes) → i < w.size
      → j < w.num_dbs
      → (stored h w' i j k ≡ none) ⊎ (hash k % w.size ≡ i)
  Effect-stored w w' keys (Effect.quiet e same kept) i j k below inside =
      kept_key w w' i j k (keys i j k below inside)
        (inl (ap (λ m. get_with_hash m k (hash k)) (same i j)))
  Effect-stored w w' keys (Effect.operated b key o e done kept) i j k below inside =
      kept_key w w' i j k (keys i j k below inside) (Operated-stored w w' b key o i j k done)
  Effect-stored w w' keys (Effect.queued key o e same grown) i j k below inside =
      kept_key w w' i j k (keys i j k below inside)
        (inl (ap (λ m. get_with_hash m k (hash k)) (same i j)))
  Effect-stored w w' keys (Effect.flushed e gone kept) i j k below inside =
      inl (gone i j k below inside)

  pub SameDbs-Keys :
      (w w' : World Map)
      → w'.size ≡ w.size
      → w'.num_dbs ≡ w.num_dbs
      → Keys w
      → SameDbs h w w'
      → Keys w'
  SameDbs-Keys w w' size num_dbs keys same i j k below inside = rw size (
      kept_key w w' i j k (keys i j k (rw size at below) (rw num_dbs at inside))
        (inl (ap (λ m. get_with_hash m k (hash k)) (same i j))))

  pub Effect-Keys :
      (w w' : World Map) {wish : Wish}
      → w'.size ≡ w.size
      → w'.num_dbs ≡ w.num_dbs
      → Keys w
      → Effect h w w' wish
      → Keys w'
  Effect-Keys w w' size num_dbs keys effect i j k below inside =
      rw size (Effect-stored w w' keys effect i j k (rw size at below) (rw num_dbs at inside))

  pub Kept-Waits :
      (w w' : World Map) (queues : ℕ → List Ask)
      → w'.size ≡ w.size
      → Waits w queues
      → Kept h w w'
      → Waits w' queues
  Kept-Waits w w' queues size waits kept t below =
      rw size (kept t (queues t) (waits t (rw size at below)))

  pub Queued-Waits :
      (w w' : World Map) (queues : ℕ → List Ask) (key : Bytes) (o : Operation)
      → w'.size ≡ w.size
      → Waits w queues
      → Queued h w w' key o
      → Waits w' (
          update queues
            (hash key % w.size)
            (queues (hash key % w.size) ++ (record { key = key; operation = o } ∷ [])))
  Queued-Waits w w' queues key o size waits grown t below =
      let home = hash key % w.size in
      let xs = record { key = key; operation = o } ∷ [] in
      let same : (if t == home then queues t ++ xs else queues t)
          ≡ update queues home (queues home ++ xs) t =
        ground arith in
      rw size (
        subst (λ ys. Pending h w.size t (w'.shards t).reactor.cb_queue ys) same
          (grown t (queues t) (waits t (rw size at below))))
