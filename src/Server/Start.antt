-- ===== src/Server/Start.antt =====
-- The state that `main` of src/server.c starts the threads in: `init_shards`, and `reactor_init` of
-- src/include/reactor_epoll.c. `fresh` is what `malloc` and the stack hold before.
use ghetto_redis.Prelude.{
  ℕ, zero, suc, ◌+◌, ◌≤◌, ◌<◌, ◌≡◌, refl, ◌∙◌, ◌==◌, ==_iff, ==_of_lt, ltb, leb, if◌then◌else◌, [],
  true, false, none, Bool-cases, inl, inr, arith,
}
use ghetto_redis.Prelude.Words.{Bytes}
use ghetto_redis.HashMap.{HashMap}
use ghetto_redis.Kv.{Entry}
use ghetto_redis.Commands.State.{Conn, Reactor, Shard, World, update}
use ghetto_redis.Reactor.Table.{new_table, lookup, lookup-new_table}

-- NUM_THREADS
abbrev pub num_threads : ℕ
num_threads = 4

-- `mpmcq_init` leaves the queue empty.
unfoldable pub reactor_init : {Map : Type 0} → (fresh : ℕ → ℕ) → Reactor Map
reactor_init fresh = record {
  running = true;
  cb_queue = [];
  soft_notify = λ _. false;
  sleeping = true;
  conns = new_table fresh;
}

module _ (h : HashMap Entry (λ e. e.key)) where
  open h use {Map, hash, new, get_with_hash, get-new}

  -- `for (j = 0; j < num_dbs; j++) shard->dbs[j] = hashmap_new(…);` from `j` with `n` rounds left.
  unfoldable pub init_dbs : ℕ → (j : ℕ) → (ℕ → Map) → ℕ → Map
  init_dbs zero j dbs = dbs
  init_dbs (suc n) j dbs = init_dbs n (j + 1) (update dbs j new)

  module _ (num_dbs : ℕ) (fresh : ℕ → ℕ) (dbs : ℕ → ℕ → Map) where
    abbrev pub init_shard : (i : ℕ) → Shard Map
    init_shard i = record { dbs = init_dbs num_dbs 0 (dbs i); reactor = reactor_init fresh }

    -- The loop of `init_shards` from `i` with `n` rounds left. `dbs i` is the array of shard `i` as
    -- `malloc` returns it.
    unfoldable pub init_shards : ℕ → (i : ℕ) → (ℕ → Shard Map) → ℕ → Shard Map
    init_shards zero i shards = shards
    init_shards (suc n) i shards = init_shards n (i + 1) (update shards i (init_shard i))

    init_shards-other :
        (n i : ℕ) (shards : ℕ → Shard Map) (k : ℕ) → k < i → init_shards n i shards k ≡ shards k
    unfolding init_shards
    init_shards-other zero i shards k below = refl
    init_shards-other (suc n) i shards k below =
        init_shards-other n (i + 1) (update shards i (init_shard i)) k (omega arith)
        ∙ rw (==_of_lt k i below) refl

    init_shards-value :
        (n i : ℕ) (shards : ℕ → Shard Map) (k : ℕ)
        → i ≤ k
        → k < i + n
        → init_shards n i shards k ≡ init_shard k
    unfolding init_shards
    init_shards-value zero i shards k above below = absurd (omega arith)
    init_shards-value (suc n) i shards k above below =
        let next = update shards i (init_shard i) in
        elim (Bool-cases (k == i)) [
          | inl here ↦
              let same = (==_iff k i).0 here in
              init_shards-other n (i + 1) next k (omega (arith, same)) ∙ rw (here, same) refl
          | inr other ↦ init_shards-value n (i + 1) next k (ground arith) (omega arith)
        ]

  -- The shard set and the contexts.
  unfoldable pub main :
      (fresh : ℕ → ℕ) (dbs : ℕ → ℕ → Map) (shards : ℕ → Shard Map) (conns : ℕ → Conn)
      (errno : ℕ → ℕ)
      → World Map
  unfolding init_shards
  main fresh dbs shards conns errno = record {
    size = num_threads;
    num_dbs = 16;
    shards = init_shards 16 fresh dbs num_threads 0 shards;
    conns = conns;
    errno = errno;
  }

  pub main-size :
      (fresh : ℕ → ℕ) (dbs : ℕ → ℕ → Map) (shards : ℕ → Shard Map) (conns : ℕ → Conn)
      (errno : ℕ → ℕ)
      → let w = main fresh dbs shards conns errno in (w.size ≡ num_threads) × (w.num_dbs ≡ 16)
  unfolding main
  main-size fresh dbs shards conns errno = (refl, refl)

  init_dbs-value :
      (n j : ℕ) (dbs : ℕ → Map) (k : ℕ)
      → init_dbs n j dbs k ≡ (if leb j k then (if ltb k (j + n) then new else dbs k) else dbs k)
  unfolding init_dbs
  init_dbs-value zero j dbs k = ground arith
  init_dbs-value (suc n) j dbs k = ground (arith, init_dbs-value n (j + 1) (update dbs j new) k)

  -- Every shard starts with databases that hold no key, an empty queue, no connection, and its
  -- thread running and announced as sleeping, whatever the memory held before.
  pub main-started :
      (fresh : ℕ → ℕ) (dbs : ℕ → ℕ → Map) (shards : ℕ → Shard Map) (conns : ℕ → Conn)
      (errno : ℕ → ℕ) (i j fd : ℕ) (key : Bytes)
      → let w = main fresh dbs shards conns errno in
        let shard = w.shards i in
        i < num_threads
        → j < 16
        → (get_with_hash (shard.dbs j) key (hash key) ≡ none)
          × (shard.reactor.cb_queue ≡ [])
          × (lookup shard.reactor.conns fd ≡ 0)
          × (shard.reactor.running ≡ true)
          × (shard.reactor.sleeping ≡ true)
  unfolding main reactor_init
  main-started fresh dbs shards conns errno i j fd key below inside =
      let shard = init_shards-value 16 fresh dbs num_threads 0 shards i (omega arith) below in
      let db : init_dbs 16 0 (dbs i) j ≡ new =
        init_dbs-value 16 0 (dbs i) j ∙ ground (arith, inside) in
      rw (shard, db) (get-new key, refl, lookup-new_table fresh fd, refl, refl)
