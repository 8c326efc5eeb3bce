-- ===== src/Shards/Reached.antt =====
-- The program from its start.
use ghetto_redis.Prelude.{ℕ, ◌%◌, ◌<◌, ◌≡◌, ◌⊎◌, List, [], ◌++◌, none, inl, arith}
use mathlib.Core.List.{append-nil}
use mathlib.Core.Path.{subst}
use ghetto_redis.Prelude.Words.{Bytes}
use ghetto_redis.HashMap.{HashMap}
use ghetto_redis.Kv.{Entry}
use ghetto_redis.Commands.State.{Conn, Shard, World}
use ghetto_redis.Commands.Table.{CommandFunc}
use ghetto_redis.Server.Start.{num_threads, main, main-size, main-started}
use ghetto_redis.Shards.{Reach}
use ghetto_redis.Shards.Store.{Ask, Serial}
use ghetto_redis.Shards.Pending.{stored, store, Pending}
use ghetto_redis.Shards.Refines.{Simulates, command-Simulates, Step-Simulates}

pub some_shard : 0 < num_threads
some_shard = omega arith

module _ (h : HashMap Entry (λ e. e.key)) where
  open h use {Map, hash}

  pub Reach-Simulates :
      {u w : World Map} (cs ds : List (CommandFunc × (ℕ → Bytes)))
      → Simulates h num_threads 16 some_shard cs u
      → Reach h u ds w
      → Simulates h num_threads 16 some_shard (ds ++ cs) w
  Reach-Simulates cs _ s Reach.begin = s
  Reach-Simulates cs _ s (Reach.command {calls = ds} func self c arg r e) =
      command-Simulates h num_threads 16 some_shard func self c arg (Reach-Simulates cs ds s r) e
  Reach-Simulates cs ds s (Reach.later r step) =
      Step-Simulates h num_threads 16 some_shard (Reach-Simulates cs ds s r) step

  module _ (fresh : ℕ → ℕ) (dbs : ℕ → ℕ → Map) (shards : ℕ → Shard Map) (conns : ℕ → Conn)
      (errno : ℕ → ℕ) where
    main-Simulates : Simulates h num_threads 16 some_shard [] (main h fresh dbs shards conns errno)
    main-Simulates =
        let (size, num_dbs) = main-size h fresh dbs shards conns errno in
        record {
          size = size;
          num_dbs = num_dbs;
          queues = λ t. [];
          serial = Serial.empty (λ j k inside.
              (main-started h fresh dbs shards conns errno (hash k % num_threads) j 0 k
                (omega arith) inside).0);
          keys = λ i j k below inside.
              inl
                (main-started h fresh dbs shards conns errno i j 0 k (rw size at below)
                  (rw num_dbs at inside)).0;
          waits = λ t below.
              let empty =
                (main-started h fresh dbs shards conns errno t 0 0 [] (rw size at below)
                  (omega arith)).1 in
              rw empty tt;
        }

    started-Simulates :
        {w : World Map} {calls : List (CommandFunc × (ℕ → Bytes))}
        → Reach h (main h fresh dbs shards conns errno) calls w
        → Simulates h num_threads 16 some_shard calls w
    started-Simulates {w} {calls} r =
        subst (λ cs. Simulates h num_threads 16 some_shard cs w) (append-nil calls)
          (Reach-Simulates [] calls main-Simulates r)

    -- From the state that `main` starts the threads in, for any number of commands, callbacks, wakings
    -- and socket operations of all shards in any order: what a database of shard `i` stores under a key
    -- is nothing, or `hash % size` of the key is `i`.
    pub Reach-stored :
        {w : World Map} {calls : List (CommandFunc × (ℕ → Bytes))} (i j : ℕ) (k : Bytes)
        → Reach h (main h fresh dbs shards conns errno) calls w
        → i < w.size
        → j < w.num_dbs
        → (stored h w i j k ≡ none) ⊎ (hash k % w.size ≡ i)
    Reach-stored i j k r below inside = (started-Simulates r).keys i j k below inside

    -- From the state that `main` starts the threads in, for any sequence of commands `calls`, callbacks,
    -- wakings and socket operations of all shards in any order, the 4 shards are one store of 16
    -- databases that was given the same commands: GET, SET, DEL and the counter commands that are not
    -- refused are each done once as a whole, on one key of one database, either at once or from the
    -- queue of the key's shard, where the oldest is done first; FLUSHALL empties all, and no other
    -- command has an effect. What the store has under a key is what the key's shard stores, and the
    -- operations that it still has to do are the requests in the queues of messages, in their order.
    pub Reach-Serial :
        {w : World Map} {calls : List (CommandFunc × (ℕ → Bytes))}
        → Reach h (main h fresh dbs shards conns errno) calls w
        → (queues : ℕ → List Ask) × Serial h num_threads 16 calls (store h num_threads w) queues
          × ((t : ℕ)
              → t < num_threads
              → Pending h num_threads t (w.shards t).reactor.cb_queue (queues t))
    Reach-Serial {w} r =
        let s = started-Simulates r in
        (
          s.queues,
          s.serial,
          λ t below.
              subst (λ n. Pending h n t (w.shards t).reactor.cb_queue (s.queues t)) s.size
                (s.waits t (omega (arith, s.size))),
        )
