-- ===== src/Shards/Pending.antt =====
-- What the databases and the queues hold.
use ghetto_redis.Prelude.{ℕ, ◌%◌, ◌≡◌, ◌≢◌, List, [], ◌∷◌, ◌++◌, Option}
use ghetto_redis.Prelude.Words.{Bytes}
use ghetto_redis.HashMap.{HashMap}
use ghetto_redis.Kv.{Entry}
use ghetto_redis.Commands.State.{
  Message, request, response, Request, Response, Vars, Definition, World,
}
use ghetto_redis.Shards.Store.{Operation, Ask, Store, result}

module _ (h : HashMap Entry (λ e. e.key)) where
  open h use {Map, hash, get_with_hash}

  -- What is stored under a key of database `j` of shard `i`.
  abbrev pub stored : World Map → (i j : ℕ) → Bytes → Option Entry
  stored w i j k = get_with_hash ((w.shards i).dbs j) k (hash k)

  -- What the shard that a key belongs to, of `n` shards, has under it.
  abbrev pub store : (n : ℕ) → World Map → Store
  store n w j k = stored w (hash k % n) j k

  -- CMD_EXEC with these variables is an operation on its key, and touches no other.
  abbrev pub Performs : Definition Map → Vars → (key : Bytes) → Operation → Type 0
  Performs d vars key o =
      ((m : Map)
        → get_with_hash (d.exec m key (hash key) vars).0 key (hash key)
          ≡ result h o key (get_with_hash m key (hash key)))
      × ((m : Map) (k : Bytes)
          → k ≢ key
          → get_with_hash (d.exec m key (hash key) vars).0 k (hash k) ≡ get_with_hash m k (hash k))

  -- A request in the queue of shard `t` asks for `x`, whose key belongs there.
  abbrev pub Asks : (size t : ℕ) → Request Map → Ask → Type 0
  Asks size t q x =
      (q.hash ≡ hash q.key)
      × (q.hash % size ≡ t)
      × (x.key ≡ q.key)
      × Performs q.definition q.vars q.key x.operation

  -- The requests in a queue ask for these operations.
  abbrev pub Pending : (size t : ℕ) → List (Message Map) → List Ask → Type 0
  Pending size t [] [] = Unit
  Pending size t [] (x ∷ xs) = ⊥
  Pending size t (response r ∷ ms) xs = Pending size t ms xs
  Pending size t (request q ∷ ms) [] = ⊥
  Pending size t (request q ∷ ms) (x ∷ xs) = Asks size t q x × Pending size t ms xs

  pub Pending-response :
      (size t : ℕ) (ms : List (Message Map)) (r : Response Map) (xs : List Ask)
      → Pending size t ms xs
      → Pending size t (ms ++ (response r ∷ [])) xs
  Pending-response size t [] r [] p = tt
  Pending-response size t (response _ ∷ ms) r xs p = Pending-response size t ms r xs p
  Pending-response size t (request q ∷ ms) r (x ∷ xs) p = (p.0, Pending-response size t ms r xs p.1)
  Pending-response size t [] r (x ∷ xs) p = absurd p
  Pending-response size t (request q ∷ ms) r [] p = absurd p

  pub Pending-request :
      (size t : ℕ) (ms : List (Message Map)) (q : Request Map) (x : Ask) (xs : List Ask)
      → Asks size t q x
      → Pending size t ms xs
      → Pending size t (ms ++ (request q ∷ [])) (xs ++ (x ∷ []))
  Pending-request size t [] q x [] asks p = (asks, tt)
  Pending-request size t (response _ ∷ ms) q x xs asks p = Pending-request size t ms q x xs asks p
  Pending-request size t (request _ ∷ ms) q x (y ∷ xs) asks p =
      (p.0, Pending-request size t ms q x xs asks p.1)
  Pending-request size t [] q x (y ∷ xs) asks p = absurd p
  Pending-request size t (request _ ∷ ms) q x [] asks p = absurd p
