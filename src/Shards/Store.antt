-- ===== src/Shards/Store.antt =====
-- What the shards together promise: databases from keys to entries, where each operation is done as a
-- whole, and a queue for each shard of operations that have been asked for and not yet done.
use ghetto_redis.Prelude.{
  ℕ, ◌%◌, ◌<◌, ◌≡◌, ◌≢◌, ◌⊎◌, if◌then◌else◌, List, [], ◌∷◌, ◌++◌, Option, none, some,
}
use ghetto_redis.Prelude.Words.{Bytes}
use ghetto_redis.Prelude.Int64.{is_negative, negate, add_int64, decimal_int64}
use ghetto_redis.HashMap.{HashMap}
use ghetto_redis.Kv.{Entry}
use ghetto_redis.Commands.State.{update}
use ghetto_redis.Commands.Table.{CommandFunc}
use ghetto_redis.Commands.Counter.{try_parse_signed_integer, counter_value}

-- Looking, SET, DEL, and the counter commands.
pub data Operation : Type 0 where
  look : Operation
  put : (val : Bytes) → Operation
  drop : Operation
  add : (delta : ℕ) → Operation

-- An operation and its key.
pub record Ask : Type 0 where
  pub key : Bytes
  pub operation : Operation

-- What a command wants of the databases.
pub data Wish : Type 0 where
  ignore : Wish
  clear_all : Wish
  ask : (key : Bytes) (operation : Operation) → Wish

abbrev pub by_delta : (key : Bytes) → (ℕ → ℕ) → Option ℕ → Wish
by_delta key f none = ignore
by_delta key f (some delta) = if is_negative delta then ignore else ask key (add (f delta))

-- INCRBY and DECRBY of no integer or of a negative one are refused.
unfoldable pub wish : CommandFunc → (arg : ℕ → Bytes) → Wish
wish CommandFunc.cmd_get arg = ask (arg 1) look
wish CommandFunc.cmd_set arg = ask (arg 1) (put (arg 2))
wish CommandFunc.cmd_del arg = ask (arg 1) drop
wish CommandFunc.cmd_incr arg = ask (arg 1) (add 1)
wish CommandFunc.cmd_decr arg = ask (arg 1) (add (negate 1))
wish CommandFunc.cmd_incrby arg =
    by_delta (arg 1) (λ delta. delta) (try_parse_signed_integer (arg 2))
wish CommandFunc.cmd_decrby arg =
    by_delta (arg 1) (λ delta. negate delta) (try_parse_signed_integer (arg 2))
wish CommandFunc.cmd_dispatch_ping arg = ask (arg 1) look
wish CommandFunc.cmd_flushall arg = clear_all
wish CommandFunc.cmd_ping arg = ignore
wish CommandFunc.cmd_echo arg = ignore
wish CommandFunc.cmd_quit arg = ignore
wish CommandFunc.cmd_shutdown arg = ignore
wish CommandFunc.cmd_select arg = ignore

-- What database `j` has under a key.
abbrev pub Store : Type 0
Store = ℕ → Bytes → Option Entry

module _ (h : HashMap Entry (λ e. e.key)) where
  open h use {hash}

  -- What is under the key after the operation.
  unfoldable pub result : Operation → (key : Bytes) → Option Entry → Option Entry
  result look key o = o
  result (put val) key o = some (record { key = key; val = val })
  result drop key o = none
  result (add delta) key o = elim (counter_value h o) [
    | none ↦ o
    | some val ↦ some (record { key = key; val = decimal_int64 (add_int64 val delta) })
  ]

  -- The operation is done in database `j`, and all else stays.
  abbrev pub Done : Operation → (j : ℕ) → (key : Bytes) → Store → Store → Type 0
  Done o j key a b =
      (b j key ≡ result o key (a j key))
      × ((i : ℕ) (k : Bytes) → (i ≢ j) ⊎ (k ≢ key) → b i k ≡ a i k)

  abbrev pub Same : Store → Store → Type 0
  Same a b = (j : ℕ) (k : Bytes) → b j k ≡ a j k

  -- What comes of empty databases by the commands `calls`, the latest first, with the operations that
  -- each shard still has to do, the oldest first. A command on a key is done at once, or queued
  -- for the shard of the key; a shard does the oldest operation in its queue.
  pub data Serial (size num_dbs : ℕ)
      : List (CommandFunc × (ℕ → Bytes)) → Store → (ℕ → List Ask) → Type 0 where
    empty :
        {a : Store}
        → ((j : ℕ) (k : Bytes) → j < num_dbs → a j k ≡ none)
        → Serial size num_dbs [] a (λ t. [])
    nothing :
        {calls : List (CommandFunc × (ℕ → Bytes))} {a b : Store} {queues : ℕ → List Ask}
        → Serial size num_dbs calls a queues
        → Same a b
        → Serial size num_dbs calls b queues
    refused :
        {calls : List (CommandFunc × (ℕ → Bytes))} {a b : Store} {queues : ℕ → List Ask}
        (func : CommandFunc) (arg : ℕ → Bytes)
        → Serial size num_dbs calls a queues
        → wish func arg ≡ ignore
        → Same a b
        → Serial size num_dbs ((func, arg) ∷ calls) b queues
    flush :
        {calls : List (CommandFunc × (ℕ → Bytes))} {a b : Store} {queues : ℕ → List Ask}
        (func : CommandFunc) (arg : ℕ → Bytes)
        → Serial size num_dbs calls a queues
        → wish func arg ≡ clear_all
        → ((j : ℕ) (k : Bytes) → j < num_dbs → b j k ≡ none)
        → Serial size num_dbs ((func, arg) ∷ calls) b queues
    at_once :
        {calls : List (CommandFunc × (ℕ → Bytes))} {a b : Store} {queues : ℕ → List Ask}
        (func : CommandFunc) (arg : ℕ → Bytes) (j : ℕ) (key : Bytes) (o : Operation)
        → Serial size num_dbs calls a queues
        → wish func arg ≡ ask key o
        → Done o j key a b
        → Serial size num_dbs ((func, arg) ∷ calls) b queues
    queued :
        {calls : List (CommandFunc × (ℕ → Bytes))} {a b : Store} {queues : ℕ → List Ask}
        (func : CommandFunc) (arg : ℕ → Bytes) (key : Bytes) (o : Operation)
        → Serial size num_dbs calls a queues
        → wish func arg ≡ ask key o
        → Same a b
        → Serial size num_dbs ((func, arg) ∷ calls) b (
            update queues
              (hash key % size)
              (queues (hash key % size) ++ (record { key = key; operation = o } ∷ [])))
    served :
        {calls : List (CommandFunc × (ℕ → Bytes))} {a b : Store} {queues : ℕ → List Ask} (t j : ℕ)
        (x : Ask) (rest : List Ask)
        → Serial size num_dbs calls a queues
        → queues t ≡ x ∷ rest
        → Done x.operation j x.key a b
        → Serial size num_dbs calls b (update queues t rest)
