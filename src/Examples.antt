-- ===== src/Examples.antt =====
-- Concrete inputs for the theorems: memory that holds given bytes, a server of two shards, and a
-- table of associations in place of src/include/hashmap.c. The children apply the theorems to them.
mod Shards
mod Requests
mod Commands
mod Server
mod Queues
mod Deques
mod Sockets
mod Messages
mod Threads
use ghetto_redis.Prelude.{
  ℕ, zero, suc, ◌+◌, ◌≡◌, refl, List, [], ◌∷◌, ◌++◌, length-append, Option, none, some, Bool, true,
  false, length, get_or, ◌==◌, if◌then◌else◌, arith,
}
use mathlib.Core.Path.{subst}
use mathlib.Core.List.{append_assoc}
use ghetto_redis.Prelude.Words.{Memory, Bytes, Holds, Holds-append}
use ghetto_redis.Prelude.Text.{text}
use ghetto_redis.HashMap.{HashMap}
use ghetto_redis.HashMap.Assoc.{assoc}
use ghetto_redis.Kv.{Entry}
use ghetto_redis.Reactor.Table.{new_table}
use ghetto_redis.Commands.State.{Conn, Shard, World}
use ghetto_redis.Commands.Table.{Command}

-- Memory with `bs` at address 0, and zeros behind it.
abbrev pub memory_of : Bytes → Memory
memory_of bs p = get_or bs p 0

get_or-drop : (xs : Bytes) (x : ℕ) (rest : Bytes) → get_or (xs ++ x ∷ rest) (length xs) 0 ≡ x
get_or-drop [] x rest = refl
get_or-drop (y ∷ xs) x rest = get_or-drop xs x rest

Holds-from : (before bs : Bytes) → Holds (memory_of (before ++ bs)) (length before) bs
Holds-from before [] = tt
Holds-from before (b ∷ bs) =
    let e : length before + 1 ≡ length (before ++ b ∷ []) =
      omega (arith, length-append {0} before (b ∷ [])) in
    (
      get_or-drop before b bs,
      rw e (
          subst (λ xs. Holds (memory_of xs) (length (before ++ b ∷ [])) bs)
            (append_assoc before (b ∷ []) bs) (Holds-from (before ++ b ∷ []) bs)),
    )

pub memory_of-Holds : (bs : Bytes) → Holds (memory_of bs) 0 bs
memory_of-Holds bs = Holds-from [] bs

pub memory_of-Holds_front : (bs rest : Bytes) → Holds (memory_of (bs ++ rest)) 0 bs
memory_of-Holds_front bs rest =
    (Holds-append (memory_of (bs ++ rest)) 0 bs rest (memory_of-Holds (bs ++ rest))).0

-- A hash that tells short keys from long ones.
abbrev pub hash_of : Bytes → ℕ
hash_of bs = length bs

abbrev pub entries : HashMap Entry (λ e. e.key)
entries = assoc (λ e. e.key) hash_of

abbrev pub command_table : HashMap Command (λ c. c.name)
command_table = assoc (λ c. c.name) hash_of

-- A connection of shard 0 that has received `size` bytes at address 0.
abbrev pub conn_with : (size : ℕ) (waiting : Bool) → Conn
conn_with size waiting = record {
  fd = 7;
  flag_end = false;
  flag_dispatch_waiting = waiting;
  flag_blocked = false;
  shard_id = 0;
  db = 1;
  recv_buf = 0;
  recv_buf_size = size;
  recv_buf_read = 0;
  send_buf = text "-before";
  send_buf_sent = 0;
}

abbrev pub shard_of : List Entry → Shard (List Entry)
shard_of db = record {
  dbs = λ _. db;
  reactor = record {
    running = true;
    cb_queue = [];
    soft_notify = λ _. false;
    sleeping = true;
    conns = new_table (λ _. 0);
  };
}

-- Two shards of 16 databases. Every database of shard 0 holds a word and a number.
abbrev pub word : Entry
word = record { key = text "word"; val = text "abc" }

abbrev pub number : Entry
number = record { key = text "number"; val = text "-41" }

abbrev pub world_of : Conn → (errno : ℕ) → World (List Entry)
world_of conn errno = record {
  size = 2;
  num_dbs = 16;
  shards = λ i. if i == 0 then shard_of (word ∷ number ∷ []) else shard_of [];
  conns = λ _. conn;
  errno = λ _. errno;
}
