-- ===== src/Commands/Plain.antt =====
-- The commands of src/include/commands.c that are written out: PING, ECHO, QUIT, SHUTDOWN, FLUSHALL
-- and SELECT.
pub mod Select
pub mod Flush
use ghetto_redis.Prelude.{
  ℕ, zero, suc, ◌+◌, ◌-◌, ◌%◌, ◌^◌, ◌==◌, ltb, leb, if◌then◌else◌, List, [], ◌∷◌, Bool, true, false,
  ◌||◌, ◌&&◌, not,
}
use ghetto_redis.Prelude.Words.{Bytes, size_max}
use ghetto_redis.Prelude.Decimal.{value}
use ghetto_redis.Prelude.Text.{text}
use ghetto_redis.HashMap.{HashMap}
use ghetto_redis.Kv.{Entry}
use ghetto_redis.Protocol.Reply.{
  write_simple_generic_error, write_simple_string, write_bulk_string, c_string,
}
use ghetto_redis.Commands.Counter.{is_digit}
use ghetto_redis.Commands.State.{Conn, write, World, set_conn, set_db, set_reactor}
use ghetto_redis.Commands.Dispatch.{reply}
use ghetto_redis.Reactor.{notify, reactor_wakeup_pending}

module _ {Map : Type 0} where
  unfoldable pub cmd_ping : (c : ℕ) → World Map → World Map
  cmd_ping c w = reply c (write_simple_string (text "PONG") 4) w

  unfoldable pub cmd_echo : (c : ℕ) → (arg : ℕ → Bytes) → World Map → World Map
  cmd_echo c arg w = reply c (write_bulk_string (arg 1)) w

  unfoldable pub cmd_quit : (c : ℕ) → World Map → World Map
  cmd_quit c w =
      reply c (write_simple_string (text "OK") 2)
        (set_conn c (record (w.conns c) { flag_end = true }) w)

  -- The `for` loop of `cmd_shutdown` from shard `i` with `n` rounds left.
  unfoldable pub shutdown_loop : ℕ → (self i : ℕ) → World Map → World Map
  shutdown_loop zero self i w = w
  shutdown_loop (suc n) self i w =
      shutdown_loop n self (i + 1)
        (notify self i (set_reactor i (record (w.shards i).reactor { running = false }) w))

  unfoldable pub cmd_shutdown : (self : ℕ) → World Map → World Map
  unfolding shutdown_loop
  cmd_shutdown self w = (reactor_wakeup_pending self (shutdown_loop w.size self 0 w)).1

-- `isspace`
abbrev pub is_space : ℕ → Bool
is_space b = b == b' ' || leb 9 b && leb b 13

abbrev pub skip_spaces : Bytes → Bytes
skip_spaces [] = []
skip_spaces (b ∷ bs) = let rest = skip_spaces bs in if is_space b then rest else b ∷ bs

abbrev pub leading_digits : Bytes → Bytes
leading_digits [] = []
leading_digits (b ∷ bs) = let rest = leading_digits bs in if is_digit b then b ∷ rest else []

-- `strtoull` in base 10: its value, and whether it sets `errno` to ERANGE. Text with no digits is 0.
abbrev pub strtoull_digits : (minus : Bool) → Bytes → ℕ × Bool
strtoull_digits minus bs =
    let v = value 0 (leading_digits bs) in
    if ltb size_max v then (size_max, true) else (if minus then (2 ^ 64 - v) % 2 ^ 64 else v, false)

abbrev pub strtoull_sign : Bytes → ℕ × Bool
strtoull_sign [] = (0, false)
strtoull_sign (b ∷ bs) =
    if b == b'-'
    then strtoull_digits true bs
    else if b == b'+'
    then strtoull_digits false bs
    else strtoull_digits false (b ∷ bs)

unfoldable pub strtoull : Bytes → ℕ × Bool
strtoull bs = strtoull_sign (skip_spaces bs)

abbrev pub erange : ℕ
erange = 34

-- `errno` of the thread after the call of `strtoull`; a successful call leaves it alone.
abbrev pub errno_after : ℕ → Bool → ℕ
errno_after errno overflow = if overflow then erange else errno

module _ {Map : Type 0} where
  unfoldable pub cmd_select : (self c : ℕ) → (arg : ℕ → Bytes) → World Map → World Map
  cmd_select self c arg w =
      let (dbnum, overflow) = strtoull (c_string (arg 1)) in
      let errno = errno_after (w.errno self) overflow in
      let w = record w { errno = λ i. if i == self then errno else w.errno i } in
      if not (errno == 0)
      then reply c (write_simple_generic_error (text "invalid DB index")) w
      else if leb w.num_dbs dbnum
      then reply c (write_simple_generic_error (text "invalid DB index")) w
      else reply c (write_simple_string (text "OK") 2)
          (set_conn c (record (w.conns c) { db = dbnum }) w)

module _ (h : HashMap Entry (λ e. e.key)) where
  open h use {Map, clear}

  -- The inner loop of `cmd_flushall` over the databases of shard `i`, and the outer loop.
  unfoldable pub flush_dbs : ℕ → (i j : ℕ) → World Map → World Map
  flush_dbs zero i j w = w
  flush_dbs (suc n) i j w = flush_dbs n i (j + 1) (set_db i j (clear ((w.shards i).dbs j)) w)

  unfoldable pub flush_shards : ℕ → (i : ℕ) → World Map → World Map
  unfolding flush_dbs
  flush_shards zero i w = w
  flush_shards (suc n) i w = flush_shards n (i + 1) (flush_dbs w.num_dbs i 0 w)

  unfoldable pub cmd_flushall : (c : ℕ) → World Map → World Map
  unfolding flush_shards
  cmd_flushall c w = reply c (write_simple_string (text "OK") 2) (flush_shards w.size 0 w)
