-- ===== src/Commands/Plain/Select.antt =====
-- The database that SELECT leaves.
use ghetto_redis.Prelude.{ℕ, ◌<◌, arith}
use ghetto_redis.Prelude.Words.{Bytes}
use ghetto_redis.Commands.State.{World}
use ghetto_redis.Commands.Plain.{cmd_select}

module _ {Map : Type 0} where
  -- SELECT leaves the connection with a database that exists, if it had one, whatever the argument.
  cmd_select_range :
      (self c : ℕ) (arg : ℕ → Bytes) (w : World Map)
      → (w.conns c).db < w.num_dbs
      → ((cmd_select self c arg w).conns c).db < w.num_dbs
  unfolding cmd_select
  cmd_select_range self c arg w h = ground arith
