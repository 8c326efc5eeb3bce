-- ===== src/Server/Reads.antt =====
-- What the functions of the registered commands read of their arguments.
use ghetto_redis.Prelude.{ℕ, ◌≤◌, ◌<◌, ◌≡◌, Option, none, some}
use ghetto_redis.Prelude.Words.{Bytes}
use ghetto_redis.HashMap.{HashMap}
use ghetto_redis.Kv.{Entry}
use ghetto_redis.Commands.State.{World}
use ghetto_redis.Commands.Table.{Command}
use ghetto_redis.Commands.Dispatch.{cmd}
use ghetto_redis.Commands.Call.{call}
use ghetto_redis.Server.{var_argc}

module _ (h : HashMap Entry (λ e. e.key)) where
  open h use {Map}

  -- The function looks at its name and as many arguments as the command takes, and at no other.
  Within : Command → Type 0
  Within cmd =
      (cmd.arity < var_argc)
      × ((self c : ℕ) (a b : ℕ → Bytes) (w : World Map)
          → ((i : ℕ) → i ≤ cmd.arity → a i ≡ b i)
          → call h cmd.func self c a w ≡ call h cmd.func self c b w)

  -- What is found among commands that all have a property has it.
  Found : (Command → Type 0) → Option Command → Type 0
  Found P none = Unit
  Found P (some cmd) = P cmd
