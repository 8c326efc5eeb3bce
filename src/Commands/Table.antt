-- ===== src/Commands/Table.antt =====
-- The command table of src/include/commands.c: `register_command`, `init_commands`,
-- `lookup_command`.
pub mod Lookup
use ghetto_redis.Prelude.{ℕ, List, [], ◌∷◌, Option}
use ghetto_redis.Prelude.Words.{Bytes}
use ghetto_redis.Prelude.Text.{text}
use ghetto_redis.HashMap.{HashMap}

-- The functions that the table points at.
pub data CommandFunc : Type 0 where
  cmd_ping cmd_echo cmd_quit cmd_get cmd_set cmd_del cmd_shutdown cmd_flushall : CommandFunc
  cmd_select cmd_incr cmd_decr cmd_incrby cmd_decrby cmd_dispatch_ping : CommandFunc

pub record Command : Type 0 where
  pub name : Bytes
  pub arity : ℕ
  pub func : CommandFunc

abbrev pub command : Bytes → ℕ → CommandFunc → Command
command name arity func = record { name = name; arity = arity; func = func }

-- The calls of `register_command` in `init_commands`, in order.
abbrev pub registrations : List Command
registrations =
    command (text "PING") 0 cmd_ping
    ∷ command (text "ECHO") 1 cmd_echo
    ∷ command (text "QUIT") 0 cmd_quit
    ∷ command (text "GET") 1 cmd_get
    ∷ command (text "SET") 2 cmd_set
    ∷ command (text "DEL") 1 cmd_del
    ∷ command (text "SHUTDOWN") 0 cmd_shutdown
    ∷ command (text "FLUSHALL") 0 cmd_flushall
    ∷ command (text "SELECT") 1 cmd_select
    ∷ command (text "INCR") 1 cmd_incr
    ∷ command (text "DECR") 1 cmd_decr
    ∷ command (text "INCRBY") 2 cmd_incrby
    ∷ command (text "DECRBY") 2 cmd_decrby
    ∷ command (text "DPING") 1 cmd_dispatch_ping
    ∷ []

module _ (t : HashMap Command (λ c. c.name)) where
  open t use {Map, hash, new, get_with_hash, set_with_hash}

  -- `hashmap_set` hashes the item itself; what it returns is not looked at.
  unfoldable pub register_command : Map → Command → Map
  register_command commands cmd = (set_with_hash commands cmd (hash cmd.name)).0

  unfoldable pub register_all : Map → List Command → Map
  unfolding register_command
  register_all commands [] = commands
  register_all commands (c ∷ cs) = register_all (register_command commands c) cs

  unfoldable pub init_commands : Map
  unfolding register_all
  init_commands = register_all new registrations

  -- `name` is the first argument.
  unfoldable pub lookup_command : (name : Bytes) → Map → Option Command
  lookup_command name commands = get_with_hash commands name (hash name)
