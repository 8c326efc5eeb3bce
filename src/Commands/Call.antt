-- ===== src/Commands/Call.antt =====
-- `cmd->func(context, conn, args)`: the function pointers of the command table.
pub mod KeyValue
use ghetto_redis.Prelude.{ℕ, Option, some}
use ghetto_redis.Prelude.Words.{Bytes}
use ghetto_redis.HashMap.{HashMap}
use ghetto_redis.Kv.{Entry}
use ghetto_redis.Commands.State.{World}
use ghetto_redis.Commands.Table.{CommandFunc}
use ghetto_redis.Commands.Handlers.{
  get_command, set_command, del_command, dispatch_ping_command, incr_command, decr_command,
  incrby_command, decrby_command,
}
use ghetto_redis.Commands.Dispatch.{cmd}
use ghetto_redis.Commands.Plain.{
  cmd_ping, cmd_echo, cmd_quit, cmd_shutdown, cmd_flushall, cmd_select,
}

module _ (h : HashMap Entry (λ e. e.key)) where
  open h use {Map, hash}

  unfoldable pub call :
      CommandFunc → (self c : ℕ) → (arg : ℕ → Bytes) → World Map → Option (World Map)
  call CommandFunc.cmd_ping self c arg w = some (cmd_ping c w)
  call CommandFunc.cmd_echo self c arg w = some (cmd_echo c arg w)
  call CommandFunc.cmd_quit self c arg w = some (cmd_quit c w)
  call CommandFunc.cmd_get self c arg w = cmd hash (get_command h) self c arg w
  call CommandFunc.cmd_set self c arg w = cmd hash (set_command h) self c arg w
  call CommandFunc.cmd_del self c arg w = cmd hash (del_command h) self c arg w
  call CommandFunc.cmd_shutdown self c arg w = some (cmd_shutdown self w)
  call CommandFunc.cmd_flushall self c arg w = some (cmd_flushall h c w)
  call CommandFunc.cmd_select self c arg w = some (cmd_select self c arg w)
  call CommandFunc.cmd_incr self c arg w = cmd hash (incr_command h) self c arg w
  call CommandFunc.cmd_decr self c arg w = cmd hash (decr_command h) self c arg w
  call CommandFunc.cmd_incrby self c arg w = cmd hash (incrby_command h) self c arg w
  call CommandFunc.cmd_decrby self c arg w = cmd hash (decrby_command h) self c arg w
  call CommandFunc.cmd_dispatch_ping self c arg w = cmd hash (dispatch_ping_command h) self c arg w
