-- ===== src/Server.antt =====
-- src/server.c: from received bytes to the commands. `mem` is the memory that the receive buffers
-- lie in, `self` is `context->shard`, and `c` is the connection's address.
pub mod Requests
pub mod Delivery
pub mod Reads
pub mod Waiting
pub mod Progress
pub mod Start
use ghetto_redis.Prelude.{
  ℕ, zero, suc, ◌+◌, ◌-◌, ◌^◌, ◌==◌, ltb, leb, if◌then◌else◌, List, [], ◌∷◌, ◌++◌, Bool, true,
  false, ◌&&◌, not, Option, none, some, get_or, length,
}
use ghetto_redis.Prelude.Words.{Memory, Bytes, add_size, slice}
use ghetto_redis.Prelude.Text.{text}
use ghetto_redis.HashMap.{HashMap}
use ghetto_redis.Kv.{Entry}
use ghetto_redis.Protocol.{
  ParseError, parse_error, parse_error_invalid_argc, parse_incomplete, Parsed, ok, err, CmdArgs,
}
use ghetto_redis.Protocol.Resp.{parse_resp_request}
use ghetto_redis.Protocol.Inline.{parse_inline_request}
use ghetto_redis.Protocol.Reply.{write_simple_generic_error, c_string, c_string_n, snprintf}
use ghetto_redis.Commands.State.{Conn, Message, request, response, arg, World, set_conn}
use ghetto_redis.Commands.Table.{Command, lookup_command}
use ghetto_redis.Commands.Dispatch.{reply, run_callback}
use ghetto_redis.Commands.Call.{call}
use ghetto_redis.Reactor.{◌>>=◌}

-- VAR_ARGC
abbrev pub var_argc : ℕ
var_argc = 2 ^ 64 - 1

-- The messages of `handle_command`, in buffers of 1024 and 64 bytes.
unfoldable pub unknown_command : (name first_arg : Bytes) → Bytes
unknown_command name first_arg = snprintf 1023 (
    text "unknown command '"
    ++ (c_string name
        ++ (text "', with args beginning with: '" ++ (c_string first_arg ++ text "'"))))

unfoldable pub wrong_arity : (name : Bytes) → Bytes
wrong_arity name =
    snprintf 63 (text "wrong number of arguments for '" ++ (c_string name ++ text "' command"))

-- How the bytes at the start of the buffer are parsed.
unfoldable pub parse_request : Memory → (start size : ℕ) → Parsed CmdArgs
parse_request mem start size =
    if mem start == b'*'
    then parse_resp_request mem start size
    else parse_inline_request mem start size

module _ (h : HashMap Entry (λ e. e.key)) (t : HashMap Command (λ c. c.name)) where
  open h use {Map}
  open t use {Map as Commands}

  -- What follows the lookup.
  unfoldable pub run_command :
      Memory → (self c : ℕ) → CmdArgs → Option Command → World Map → Option (World Map)
  run_command mem self c args none w =
      let first_arg = if ltb 1 args.argc then arg mem args 1 else [] in
      some (reply c (write_simple_generic_error (unknown_command (arg mem args 0) first_arg)) w)
  run_command mem self c args (some cmd) w =
      if not (cmd.arity == args.argc - 1) && not (cmd.arity == var_argc)
      then some (reply c (write_simple_generic_error (wrong_arity cmd.name)) w)
      else call h cmd.func self c (arg mem args) w

  unfoldable pub handle_command :
      Commands → Memory → (self c : ℕ) → CmdArgs → World Map → Option (World Map)
  unfolding run_command
  handle_command commands mem self c args w =
      run_command mem self c args (lookup_command t (arg mem args 0) commands) w

  -- The part behind `handle_command`: the request is taken out of the buffer.
  unfoldable pub consume : (c len : ℕ) → World Map → Bool × World Map
  consume c len w =
      let conn = w.conns c in
      if conn.flag_end then (false, w) else if ltb conn.recv_buf_size len then (false, w) else (
        ltb 0 (conn.recv_buf_size - len),
        set_conn c
            (record conn {
              recv_buf_read = conn.recv_buf_read + len;
              recv_buf_size = conn.recv_buf_size - len;
            })
            w,
      )

  -- `write_simple_generic_error(conn, msg); conn->flags |= END;`
  abbrev pub refuse : (c : ℕ) → (msg : Bytes) → World Map → World Map
  refuse c msg w =
      let w' = reply c (write_simple_generic_error msg) w in
      set_conn c (record (w'.conns c) { flag_end = true }) w'

  -- The `switch` on the parser's result, and what follows it.
  unfoldable pub handle_parsed :
      Commands → Memory → (self c : ℕ) → Parsed CmdArgs → World Map → Option (Bool × World Map)
  unfolding handle_command consume
  handle_parsed commands mem self c (err parse_incomplete) w = some (false, w)
  handle_parsed commands mem self c (err parse_error) w =
      some (false, refuse c (text "parse error") w)
  handle_parsed commands mem self c (err parse_error_invalid_argc) w =
      some (false, refuse c (text "invalid argc") w)
  handle_parsed commands mem self c (ok args) w =
      (if ltb 0 args.argc then handle_command commands mem self c args w else some w) >>= λ w.
      some (consume c args.len w)

  -- The returned `bool` says whether bytes are left to look at. `none` is a call that does not return,
  -- because it waits for room in a queue, or because the assertion behind the parser fails.
  unfoldable pub on_data_available :
      Commands → Memory → (self c : ℕ) → World Map → Option (Bool × World Map)
  unfolding handle_parsed parse_request
  on_data_available commands mem self c w =
      let conn = w.conns c in
      if ltb conn.recv_buf_size 1
      then some (false, w)
      else if leb conn.send_buf_sent (length conn.send_buf)
      then handle_parsed commands mem self c
          (parse_request mem (add_size conn.recv_buf conn.recv_buf_read) conn.recv_buf_size) w
      else none

  -- `while (on_data_available(context, conn)) { }` with fuel for the rounds.
  unfoldable pub drain : Commands → Memory → ℕ → (self c : ℕ) → World Map → Option (World Map)
  unfolding on_data_available
  drain commands mem zero self c w = none
  drain commands mem (suc fuel) self c w = on_data_available commands mem self c w >>= λ (more, w).
      elim more [ true ↦ drain commands mem fuel self c w | false ↦ some w ]

  -- The connection of a message.
  abbrev pub conn_of : Message Map → ℕ
  conn_of (request q) = q.conn
  conn_of (response r) = r.conn

  unfoldable pub on_cb :
      Commands → Memory → ℕ → (self : ℕ) → Message Map → World Map → Option (World Map)
  unfolding drain
  on_cb commands mem fuel self message w = run_callback self message w >>= λ w.
      let c = conn_of message in
      if (w.conns c).shard_id == self then drain commands mem fuel self c w else some w

-- `on_accept`: the connection that a shard takes over, with an empty buffer at the address `buf`.
unfoldable pub on_accept : (self client_fd buf : ℕ) → Conn
on_accept self client_fd buf = record {
  fd = client_fd;
  flag_end = false;
  flag_dispatch_waiting = false;
  flag_blocked = false;
  shard_id = self;
  db = 0;
  recv_buf = buf;
  recv_buf_size = 0;
  recv_buf_read = 0;
  send_buf = [];
  send_buf_sent = 0;
}
