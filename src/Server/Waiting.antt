-- ===== src/Server/Waiting.antt =====
-- A request that is behind a command in the pipeline, while that command is at another shard.
use ghetto_redis.Prelude.{
  ℕ, ◌+◌, ◌^◌, ◌≤◌, ◌<◌, ◌≡◌, refl, [], ◌∷◌, ◌++◌, Bool, true, some, length, arith,
}
use ghetto_redis.Prelude.Words.{Memory, Bytes, Holds}
use ghetto_redis.Prelude.Text.{text}
use ghetto_redis.HashMap.{HashMap}
use ghetto_redis.Kv.{Entry}
use ghetto_redis.Protocol.Resp.Layout.{request}
use ghetto_redis.Protocol.Reply.{write_simple_string}
use ghetto_redis.Commands.State.{World}
use ghetto_redis.Commands.Table.{Command, command, CommandFunc, init_commands}
use ghetto_redis.Commands.Table.Lookup.{lookup_command-init_commands}
use ghetto_redis.Commands.Plain.{cmd_ping}
use ghetto_redis.Commands.Call.{call}
use ghetto_redis.Server.{consume, on_data_available}
use ghetto_redis.Server.Requests.{on_data_available-consume}

-- `*1`, `$4` and `PING`, with their ends of line.
abbrev pub ping_request : Bytes
ping_request = request (text "PING" ∷ [])

module _ (h : HashMap Entry (λ e. e.key)) (t : HashMap Command (λ c. c.name)) where
  open h use {Map}

  ping-reply :
      (c : ℕ) (w : World Map)
      → (w.conns c).flag_dispatch_waiting ≡ true
      → length ping_request ≤ (w.conns c).recv_buf_size
      → let last = (consume h t c (length ping_request) (cmd_ping c w)).1 in
        ((last.conns c).send_buf ≡ (w.conns c).send_buf ++ write_simple_string (text "PONG") 4)
        × ((last.conns c).flag_dispatch_waiting ≡ true)
  unfolding consume cmd_ping
  ping-reply c w waiting inside = ground (arith, waiting)

  -- PING behind a command that another shard still executes, where no more of the send buffer is sent
  -- than it holds: `on_data_available` answers it at once,
  -- before the reply of that command, and leaves the connection waiting.
  pub on_data_available_waiting :
      (mem : Memory) (self c : ℕ) (w : World Map)
      → (w.conns c).flag_dispatch_waiting ≡ true
      → let start = (w.conns c).recv_buf + (w.conns c).recv_buf_read in
        start + (w.conns c).recv_buf_size < 2 ^ 64
        → (w.conns c).send_buf_sent ≤ length (w.conns c).send_buf
        → Holds mem start ping_request
        → length ping_request ≤ (w.conns c).recv_buf_size
        → (more : Bool) × (last : World Map) × (on_data_available h t (init_commands t) mem self c w
            ≡ some (more, last))
          × ((last.conns c).send_buf ≡ (w.conns c).send_buf ++ write_simple_string (text "PONG") 4)
          × ((last.conns c).flag_dispatch_waiting ≡ true)
  unfolding call
  on_data_available_waiting mem self c w waiting low sendable held inside =
      let (r, items, returned) =
        on_data_available-consume h t (init_commands t) mem self c w (text "PING") []
          (command (text "PING") 0 CommandFunc.cmd_ping) low sendable held (omega arith) inside
          (lookup_command-init_commands t (text "PING")) refl in
      let (replied, still) = ping-reply c w waiting inside in (_, _, returned, replied, still)
