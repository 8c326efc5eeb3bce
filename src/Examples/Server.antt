-- ===== src/Examples/Server.antt =====
-- The theorems on the server at concrete buffers.
use ghetto_redis.Prelude.{
  ℕ, ◌≡◌, ◌⊎◌, refl, List, [], ◌∷◌, ◌++◌, Bool, true, false, some, get_or, arith,
}
use ghetto_redis.Prelude.Words.{Bytes}
use ghetto_redis.Prelude.Decimal.{decimal}
use ghetto_redis.Prelude.Text.{text}
use ghetto_redis.Kv.{Entry}
use ghetto_redis.Protocol.{CmdArgs}
use ghetto_redis.Protocol.Reply.{write_bulk_string, write_array_header, write_simple_string}
use ghetto_redis.Protocol.Resp.Layout.{request}
use ghetto_redis.Commands.State.{World, arg, set_conn}
use ghetto_redis.Commands.Table.{command, CommandFunc, init_commands}
use ghetto_redis.Commands.Table.Lookup.{lookup_command-init_commands}
use ghetto_redis.Commands.Call.{call}
use ghetto_redis.Server.{on_data_available, drain}
use ghetto_redis.Server.Requests.{on_data_available-request}
use ghetto_redis.Server.Progress.{drain-Ends, Ends, Overruns, Overlong}
use ghetto_redis.Server.Waiting.{ping_request, on_data_available_waiting}
use ghetto_redis.Examples.{memory_of, memory_of-Holds, entries, command_table, conn_with, world_of}

abbrev get_word : List Bytes
get_word = text "GET" ∷ text "word" ∷ []

abbrev busy : World (List Entry)
busy = world_of (conn_with 14 true) 0

on_data_available_waiting_example :
    (more : Bool) × (last : World (List Entry)) × (on_data_available entries command_table
        (init_commands command_table)
        (memory_of ping_request)
        0
        5
        busy
      ≡ some (more, last))
    × ((last.conns 5).send_buf ≡ text "-before" ++ write_simple_string (text "PONG") 4)
    × ((last.conns 5).flag_dispatch_waiting ≡ true)
unfolding write_array_header write_bulk_string decimal
on_data_available_waiting_example =
    on_data_available_waiting entries command_table (memory_of ping_request) 0 5 busy refl
      (omega arith) (omega arith) (memory_of-Holds ping_request) (omega arith)

abbrev idle : World (List Entry)
idle = world_of (conn_with 30 false) 0

on_data_available-request_example :
    (r : CmdArgs) × (w' : World (List Entry)) × (more : Bool) × (last : World (List Entry))
    × ((i : ℕ) → arg (memory_of (request get_word)) r i ≡ get_or get_word i [])
    × (call entries CommandFunc.cmd_get 0 5 (arg (memory_of (request get_word)) r) idle ≡ some w')
    × (on_data_available entries command_table
          (init_commands command_table)
          (memory_of (request get_word))
          0
          5
          idle
        ≡ some (more, last))
    × ((((w'.conns 5).flag_end ≡ true) × (last ≡ w') × (more ≡ false))
        ⊎ (((w'.conns 5).flag_end ≡ false)
            × (last ≡ set_conn 5 (record (w'.conns 5) { recv_buf_read = 23; recv_buf_size = 7 }) w')
            × (more ≡ true)))
unfolding write_array_header write_bulk_string decimal
on_data_available-request_example =
    on_data_available-request entries command_table (init_commands command_table)
      (memory_of (request get_word)) 0 5 idle (text "GET") (text "word" ∷ [])
      (command (text "GET") 1 CommandFunc.cmd_get) (omega arith) (omega arith)
      (memory_of-Holds (request get_word)) (omega arith) (omega arith)
      (lookup_command-init_commands command_table (text "GET")) refl (λ q. grind arith)

drain-Ends_example :
    Ends entries command_table
      (init_commands command_table)
      (memory_of (request get_word))
      0
      5
      (drain entries command_table
        (init_commands command_table)
        (memory_of (request get_word))
        31
        0
        5
        idle)
      idle
    ⊎ (Overruns entries command_table
          (init_commands command_table)
          (memory_of (request get_word))
          0
          5
          (drain entries command_table
            (init_commands command_table)
            (memory_of (request get_word))
            31
            0
            5
            idle)
        ⊎ Overlong (memory_of (request get_word)) 0 30)
drain-Ends_example =
    drain-Ends entries command_table (init_commands command_table) (memory_of (request get_word)) 0
      5 31 idle (omega arith) (omega arith) (λ q. grind arith) (omega arith)
