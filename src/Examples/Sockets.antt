-- ===== src/Examples/Sockets.antt =====
-- The theorems on vectors, the table of connections and sockets at concrete inputs.
use ghetto_redis.Prelude.{
  ℕ, ◌+◌, ◌<◌, ◌≤◌, ◌≡◌, ◌≢◌, ◌⊎◌, refl, inl, List, ◌==◌, if◌then◌else◌, [], ◌∷◌, ◌++◌, true, false,
  Bool, none, some, length, ◌||◌, ◌∙◌, arith,
}
use ghetto_redis.Prelude.Words.{Memory, slice}
use ghetto_redis.Prelude.Text.{text}
use ghetto_redis.Commands.State.{Conn, World}
use ghetto_redis.Commands.Frame.{Grown}
use ghetto_redis.Vector.{Vector, insert_vector}
use ghetto_redis.Vector.Items.{items, insert_vector-items}
use ghetto_redis.Reactor.Table.{
  new_table, reactor_conn_emplace, lookup, lookup-new_table, lookup-reactor_conn_emplace,
}
use ghetto_redis.Reactor.Table.Closing.{close_conns, close_conns-connected}
use ghetto_redis.Epoll.{
  done, failed, returns, Sending, reactor_epoll_on_epollin, reactor_epoll_flush, flush_pending,
}
use ghetto_redis.Epoll.Flush.{
  pending, IsReady, reactor_epoll_flush-done, reactor_epoll_flush_failed, flush_pending-done,
}
use ghetto_redis.Kv.{Entry}
use ghetto_redis.Commands.Table.{init_commands}
use ghetto_redis.Epoll.Events.{EpollCtl, Sockets, Tracked, conn_event, conn_event-Tracked}
use ghetto_redis.Epoll.Input.{reactor_epoll_on_epollin-returns}
use ghetto_redis.Server.Progress.{Overlong}
use ghetto_redis.Examples.{memory_of, conn_with, world_of, entries, command_table}

-- A full vector of 11 and 22, and memory with other contents.
abbrev pair : Vector
pair = record { array = λ i. if i == 0 then 11 else 22; used = 2; size = 2 }

abbrev other_memory : ℕ → ℕ
other_memory i = i + 100

insert_vector-items_example :
    (a' : Vector) × (insert_vector other_memory pair 33 ≡ some a')
    × (items a' ≡ 11 ∷ 22 ∷ 33 ∷ [])
    × (a'.used ≡ 3)
    × (a'.used ≤ a'.size)
    × (a'.size ≡ 4)
insert_vector-items_example =
    insert_vector-items other_memory pair 33 (omega arith) (omega arith) (omega arith)

-- Connections at 11 and 22 with the descriptors 1 and 2. Behind the table the memory is not zero.
abbrev two_connections : Vector
two_connections = record {
  array = λ i. if i == 0 then 0 else if i == 1 then 11 else 22;
  used = 3;
  size = 3;
}

abbrev descriptor : ℕ → ℕ
descriptor conn = if conn == 11 then 1 else 2

descriptor_known :
    (j : ℕ)
    → j < two_connections.size
    → two_connections.array j ≢ 0
    → descriptor (two_connections.array j) ≡ j
descriptor_known j below connection = ground arith

close_conns-connected_example :
    ((close_conns descriptor two_connections).1 ≡ 1 ∷ 2 ∷ [])
    × ((j : ℕ) → lookup (close_conns descriptor two_connections).0 j ≡ 0)
close_conns-connected_example = close_conns-connected descriptor two_connections descriptor_known

-- `ab` is unread behind two bytes that were read.
abbrev memory : Memory
memory = memory_of (text "xxab")

abbrev reading : Conn
reading = record (conn_with 2 false) { recv_buf_read = 2 }

-- `read` is interrupted once, and then has three bytes. The connection at 5 gets the three bytes, and its shard looks for a command in them.
abbrev received_world : World (List Entry)
received_world = world_of reading 0

reactor_epoll_on_epollin-returns_example :
    (mem' : Memory) × (slice mem' 0 5 ≡ text "abcde")
    × (((w' : World (List Entry)) × (reactor_epoll_on_epollin entries command_table
              (init_commands command_table)
              (failed 4 ∷ done (text "cde") ∷ [])
              6
              0
              5
              memory
              received_world
            ≡ returns (mem', w'))
          × ((w'.conns 5).recv_buf ≡ 0)
          × ((w'.conns 5).recv_buf_read + (w'.conns 5).recv_buf_size ≡ 5)
          × Grown reading (w'.conns 5)
          × (length (w'.conns 5).send_buf ≤ 8192))
        ⊎ (((w' : World (List Entry)) × (reactor_epoll_on_epollin entries command_table
                  (init_commands command_table)
                  (failed 4 ∷ done (text "cde") ∷ [])
                  6
                  0
                  5
                  memory
                  received_world
                ≡ returns (mem', w'))
              × (8192 < length (w'.conns 5).send_buf))
            ⊎ Overlong mem' 0 5))
reactor_epoll_on_epollin-returns_example =
    reactor_epoll_on_epollin-returns entries command_table (init_commands command_table)
      (failed 4 ∷ done (text "cde") ∷ []) 6 0 5 memory received_world (text "cde") refl
      (omega arith) (omega arith) (omega arith) (omega arith) (λ q. grind arith) (omega arith)

-- One byte of `-before` has been sent.
abbrev sending : Sending
sending = record { wire = text "-"; conn = record (conn_with 0 false) { send_buf_sent = 1 } }

sending-IsReady : IsReady sending
sending-IsReady = record { small = omega arith; sent_below = inl (omega arith) }

reactor_epoll_flush-done_example :
    (s' : Sending) × (reactor_epoll_flush (done 4 ∷ []) 0 sending ≡ returns ([], 0, s'))
    × (s'.wire ++ pending s' ≡ text "-before")
    × (length (pending s') + 4 ≡ 6)
    × IsReady s'
reactor_epoll_flush-done_example =
    reactor_epoll_flush-done 4 [] 0 sending sending-IsReady (omega arith)

reactor_epoll_flush_failed_example :
    reactor_epoll_flush (failed 11 ∷ []) 0 sending
    ≡ returns ([], 11, record sending { conn = record sending.conn { send_buf_sent = 0 } })
reactor_epoll_flush_failed_example =
    reactor_epoll_flush_failed 11 [] 0 sending (omega arith) (omega arith)

flush_pending-done_example :
    (s' : Sending) × (flush_pending 3 (done 2 ∷ done 4 ∷ []) 0 sending ≡ returns ([], 0, s'))
    × (s'.wire ≡ text "-before")
    × (s'.conn.send_buf ≡ [])
flush_pending-done_example =
    flush_pending-done (2 ∷ 4 ∷ []) 0 sending sending-IsReady (omega arith) refl

-- The watched descriptors as a set.
abbrev kernel : EpollCtl
kernel = record {
  Interests = ℕ → Bool;
  watches = λ s fd. s fd;
  add = λ s fd events. if s fd then none else some (λ j. if j == fd then true else s j);
  modify = λ s fd events. if s fd then some s else none;
  del = λ s fd. if s fd then some (λ j. if j == fd then false else s j) else none;
  add-watches = λ s fd events free. (λ j. (if j == fd then true else s j), rw free refl, λ j. refl);
  modify-watches = λ s fd events watched. (s, rw watched refl, λ j. refl);
  del-watches = λ s fd watched. (λ j. (if j == fd then false else s j), rw watched refl, λ j. refl);
}

-- The connection at 5 has the descriptor 7.
abbrev one : Sockets kernel
one = record {
  table = reactor_conn_emplace other_memory (new_table other_memory) 7 5;
  interests = λ j. j == 3 || (j == 4 || j == 7);
}

one-Tracked : Tracked kernel 3 4 one
one-Tracked =
    let emplaced =
      λ (fd : ℕ). (lookup-reactor_conn_emplace other_memory (new_table other_memory) 7 5 fd).1 in
    record {
      tracked = λ fd. ground (arith, lookup-new_table other_memory fd, emplaced fd);
      no_listener = emplaced 3 ∙ lookup-new_table other_memory 3;
      no_wakeup = emplaced 4 ∙ lookup-new_table other_memory 4;
    }

conn_event-Tracked_example :
    (conn' : Conn) × (s' : Sockets kernel) × (conn_event kernel 7 true true (conn_with 0 false) one
      ≡ returns (conn', s'))
    × Tracked kernel 3 4 s'
    × ((j : ℕ) → lookup s'.table j ≡ (if j == 7 then 0 else lookup one.table j))
conn_event-Tracked_example =
    conn_event-Tracked kernel 3 4 7 true true (conn_with 0 false) one one-Tracked refl (omega arith)
      (omega arith) refl
