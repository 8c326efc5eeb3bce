-- ===== src/Epoll.antt =====
-- Events on a connection's socket: `reactor_epoll_on_epollin`, `reactor_epoll_flush` and
-- `reactor_flush_pending_writes` of src/include/reactor_epoll.c. The answers of `read` and `write`
-- come from outside: they are arguments, in the order of the calls. Logging is left out.
pub mod Receive
pub mod Flush
pub mod Input
pub mod Events
use ghetto_redis.Prelude.{
  ℕ, zero, suc, ◌+◌, ◌-◌, ◌==◌, ltb, leb, if◌then◌else◌, List, [], ◌∷◌, ◌++◌, Bool, true, false,
  ◌&&◌, not, Option, none, some, length, get_or, take, drop,
}
use ghetto_redis.Prelude.Words.{Memory, Bytes, add_size, sub_size, size_max}
use ghetto_redis.HashMap.{HashMap}
use ghetto_redis.Kv.{Entry}
use ghetto_redis.Protocol.{message_max_length}
use ghetto_redis.Commands.State.{Conn, World, set_conn}
use ghetto_redis.Commands.Table.{Command}
use ghetto_redis.Server.{drain}

-- What a system call answers, in place of -1 with `errno`.
pub data Answer {ℓ} (A : Type ℓ) : Type ℓ where
  done : A → Answer A
  failed : (errno : ℕ) → Answer A

-- How a call ends: `aborts` is a failed `assert` or a `panic`, `waits` is a call that has not ended.
pub data Exit {ℓ} (A : Type ℓ) : Type ℓ where
  returns : A → Exit A
  aborts : Exit A
  waits : Exit A

infixl 5 ◌>>=◌
abbrev pub ◌>>=◌ {ℓ κ} : {A : Type ℓ} {B : Type κ} → Exit A → (A → Exit B) → Exit B
returns a >>= f = f a
aborts >>= f = aborts
waits >>= f = waits

abbrev pub eintr : ℕ
eintr = 4

abbrev pub eagain : ℕ
eagain = 11

-- `memmove(dst, src, n)` and the bytes that `read` stores. Buffers do not wrap around.
abbrev pub memmove : Memory → (dst src n : ℕ) → Memory
memmove mem dst src n a = if leb dst a && ltb a (dst + n) then mem (src + (a - dst)) else mem a

abbrev pub store_bytes : Memory → ℕ → Bytes → Memory
store_bytes mem p bs a = if leb p a && ltb a (p + length bs) then get_or bs (a - p) 0 else mem a

-- The unread bytes are moved to the front of the buffer.
unfoldable pub compact : Memory → Conn → Memory × Conn
compact mem conn =
    if ltb 0 conn.recv_buf_read
    then (
      memmove mem conn.recv_buf (conn.recv_buf + conn.recv_buf_read) conn.recv_buf_size,
      record conn { recv_buf_read = 0 },
    )
    else (mem, conn)

-- The `do` loop around `read`, with the thread's `errno`.
unfoldable pub read_loop :
    List (Answer Bytes) → (errno : ℕ) → Memory → Conn → Exit (Answer Bytes × ℕ × Memory × Conn)
unfolding compact
read_loop [] errno mem conn = waits
read_loop (done bs ∷ answers) errno mem conn =
    let (mem, conn) = compact mem conn in
    returns (done bs, errno, store_bytes mem (conn.recv_buf + conn.recv_buf_size) bs, conn)
read_loop (failed e ∷ answers) errno mem conn =
    let (mem, conn) = compact mem conn in
    let again = read_loop answers e mem conn in
    if e == eintr then again else returns (failed e, e, mem, conn)

-- What `reactor_epoll_on_epollin` does with the answer. The returned `Bool` is whether it goes on
-- to the requests.
unfoldable pub received : Answer Bytes → Conn → Exit (Bool × Conn)
received (failed e) conn =
    returns (false, if e == eagain then conn else record conn { flag_end = true })
received (done []) conn = returns (false, record conn { flag_end = true })
received (done (b ∷ bs)) conn =
    let size = conn.recv_buf_size + length (b ∷ bs) in
    if leb size message_max_length
    then returns (not conn.flag_dispatch_waiting, record conn { recv_buf_size = size })
    else aborts

-- The part before the requests.
unfoldable pub receive :
    List (Answer Bytes) → (errno : ℕ) → Memory → Conn → Exit (Bool × ℕ × Memory × Conn)
unfolding read_loop received
receive answers errno mem conn =
    if ltb conn.recv_buf_size message_max_length
    then (do
      (answer, errno, mem, conn) ← read_loop answers errno mem conn
      (go_on, conn) ← received answer conn
      returns (go_on, errno, mem, conn))
    else aborts

module _ (h : HashMap Entry (λ e. e.key)) (t : HashMap Command (λ c. c.name)) where
  open h use {Map}
  open t use {Map as Commands}

  -- The loop over the requests.
  abbrev pub drained : Commands → Memory → ℕ → (self c : ℕ) → World Map → Exit (World Map)
  drained commands mem fuel self c w = elim (drain h t commands mem fuel self c w) [
    | none ↦ waits
    | some w ↦ returns w
  ]

  unfoldable pub reactor_epoll_on_epollin :
      Commands
      → List (Answer Bytes)
      → ℕ
      → (self c : ℕ) → Memory
      → World Map
      → Exit (Memory × World Map)
  unfolding receive
  reactor_epoll_on_epollin commands answers fuel self c mem w = do
    (go_on, errno, mem, conn) ← receive answers (w.errno self) mem (w.conns c)
    let w = set_conn c conn (record w { errno = λ i. if i == self then errno else w.errno i })
    w ← if go_on then drained commands mem fuel self c w else returns w
    returns (mem, w)

-- What the socket has been given so far, and the connection.
pub record Sending : Type 0 where
  pub wire : Bytes
  pub conn : Conn

-- The answer as the `size_t` that the code keeps it in.
abbrev pub rv_of : Answer ℕ → ℕ
rv_of (done n) = n
rv_of (failed _) = size_max

abbrev pub errno_of : (errno : ℕ) → Answer ℕ → ℕ
errno_of errno (done _) = errno
errno_of errno (failed e) = e

-- A `write` that is done has taken that many of the bytes it was given.
abbrev pub taken : Answer ℕ → Sending → Bytes
taken (done n) s = s.wire ++ take n (drop s.conn.send_buf_sent s.conn.send_buf)
taken (failed _) s = s.wire

-- The part of `reactor_epoll_flush` behind its loop.
unfoldable pub flushed : (rv errno : ℕ) → Conn → Exit Conn
flushed rv errno conn =
    let sent = add_size conn.send_buf_sent rv in
    if ltb rv 0 && errno == eagain
    then returns (record conn { flag_blocked = true })
    else if ltb rv 0
    then returns
        (record conn { flag_end = true; flag_dispatch_waiting = false; flag_blocked = false })
    else if ltb (length conn.send_buf) sent
    then aborts
    else if sent == length conn.send_buf
    then returns (record conn { send_buf = []; send_buf_sent = 0 })
    else returns (record conn { send_buf_sent = sent })

-- The answers that are left are returned too.
unfoldable pub reactor_epoll_flush :
    List (Answer ℕ) → (errno : ℕ) → Sending → Exit (List (Answer ℕ) × ℕ × Sending)
unfolding flushed
reactor_epoll_flush [] errno s = waits
reactor_epoll_flush (answer ∷ answers) errno s =
    let rv = rv_of answer in
    let errno' = errno_of errno answer in
    let wire = taken answer s in
    let again = reactor_epoll_flush answers errno' (record s { wire = wire }) in
    if ltb rv 0 && errno' == eintr
    then again
    else flushed rv errno' s.conn >>= λ conn.
        returns (answers, errno', record { wire = wire; conn = conn })

-- The `while` loop of `reactor_flush_pending_writes` on one connection, with fuel for its rounds.
unfoldable pub flush_pending :
    ℕ → List (Answer ℕ) → (errno : ℕ) → Sending → Exit (List (Answer ℕ) × ℕ × Sending)
unfolding reactor_epoll_flush
flush_pending zero answers errno s = waits
flush_pending (suc fuel) answers errno s =
    if ltb 0 (length s.conn.send_buf)
    then reactor_epoll_flush answers errno s
      >>= (λ (answers, errno, s). flush_pending fuel answers errno s)
    else returns (answers, errno, s)
