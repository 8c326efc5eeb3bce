-- ===== src/Epoll/Receive.antt =====
-- What `reactor_epoll_on_epollin` leaves in the receive buffer.
use ghetto_redis.Prelude.{
  ℕ, zero, suc, ◌+◌, ◌≤◌, ◌<◌, ◌≡◌, refl, ap, ◌∙◌, ◌==◌, ltb, ltb-true, leb, if◌then◌else◌, List,
  [], ◌∷◌, ◌++◌, true, false, not, Option, none, some, length, get_or, Bool-cases, inl, inr, arith,
}
use mathlib.Core.Path.{ap₂}
use ghetto_redis.Prelude.Words.{Memory, Bytes, slice, slice_shift, slice-append}
use ghetto_redis.Protocol.{message_max_length}
use ghetto_redis.Commands.Frame.{Grown}
use ghetto_redis.Commands.State.{Conn}
use ghetto_redis.Epoll.{
  Answer, done, failed, returns, eintr, memmove, store_bytes, compact, read_loop, received, receive,
}

-- The received bytes that no request has taken.
abbrev pub unread : Memory → Conn → Bytes
unread mem conn = slice mem (conn.recv_buf + conn.recv_buf_read) conn.recv_buf_size

compact-unread :
    (mem : Memory) (conn : Conn)
    → (mem' : Memory) × (compact mem conn ≡ (mem', record conn { recv_buf_read = 0 }))
      × (slice mem' conn.recv_buf conn.recv_buf_size ≡ unread mem conn)
unfolding compact
compact-unread mem conn = by_read conn.recv_buf_read refl
  where
    by_read :
        (read : ℕ)
        → conn.recv_buf_read ≡ read
        → (mem' : Memory) × (compact mem conn ≡ (mem', record conn { recv_buf_read = 0 }))
          × (slice mem' conn.recv_buf conn.recv_buf_size ≡ unread mem conn)
    by_read zero e =
        let e' : conn.recv_buf + 0 ≡ conn.recv_buf = omega arith in
        let none_read : ltb 0 conn.recv_buf_read ≡ false = ground arith in
        (mem, rw none_read (ap (λ r. (mem, record conn { recv_buf_read = r })) e), rw (e, e'))
    by_read (suc n) e = (
      memmove mem conn.recv_buf (conn.recv_buf + conn.recv_buf_read) conn.recv_buf_size,
      rw (ltb-true 0 conn.recv_buf_read (omega arith)),
      slice_shift _ mem conn.recv_buf (conn.recv_buf + conn.recv_buf_read) conn.recv_buf_size
          (λ i to. ground arith),
    )

slice-get_or : (bs : Bytes) → slice (λ i. get_or bs i 0) 0 (length bs) ≡ bs
slice-get_or [] = refl
slice-get_or (b ∷ bs) = ap (◌∷◌ b) (
    slice_shift (λ i. get_or (b ∷ bs) i 0) (λ i. get_or bs i 0) 1 0 (length bs)
      (λ i to. ground arith)
    ∙ slice-get_or bs)

store_bytes-slice :
    (mem : Memory) (p n : ℕ) (bs : Bytes)
    → slice (store_bytes mem (p + n) bs) p (n + length bs) ≡ slice mem p n ++ bs
store_bytes-slice mem p n bs =
    let stored = store_bytes mem (p + n) bs in
    slice-append stored p n (length bs)
    ∙ ap₂ ◌++◌ (slice_shift stored mem p p n (λ i to. ground arith)) (
        slice_shift stored (λ i. get_or bs i 0) (p + n) 0 (length bs) (λ i to. ground arith)
        ∙ slice-get_or bs)

-- The first answer that is not an interruption.
abbrev pub first_answer : List (Answer Bytes) → Option (Answer Bytes)
first_answer [] = none
first_answer (done bs ∷ answers) = some (done bs)
first_answer (failed e ∷ answers) =
    let rest = first_answer answers in if e == eintr then rest else some (failed e)

read_loop-done :
    (answers : List (Answer Bytes)) (errno : ℕ) (mem : Memory) (conn : Conn) (bs : Bytes)
    → first_answer answers ≡ some (done bs)
    → (errno' : ℕ) × (mem' : Memory) × (read_loop answers errno mem conn
        ≡ returns (done bs, errno', mem', record conn { recv_buf_read = 0 }))
      × (slice mem' conn.recv_buf (conn.recv_buf_size + length bs) ≡ unread mem conn ++ bs)
unfolding read_loop
read_loop-done [] errno mem conn bs e = cc
read_loop-done (done bs' ∷ answers) errno mem conn bs e =
    let (mem', moved, kept) = compact-unread mem conn in
    let same : bs' ≡ bs = cc in
    rw (← same) (
      errno,
      store_bytes mem' (conn.recv_buf + conn.recv_buf_size) bs',
      rw moved,
      store_bytes-slice mem' conn.recv_buf conn.recv_buf_size bs' ∙ ap (λ xs. xs ++ bs') kept,
    )
read_loop-done (failed n ∷ answers) errno mem conn bs e = elim (Bool-cases (n == eintr)) [
  | inl again ↦
      let (mem', moved, kept) = compact-unread mem conn in
      let start : conn.recv_buf + 0 ≡ conn.recv_buf = omega arith in
      let (errno', mem'', reads, holds) =
        read_loop-done answers n mem' (record conn { recv_buf_read = 0 }) bs (rw again at e) in
      (errno', mem'', rw (again, moved) reads, rw (start, kept) at holds)
  | inr over ↦ absurd (failed_ne (rw over at e))
]
  where
    failed_ne : some (failed n) ≡ some (done bs) → ⊥
    failed_ne h = cc

-- Where the connection has room for what `read` answers in the end, `reactor_epoll_on_epollin` gets
-- past its assertions: the unread bytes followed by the new ones stand at the front of the buffer,
-- and it goes on to the requests unless the connection waits for another shard.
pub receive-unread :
    (answers : List (Answer Bytes)) (errno : ℕ) (mem : Memory) (conn : Conn) (bs : Bytes)
    → first_answer answers ≡ some (done bs)
    → 0 < length bs
    → conn.recv_buf_size + length bs ≤ message_max_length
    → (errno' : ℕ) × (mem' : Memory) × (conn' : Conn) × (receive answers errno mem conn
        ≡ returns (not conn.flag_dispatch_waiting, errno', mem', conn'))
      × (unread mem' conn' ≡ unread mem conn ++ bs)
      × (conn'.recv_buf ≡ conn.recv_buf)
      × (conn'.recv_buf_read ≡ 0)
      × (conn'.recv_buf_size ≡ conn.recv_buf_size + length bs)
      × Grown conn conn'
unfolding receive received
receive-unread answers errno mem conn [] e some_byte room = absurd (omega arith)
receive-unread answers errno mem conn (b ∷ bs) e some_byte room =
    let (errno', mem', reads, holds) = read_loop-done answers errno mem conn (b ∷ bs) e in
    let start : conn.recv_buf + 0 ≡ conn.recv_buf = omega arith in
    let below : ltb conn.recv_buf_size message_max_length ≡ true = ground arith in
    let fits : leb (conn.recv_buf_size + length (b ∷ bs)) message_max_length ≡ true =
      ground arith in
    (
      errno',
      mem',
      record conn { recv_buf_read = 0; recv_buf_size = conn.recv_buf_size + length (b ∷ bs) },
      rw (below, reads, fits),
      rw start holds,
      refl,
      refl,
      refl,
      (refl, omega arith),
    )
