-- ===== src/Epoll/Flush.antt =====
-- What `reactor_epoll_flush` sends.
use ghetto_redis.Prelude.{
  ℕ, zero, suc, ◌+◌, ◌-◌, ◌≤◌, ◌<◌, ◌≡◌, refl, sym, ap, ◌∙◌, ◌⊎◌, ◌==◌, ltb, ltb-true, ltb-false,
  if◌then◌else◌, List, [], ◌∷◌, ◌++◌, map, All, true, false, Bool-cases, inl, inr, length, take,
  drop, arith,
}
use mathlib.Core.List.{append_assoc, append-nil}
use ghetto_redis.Prelude.Words.{Bytes, add_size, size_max}
use ghetto_redis.Protocol.{message_max_length}
use ghetto_redis.Epoll.{
  Answer, done, failed, returns, aborts, Sending, flushed, reactor_epoll_flush, flush_pending,
}

-- The bytes that are still to be sent.
abbrev pub pending : Sending → Bytes
pending s = drop s.conn.send_buf_sent s.conn.send_buf

-- The send buffer is empty, or has bytes to send.
pub record IsReady (s : Sending) : Type 0 where
  pub small : length s.conn.send_buf ≤ message_max_length
  pub sent_below :
      (s.conn.send_buf_sent < length s.conn.send_buf)
      ⊎ ((s.conn.send_buf ≡ []) × (s.conn.send_buf_sent ≡ 0))

take-drop : (k n : ℕ) (xs : Bytes) → take n (drop k xs) ++ drop (k + n) xs ≡ drop k xs
take-drop zero zero xs = refl
take-drop zero (suc n) [] = let e : 0 + suc n ≡ suc n = omega arith in rw e
take-drop zero (suc n) (x ∷ xs) =
    let e : 0 + suc n ≡ suc (0 + n) = omega arith in rw e (ap (◌∷◌ x) (take-drop zero n xs))
take-drop (suc k) zero [] = let e : suc k + 0 ≡ suc k = omega arith in rw e
take-drop (suc k) (suc n) [] = let e : suc k + suc n ≡ suc (k + suc n) = omega arith in rw e
take-drop (suc k) n (x ∷ xs) =
    let e : suc k + n ≡ suc (k + n) = omega arith in rw e (take-drop k n xs)

length-drop : (k : ℕ) (xs : Bytes) → length (drop k xs) ≡ length xs - k
length-drop zero xs = omega arith
length-drop (suc k) [] = omega arith
length-drop (suc k) (x ∷ xs) = omega (arith, length-drop k xs)

drop-all : (k : ℕ) (xs : Bytes) → length xs ≤ k → drop k xs ≡ []
drop-all zero [] h = refl
drop-all zero (x ∷ xs) h = absurd (omega arith)
drop-all (suc k) [] h = refl
drop-all (suc k) (x ∷ xs) h = drop-all k xs (omega arith)

IsReady-le : (s : Sending) → IsReady s → s.conn.send_buf_sent ≤ length s.conn.send_buf
IsReady-le s ready = elim ready.sent_below [ inl h ↦ omega (arith, h) | inr h ↦ omega (arith, h.1) ]

-- A `write` that takes `n` of the bytes that are left moves them from the buffer to the socket: what
-- has been sent, followed by what is to be sent, does not change.
pub reactor_epoll_flush-done :
    (n : ℕ) (answers : List (Answer ℕ)) (errno : ℕ) (s : Sending)
    → IsReady s
    → n ≤ length (pending s)
    → (s' : Sending) × (reactor_epoll_flush (done n ∷ answers) errno s
        ≡ returns (answers, errno, s'))
      × (s'.wire ++ pending s' ≡ s.wire ++ pending s)
      × (length (pending s') + n ≡ length (pending s))
      × IsReady s'
unfolding reactor_epoll_flush flushed
reactor_epoll_flush-done n answers errno s ready fits =
    let sent = s.conn.send_buf_sent in
    let size = length s.conn.send_buf in
    let left = length-drop sent s.conn.send_buf in
    let sent_le : sent ≤ size = IsReady-le s ready in
    let moved = take-drop sent n s.conn.send_buf in
    let next : add_size sent n ≡ sent + n = omega (arith, ready.small, sent_le) in
    let not_negative : ltb n 0 ≡ false = ground arith in
    let inside : ltb size (sent + n) ≡ false =
      ltb-false size (sent + n) (omega (arith, left, sent_le, fits)) in
    elim (Bool-cases (sent + n == size)) [
      | inl all ↦
          let rest : drop (sent + n) s.conn.send_buf ≡ [] =
            drop-all (sent + n) s.conn.send_buf (ground (arith, all)) in
          (
            record {
              wire = s.wire ++ take n (pending s);
              conn = record s.conn { send_buf = []; send_buf_sent = 0 };
            },
            rw (not_negative, next, inside, all),
            rw (append-nil) (ap (λ xs. s.wire ++ xs) (sym (append-nil _) ∙ rw rest at moved)),
            ground (arith, left, all),
            record { small = omega arith; sent_below = inr (refl, refl) },
          )
      | inr part ↦ (
        record {
          wire = s.wire ++ take n (pending s);
          conn = record s.conn { send_buf_sent = sent + n };
        },
        rw (not_negative, next, inside, part),
        append_assoc s.wire (take n (pending s)) (drop (sent + n) s.conn.send_buf)
            ∙ ap (λ xs. s.wire ++ xs) moved,
        omega (arith, left, length-drop (sent + n) s.conn.send_buf, sent_le, fits),
        record {
          small = ready.small;
          sent_below = inl (ground (arith, part, left, sent_le, fits));
        },
      )
    ]

-- A `write` that fails is taken for one that sent 2^64 - 1 bytes. With nothing sent yet of the
-- buffer the program aborts; else the byte sent last is sent again. No flag is set, whatever `errno`
-- says.
pub reactor_epoll_flush_failed :
    (e : ℕ) (answers : List (Answer ℕ)) (errno : ℕ) (s : Sending)
    → length s.conn.send_buf ≤ message_max_length
    → s.conn.send_buf_sent < length s.conn.send_buf
    → reactor_epoll_flush (failed e ∷ answers) errno s ≡ (
        if s.conn.send_buf_sent == 0
        then aborts
        else returns (
          answers,
          e,
          record s { conn = record s.conn { send_buf_sent = s.conn.send_buf_sent - 1 } },
        ))
unfolding reactor_epoll_flush flushed
reactor_epoll_flush_failed e answers errno s small some_left =
    let sent = s.conn.send_buf_sent in
    let size = length s.conn.send_buf in
    elim (Bool-cases (sent == 0)) [
      | inl first ↦
          let wraps : ltb size (add_size sent size_max) ≡ true = ground (arith, first) in
          rw (wraps, first)
      | inr later ↦
          let back : add_size sent size_max ≡ sent - 1 = ground (arith, later) in
          let inside : ltb size (sent - 1) ≡ false = ltb-false size (sent - 1) (omega arith) in
          let part : (sent - 1 == size) ≡ false = ground arith in rw (back, inside, part, later)
    ]

abbrev pub total : List ℕ → ℕ
total [] = 0
total (n ∷ ns) = n + total ns

-- Where every `write` takes some bytes, and together all that are left, the loop of
-- `reactor_flush_pending_writes` ends, after one `write` for each, with the whole buffer on the
-- socket in order, and the buffer empty.
pub flush_pending-done :
    (ns : List ℕ) (errno : ℕ) (s : Sending)
    → IsReady s
    → All (λ n. 0 < n) ns
    → total ns ≡ length (pending s)
    → (s' : Sending) × (flush_pending (length ns + 1) (map done ns) errno s
        ≡ returns ([], errno, s'))
      × (s'.wire ≡ s.wire ++ pending s)
      × (s'.conn.send_buf ≡ [])
unfolding flush_pending
flush_pending-done [] errno s ready some_bytes all = elim ready.sent_below [
  | inl h ↦ absurd (omega (arith, all, length-drop s.conn.send_buf_sent s.conn.send_buf, h))
  | inr h ↦
      let none_left : pending s ≡ [] =
        drop-all s.conn.send_buf_sent s.conn.send_buf (omega (arith, ap length h.0)) in
      (s, rw h.0, rw (none_left, append-nil), h.0)
]
flush_pending-done (n ∷ ns) errno s ready some_bytes all =
    let (s₁, flushes, same, left, ready₁) =
      reactor_epoll_flush-done n (map done ns) errno s ready (omega arith) in
    let (s', ends, wire, empty) =
      flush_pending-done ns errno s₁ ready₁ some_bytes.1 (omega (arith, left)) in
    let count : suc (length ns) + 1 ≡ suc (length ns + 1) = omega arith in
    let some_left : ltb 0 (length s.conn.send_buf) ≡ true =
      ltb-true 0 (length s.conn.send_buf)
        (omega (arith, all, some_bytes.0, length-drop s.conn.send_buf_sent s.conn.send_buf)) in
    (s', rw (count, some_left, flushes) ends, wire ∙ same, empty)
