-- ===== src/Spscq/Calls.antt =====
-- Calls of the queue that no other access interrupts: they return, with the right result.
use ghetto_redis.Prelude.{
  ℕ, ◌+◌, ◌<◌, ◌≡◌, refl, sym, ap, ◌∙◌, ◌==◌, if◌then◌else◌, List, [], ◌∷◌, ◌++◌, Bool, true, false,
  length, take, arith,
}
use mathlib.Core.List.{append-nil}
use ghetto_redis.Spscq.{
  next_position, Producer, Consumer, State, enqueue_access, dequeue_access, Event, call_enqueue,
  enqueue_step, call_dequeue, dequeue_step, step, run, created,
}
use ghetto_redis.Spscq.Ring.{RingHolds, ring_full_iff, ring_empty_iff}
use ghetto_redis.Spscq.Fifo.{created-InvOf}

-- A call of `spscq_enqueue` by the producer alone, and one of `spscq_dequeue` by the consumer alone.
abbrev pub enqueue_call : (obj : ℕ) → List Event
enqueue_call obj = call_enqueue obj ∷ enqueue_step ∷ enqueue_step ∷ enqueue_step ∷ enqueue_step ∷ []

abbrev pub dequeue_call : List Event
dequeue_call = call_dequeue ∷ dequeue_step ∷ dequeue_step ∷ dequeue_step ∷ dequeue_step ∷ []

enqueue_call-full :
    (s : State) (obj : ℕ) (full : Bool)
    → s.producer ≡ Producer.returned
    → (next_position s.queue.size s.queue.tail == s.queue.head) ≡ full
    → ((run (enqueue_call obj) s).producer ≡ Producer.returned)
      × ((run (enqueue_call obj) s).sent ≡ (if full then s.sent else s.sent ++ obj ∷ []))
unfolding run step enqueue_access
enqueue_call-full s obj true idle e = rw (idle, e) (refl, refl)
enqueue_call-full s obj false idle e = rw (idle, e) (refl, refl)

dequeue_call-empty :
    (s : State) (empty : Bool)
    → s.consumer ≡ Consumer.returned
    → (s.queue.head == s.queue.tail) ≡ empty
    → ((run dequeue_call s).consumer ≡ Consumer.returned)
      × ((run dequeue_call s).received
          ≡ (if empty then s.received else s.received ++ s.queue.buffer s.queue.head ∷ []))
unfolding run step dequeue_access
dequeue_call-empty s true idle e = rw (idle, e) (refl, refl)
dequeue_call-empty s false idle e = rw (idle, e) (refl, refl)

-- After any schedule on a new queue that has left the producer outside of a call, a call of
-- `spscq_enqueue` returns after four accesses; it sends the object, unless all cells but one are
-- taken by what was sent and not received.
pub run-enqueue_call :
    (size : ℕ) (es : List Event) (obj : ℕ)
    → 0 < size
    → (run es (created size)).producer ≡ Producer.returned
    → let s = run es (created size) in
      (rest : List ℕ) × (s.sent ≡ s.received ++ rest)
      × ((run (enqueue_call obj) s).producer ≡ Producer.returned)
      × ((run (enqueue_call obj) s).sent
          ≡ (if length rest + 1 == s.queue.size then s.sent else s.sent ++ obj ∷ []))
run-enqueue_call size es obj positive idle =
    let s = run es (created size) in
    let (xs, inv) = created-InvOf size es positive in
    let full = ring_full_iff s.queue.size s.queue.head xs inv.ring.head_inside inv.ring.room in
    let (returns, sends) =
      enqueue_call-full s obj (length xs + 1 == s.queue.size) idle (rw inv.ring.tail_is full) in
    (xs, inv.history, returns, sends)

-- After any schedule on a new queue that has left the consumer outside of a call, a call of
-- `spscq_dequeue` returns after four accesses; it receives the first object that was sent and not
-- received, if there is one.
run-dequeue_call :
    (size : ℕ) (es : List Event)
    → 0 < size
    → (run es (created size)).consumer ≡ Consumer.returned
    → let s = run es (created size) in
      (rest : List ℕ) × (s.sent ≡ s.received ++ rest)
      × ((run dequeue_call s).consumer ≡ Consumer.returned)
      × ((run dequeue_call s).received ≡ s.received ++ take 1 rest)
run-dequeue_call size es positive idle =
    let s = run es (created size) in
    let (xs, inv) = created-InvOf size es positive in
    let empty = ring_empty_iff s.queue.size s.queue.head xs inv.ring.head_inside inv.ring.room in
    let (returns, receives) =
      dequeue_call-empty s (length xs == 0) idle (rw inv.ring.tail_is empty) in
    (xs, inv.history, returns, receives ∙ first s xs inv.ring.items)
  where
    first :
        (s : State) (xs : List ℕ)
        → RingHolds s.queue.buffer s.queue.size s.queue.head xs
        → (if length xs == 0 then s.received else s.received ++ s.queue.buffer s.queue.head ∷ [])
          ≡ s.received ++ take 1 xs
    first s [] items = sym (append-nil s.received)
    first s (x ∷ xs) items =
        let ne : (length (x ∷ xs) == 0) ≡ false = ground arith in
        rw ne (ap (λ y. s.received ++ y ∷ []) items.0)
