-- ===== src/Mpmcq/Threads/Quiet.antt =====
-- What the queue holds where no call is under way.
use ghetto_redis.Prelude.{
  ℕ, zero, suc, ◌+◌, ◌-◌, ◌%◌, ◌^◌, ◌≤◌, ◌<◌, ◌≡◌, refl, ◌∙◌, List, [], ◌∷◌, true, none, some,
  length, get_elem?, drop, inl, inr, arith,
}
use ghetto_redis.Mpmcq.{Mpmcq}
use ghetto_redis.Mpmcq.Contents.{Contents, Filled}
use ghetto_redis.Mpmcq.Threads.{Phase, State, Event, run, created}
use ghetto_redis.Mpmcq.Threads.Inv.{claim_in, claim_out, returned_at, Cells, ThreadsKnow, Inv}
use ghetto_redis.Mpmcq.Threads.Fifo.{created-Inv}

length-drop : (n : ℕ) (xs : List ℕ) → length (drop n xs) ≡ length xs - n
length-drop zero xs = omega arith
length-drop (suc n) [] = omega arith
length-drop (suc n) (x ∷ xs) = omega (arith, length-drop n xs)

get_elem?-drop : (n i : ℕ) (xs : List ℕ) → get_elem? (drop n xs) i ≡ get_elem? xs (n + i)
get_elem?-drop zero i xs = let same : 0 + i ≡ i = omega arith in rw same refl
get_elem?-drop (suc n) i [] = refl
get_elem?-drop (suc n) i (x ∷ xs) =
    let next : suc n + i ≡ suc (n + i) = omega arith in rw next (get_elem?-drop n i xs)

Filled-of :
    (seq items : ℕ → ℕ) (p : ℕ) (xs : List ℕ)
    → ((i : ℕ)
        → i < length xs
        → (seq ((p + i) % 8192) ≡ p + i + 1) × (get_elem? xs i ≡ some (items ((p + i) % 8192))))
    → Filled seq items p xs
Filled-of seq items p [] h = tt
Filled-of seq items p (x ∷ xs) h =
    let first = h 0 (omega arith) in
    let here : p + 0 ≡ p = omega arith in
    let marked : seq (p % 8192) ≡ p + 1 = rw here at first.0 in
    let item : some x ≡ some (items (p % 8192)) = rw here at first.1 in
    (
      marked,
      ground (arith, item),
      Filled-of seq items (p + 1) xs (λ i below.
          let next : p + suc i ≡ p + 1 + i = omega arith in
          let later = h (suc i) (omega arith) in rw next at later),
    )

-- For every schedule as in Mpmcq.Threads.Fifo after which no call is under way: an object was
-- returned from each position that was claimed for taking out, so that none is lost, and the queue
-- holds just the objects sent behind them, in order, as one thread alone would find and leave it.
pub run-Contents :
    (es : List Event)
    → length es < 2 ^ 62
    → ((i : ℕ) → (run es created).phase i ≡ Phase.idle)
    → let m = (run es created).shared in
      Contents m.queue (drop m.queue.dequeue_pos m.sent)
      × ((p : ℕ) → p < m.queue.dequeue_pos → returned_at m.received p ≡ true)
run-Contents es short quiet = (
  record {
    mask_is = c.mask_is;
    low = omega (arith, c.low);
    room = omega (arith, left, c.bounded, c.counted);
    end_is = omega (arith, left, c.order, c.counted);
    filled =
        Filled-of q.seq q.items q.dequeue_pos _
          (λ i below. holds i (omega (arith, left, c.counted, below)));
    free = λ p after below. elim (t.released p after below) [
      | inl s ↦ s
      | inr (i, k, held, _) ↦ absurd (no_out i k held)
    ];
  },
  λ p below. elim (t.covered p below) [ inl r ↦ r | inr (i, held) ↦ absurd (no_out i p held) ],
)
  where
    s : State
    s = run es created

    q : Mpmcq
    q = s.shared.queue

    inv : Inv 0 s
    inv = created-Inv es (omega (arith, short))

    c : Cells 0 s.shared
    c = inv.cells

    t : ThreadsKnow s.shared s.phase
    t = inv.threads

    left : length (drop q.dequeue_pos s.shared.sent) ≡ length s.shared.sent - q.dequeue_pos
    left = length-drop q.dequeue_pos s.shared.sent

    no_out : (i k : ℕ) → claim_out (s.phase i) ≡ some k → ⊥
    no_out i k held = let none_held : claim_out (s.phase i) ≡ none = rw (quiet i) refl in cc

    no_in : (i k : ℕ) → claim_in (s.phase i) ≡ some k → ⊥
    no_in i k held = let none_held : claim_in (s.phase i) ≡ none = rw (quiet i) refl in cc

    marked : (p : ℕ) → q.dequeue_pos ≤ p → p < q.enqueue_pos → q.seq (p % 8192) ≡ p + 1
    marked p after below = elim (t.published p after below) [
      | inl h ↦ h
      | inr (i, held) ↦ absurd (no_in i p held)
    ]

    holds :
        (i : ℕ)
        → q.dequeue_pos + i < q.enqueue_pos
        → (q.seq ((q.dequeue_pos + i) % 8192) ≡ q.dequeue_pos + i + 1)
          × (get_elem? (drop q.dequeue_pos s.shared.sent) i
              ≡ some (q.items ((q.dequeue_pos + i) % 8192)))
    holds i below =
        let h = marked (q.dequeue_pos + i) (omega arith) below in
        (h, get_elem?-drop q.dequeue_pos i s.shared.sent ∙ (c.filled (q.dequeue_pos + i) h).1)
