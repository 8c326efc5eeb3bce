-- ===== src/Mpmcq/Threads/Inv.antt =====
-- What holds between the accesses of the threads.
use ghetto_redis.Prelude.{
  ℕ, ◌+◌, ◌%◌, ◌^◌, ◌≤◌, ◌<◌, ◌≡◌, ◌⊎◌, ◌==◌, if◌then◌else◌, List, [], ◌∷◌, Bool, true, false,
  Option, none, some, All, length, get_elem?,
}
use ghetto_redis.Mpmcq.Threads.{Phase, Shared, State}

-- The position that a thread has claimed in `enqueue_pos` and not yet published.
abbrev pub claim_in : Phase → Option ℕ
claim_in (Phase.store_item obj pos) = some pos
claim_in (Phase.store_filled_seq obj pos) = some pos
claim_in Phase.idle = none
claim_in (Phase.load_enqueue_pos obj) = none
claim_in (Phase.load_free_seq obj pos) = none
claim_in (Phase.claim_enqueue obj pos) = none
claim_in Phase.load_dequeue_pos = none
claim_in (Phase.load_filled_seq pos) = none
claim_in (Phase.claim_dequeue pos) = none
claim_in (Phase.load_item pos) = none
claim_in (Phase.store_free_seq obj pos) = none

-- The position that a thread has claimed in `dequeue_pos` and not yet released.
abbrev pub claim_out : Phase → Option ℕ
claim_out (Phase.load_item pos) = some pos
claim_out (Phase.store_free_seq obj pos) = some pos
claim_out Phase.idle = none
claim_out (Phase.load_enqueue_pos obj) = none
claim_out (Phase.load_free_seq obj pos) = none
claim_out (Phase.claim_enqueue obj pos) = none
claim_out (Phase.store_item obj pos) = none
claim_out (Phase.store_filled_seq obj pos) = none
claim_out Phase.load_dequeue_pos = none
claim_out (Phase.load_filled_seq pos) = none
claim_out (Phase.claim_dequeue pos) = none

-- Whether an object was returned from position `p`.
abbrev pub returned_at : List (ℕ × ℕ) → ℕ → Bool
returned_at [] p = false
returned_at ((pos, _) ∷ rs) p = if pos == p then true else returned_at rs p

-- No position is there twice.
abbrev pub Once : List (ℕ × ℕ) → Type 0
Once [] = Unit
Once ((pos, _) ∷ rs) = (returned_at rs pos ≡ false) × Once rs

-- The cell of a position that was claimed to be filled, or to be emptied.
abbrev pub Filling : Shared → (obj pos : ℕ) → Type 0
Filling m obj pos =
    (m.queue.dequeue_pos ≤ pos)
    × (pos < m.queue.enqueue_pos)
    × (m.queue.seq (pos % 8192) ≡ pos)
    × (get_elem? m.sent pos ≡ some obj)

abbrev pub Emptying : Shared → (pos : ℕ) → Type 0
Emptying m pos =
    (pos < m.queue.dequeue_pos)
    × (m.queue.enqueue_pos ≤ pos + 8192)
    × (m.queue.seq (pos % 8192) ≡ pos + 1)
    × (returned_at m.received pos ≡ false)

-- What a thread's local variables say.
abbrev pub Knows : Shared → Phase → Type 0
Knows m Phase.idle = Unit
Knows m (Phase.load_enqueue_pos obj) = Unit
Knows m (Phase.load_free_seq obj pos) = pos ≤ m.queue.enqueue_pos
Knows m (Phase.claim_enqueue obj pos) =
    (pos ≤ m.queue.enqueue_pos) × (pos ≡ m.queue.enqueue_pos → m.queue.seq (pos % 8192) ≡ pos)
Knows m (Phase.store_item obj pos) = Filling m obj pos
Knows m (Phase.store_filled_seq obj pos) = Filling m obj pos × (m.queue.items (pos % 8192) ≡ obj)
Knows m Phase.load_dequeue_pos = Unit
Knows m (Phase.load_filled_seq pos) = pos ≤ m.queue.dequeue_pos
Knows m (Phase.claim_dequeue pos) =
    (pos ≤ m.queue.dequeue_pos) × (pos ≡ m.queue.dequeue_pos → m.queue.seq (pos % 8192) ≡ pos + 1)
Knows m (Phase.load_item pos) = Emptying m pos
Knows m (Phase.store_free_seq obj pos) = Emptying m pos × (get_elem? m.sent pos ≡ some obj)

-- What holds of the memory, with `n` more steps to come.
pub record Cells (n : ℕ) (m : Shared) : Type 0 where
  pub mask_is : m.queue.buffer_mask ≡ 8191
  pub low : m.queue.enqueue_pos + n + 16384 < 2 ^ 63
  pub small : (p : ℕ) → m.queue.seq (p % 8192) < 2 ^ 63
  pub order : m.queue.dequeue_pos ≤ m.queue.enqueue_pos
  pub bounded : m.queue.enqueue_pos ≤ m.queue.dequeue_pos + 8192
  pub counted : length m.sent ≡ m.queue.enqueue_pos
  pub filled :
      (p : ℕ)
      → m.queue.seq (p % 8192) ≡ p + 1
      → (p < m.queue.enqueue_pos) × (get_elem? m.sent p ≡ some (m.queue.items (p % 8192)))
  pub free : (p : ℕ) → m.queue.seq (p % 8192) ≡ p → p < m.queue.dequeue_pos + 8192
  pub returned_sent :
      All
        (λ (r : ℕ × ℕ). (r.0 < m.queue.dequeue_pos) × (get_elem? m.sent r.0 ≡ some r.1))
        m.received
  pub once : Once m.received

-- What holds of the threads.
pub record ThreadsKnow (m : Shared) (phase : ℕ → Phase) : Type 0 where
  pub knows : (i : ℕ) → Knows m (phase i)
  pub unique_in : (i j p : ℕ) → claim_in (phase i) ≡ some p → claim_in (phase j) ≡ some p → i ≡ j
  pub unique_out : (i j p : ℕ) → claim_out (phase i) ≡ some p → claim_out (phase j) ≡ some p → i ≡ j
  pub published :
      (p : ℕ)
      → m.queue.dequeue_pos ≤ p
      → p < m.queue.enqueue_pos
      → (m.queue.seq (p % 8192) ≡ p + 1) ⊎ ((i : ℕ) × (claim_in (phase i) ≡ some p))
  pub released :
      (p : ℕ)
      → m.queue.enqueue_pos ≤ p
      → p < m.queue.dequeue_pos + 8192
      → (m.queue.seq (p % 8192) ≡ p)
        ⊎ ((i : ℕ) × (k : ℕ) × (claim_out (phase i) ≡ some k) × (p ≡ k + 8192))
  pub covered :
      (p : ℕ)
      → p < m.queue.dequeue_pos
      → (returned_at m.received p ≡ true) ⊎ ((i : ℕ) × (claim_out (phase i) ≡ some p))

pub record Inv (n : ℕ) (s : State) : Type 0 where
  pub cells : Cells n s.shared
  pub threads : ThreadsKnow s.shared s.phase
