-- ===== src/Spscq/Ring.antt =====
-- The objects that stand in the ring between `head` and `tail`.
use ghetto_redis.Prelude.{
  ℕ, ◌+◌, ◌-◌, ◌<◌, ◌≡◌, refl, ltb, ◌==◌, if◌then◌else◌, List, [], ◌∷◌, ◌++◌, false, length, arith,
}
use ghetto_redis.Spscq.{Spscq, next_position, store}

-- The position behind the last of `xs`, the first being at `i`.
abbrev pub ring_end : (size i : ℕ) → List ℕ → ℕ
ring_end size i [] = i
ring_end size i (x ∷ xs) = ring_end size (next_position size i) xs

-- The cells from `i` on hold `xs`.
abbrev pub RingHolds : (ℕ → ℕ) → (size i : ℕ) → List ℕ → Type 0
RingHolds buffer size i [] = Unit
RingHolds buffer size i (x ∷ xs) = (buffer i ≡ x) × RingHolds buffer size (next_position size i) xs

pub record Ring (q : Spscq) (xs : List ℕ) : Type 0 where
  pub head_inside : q.head < q.size
  pub room : length xs < q.size
  pub tail_is : q.tail ≡ ring_end q.size q.head xs
  pub items : RingHolds q.buffer q.size q.head xs

module _ (size : ℕ) where
  pub next_position_inside : (i : ℕ) → i < size → next_position size i < size
  next_position_inside i h = ground arith

  pub ring_end_value :
      (i : ℕ) (xs : List ℕ)
      → i < size
      → length xs < size
      → ring_end size i xs
        ≡ (if ltb (i + length xs) size then i + length xs else i + length xs - size)
  ring_end_value i [] inside room = ground arith
  ring_end_value i (x ∷ xs) inside room = ground (
    arith,
    ring_end_value (next_position size i) xs (next_position_inside i inside) (omega arith),
  )

  pub ring_end-concat :
      (i : ℕ) (xs : List ℕ) (x : ℕ)
      → ring_end size i (xs ++ x ∷ []) ≡ next_position size (ring_end size i xs)
  ring_end-concat i [] x = refl
  ring_end-concat i (y ∷ xs) x = ring_end-concat (next_position size i) xs x

  -- A store at the end leaves the cells before it.
  pub RingHolds-store :
      (buffer : ℕ → ℕ) (i obj : ℕ) (xs : List ℕ)
      → i < size
      → length xs < size
      → RingHolds buffer size i xs
      → RingHolds (store buffer (ring_end size i xs) obj) size i xs
  RingHolds-store buffer i obj [] inside room items = tt
  RingHolds-store buffer i obj (x ∷ xs) inside room items =
      let e = ring_end_value i (x ∷ xs) inside room in
      let ne : (i == ring_end size i (x ∷ xs)) ≡ false = ground (arith, e) in
      (
        rw ne (items.0),
        RingHolds-store buffer (next_position size i) obj xs (next_position_inside i inside)
            (omega arith) items.1,
      )

  pub RingHolds-concat :
      (buffer : ℕ → ℕ) (i x : ℕ) (xs : List ℕ)
      → RingHolds buffer size i xs
      → buffer (ring_end size i xs) ≡ x
      → RingHolds buffer size i (xs ++ x ∷ [])
  RingHolds-concat buffer i x [] items at = (at, tt)
  RingHolds-concat buffer i x (y ∷ xs) items at =
      (items.0, RingHolds-concat buffer (next_position size i) x xs items.1 at)

  -- With room for one more, the position behind `tail` is not `head`.
  pub ring_full_iff :
      (i : ℕ) (xs : List ℕ)
      → i < size
      → length xs < size
      → (next_position size (ring_end size i xs) == i) ≡ (length xs + 1 == size)
  ring_full_iff i xs inside room = ground (arith, ring_end_value i xs inside room)

  pub ring_empty_iff :
      (i : ℕ) (xs : List ℕ)
      → i < size
      → length xs < size
      → (i == ring_end size i xs) ≡ (length xs == 0)
  ring_empty_iff i xs inside room = ground (arith, ring_end_value i xs inside room)
