-- ===== src/Mpmcq/Threads/Memory.antt =====
-- What each access does to the cells.
use ghetto_redis.Prelude.{
  ℕ, suc, ◌+◌, ◌%◌, ◌≤◌, ◌<◌, ◌≡◌, refl, ◌==◌, List, [], ◌∷◌, ◌++◌, false, some, All, All-append,
  length-append, get_elem?, Bool-cases, inl, inr, arith,
}
use ghetto_redis.Mpmcq.Threads.{Shared}
use ghetto_redis.Mpmcq.Threads.Inv.{returned_at, Once, Filling, Emptying, Cells}
use ghetto_redis.Mpmcq.Threads.Stable.{
  get_elem?-append, returned_at-concat, claimed_in, with_item, with_seq, claimed_out,
}

pub All-weaken {ℓ κ ν} :
    {A : Type ℓ} (P : A → Type κ) (Q : A → Type ν) (xs : List A)
    → ((x : A) → P x → Q x)
    → All P xs
    → All Q xs
All-weaken P Q [] f all = tt
All-weaken P Q (x ∷ xs) f all = (f x all.0, All-weaken P Q xs f all.1)

Once-concat :
    (rs : List (ℕ × ℕ)) (pos obj : ℕ)
    → Once rs
    → returned_at rs pos ≡ false
    → Once (rs ++ (pos, obj) ∷ [])
Once-concat [] pos obj once new = (refl, tt)
Once-concat ((q, x) ∷ rs) pos obj once new = (
  ground (arith, returned_at-concat rs pos obj q, once.0, new),
  Once-concat rs pos obj once.1 (ground (arith, new)),
)

-- Nothing was returned from a position that is not claimed.
pub returned_at-later :
    (d p : ℕ) (sent : List ℕ) (rs : List (ℕ × ℕ))
    → All (λ (r : ℕ × ℕ). (r.0 < d) × (get_elem? sent r.0 ≡ some r.1)) rs
    → d ≤ p
    → returned_at rs p ≡ false
returned_at-later d p sent [] all after = refl
returned_at-later d p sent ((q, x) ∷ rs) (at, rest) after =
    ground (arith, at.0, returned_at-later d p sent rs rest after)

module _ (n : ℕ) (m : Shared) (c : Cells (suc n) m) where
  abbrev seq : ℕ → ℕ
  seq = m.queue.seq

  pub Cells-same : Cells n m
  Cells-same = record {
    mask_is = c.mask_is;
    low = omega (arith, c.low);
    small = c.small;
    order = c.order;
    bounded = c.bounded;
    counted = c.counted;
    filled = c.filled;
    free = c.free;
    returned_sent = c.returned_sent;
    once = c.once;
  }

  pub Cells-claimed_in :
      (obj : ℕ)
      → seq (m.queue.enqueue_pos % 8192) ≡ m.queue.enqueue_pos
      → Cells n (claimed_in m obj)
  Cells-claimed_in obj at = record {
    mask_is = c.mask_is;
    low = omega (arith, c.low);
    small = c.small;
    order = omega (arith, c.order);
    bounded = omega (arith, c.free m.queue.enqueue_pos at);
    counted = omega (arith, length-append {0} m.sent (obj ∷ []), c.counted);
    filled = λ p h.
        let (below, item) = c.filled p h in
        (omega (arith, below), get_elem?-append m.sent (obj ∷ []) p item);
    free = c.free;
    returned_sent =
        All-weaken _ _ m.received
          (λ r (below, item). (below, get_elem?-append m.sent (obj ∷ []) r.0 item)) c.returned_sent;
    once = c.once;
  }

  pub Cells-with_item : (obj pos : ℕ) → seq (pos % 8192) ≡ pos → Cells n (with_item m obj pos)
  Cells-with_item obj pos at = record {
    mask_is = c.mask_is;
    low = omega (arith, c.low);
    small = c.small;
    order = c.order;
    bounded = c.bounded;
    counted = c.counted;
    filled = λ p h.
        let other : (p % 8192 == pos % 8192) ≡ false = ground (arith, at, h) in
        rw other (c.filled p h);
    free = c.free;
    returned_sent = c.returned_sent;
    once = c.once;
  }

  pub Cells-published :
      (obj pos : ℕ)
      → Filling m obj pos
      → m.queue.items (pos % 8192) ≡ obj
      → Cells n (with_seq m pos (pos + 1) m.received)
  Cells-published obj pos (after, below, at, item) stored = record {
    mask_is = c.mask_is;
    low = omega (arith, c.low);
    small = λ p. ground (arith, c.small p, below, c.low);
    order = c.order;
    bounded = c.bounded;
    counted = c.counted;
    filled = λ p h. elim (Bool-cases (p % 8192 == pos % 8192)) [
      | inl same ↦ let here : p ≡ pos = ground (arith, h, same) in rw (here, stored) (below, item)
      | inr other ↦ c.filled p (rw other at h)
    ];
    free = λ p h. elim (Bool-cases (p % 8192 == pos % 8192)) [
      | inl same ↦ ground (arith, h, same)
      | inr other ↦ c.free p (rw other at h)
    ];
    returned_sent = c.returned_sent;
    once = c.once;
  }

  pub Cells-claimed_out :
      seq (m.queue.dequeue_pos % 8192) ≡ m.queue.dequeue_pos + 1 → Cells n (claimed_out m)
  Cells-claimed_out at = record {
    mask_is = c.mask_is;
    low = omega (arith, c.low);
    small = c.small;
    order = omega (arith, (c.filled m.queue.dequeue_pos at).0);
    bounded = omega (arith, c.bounded);
    counted = c.counted;
    filled = c.filled;
    free = λ p h. omega (arith, c.free p h);
    returned_sent =
        All-weaken _ _ m.received (λ r (below, item). (omega (arith, below), item)) c.returned_sent;
    once = c.once;
  }

  pub Cells-released :
      (obj pos : ℕ)
      → Emptying m pos
      → get_elem? m.sent pos ≡ some obj
      → Cells n (with_seq m pos (pos + 8192) (m.received ++ (pos, obj) ∷ []))
  Cells-released obj pos (below, near, at, new) item = record {
    mask_is = c.mask_is;
    low = omega (arith, c.low);
    small = λ p. ground (arith, c.small p, below, c.order, c.low);
    order = c.order;
    bounded = c.bounded;
    counted = c.counted;
    filled = λ p h. elim (Bool-cases (p % 8192 == pos % 8192)) [
      | inl same ↦ absurd (ground (arith, h, same))
      | inr other ↦ c.filled p (rw other at h)
    ];
    free = λ p h. elim (Bool-cases (p % 8192 == pos % 8192)) [
      | inl same ↦ ground (arith, h, same, below)
      | inr other ↦ c.free p (rw other at h)
    ];
    returned_sent = All-append _ m.received ((pos, obj) ∷ []) c.returned_sent ((below, item), tt);
    once = Once-concat m.received pos obj c.once new;
  }
