-- ===== src/Mpmcq/Contents.antt =====
-- The messages in a queue of 8192 cells.
use Prim.Native.Nat.{bit_and}
use ghetto_redis.Prelude.{
  ℕ, suc, ◌+◌, ◌-◌, ◌%◌, ◌^◌, ◌≤◌, ◌<◌, ◌≡◌, refl, sym, ◌==◌, ==_self, if◌then◌else◌, List, [], ◌∷◌,
  ◌++◌, Bool, true, false, none, some, length, length-append, get_elem?, arith,
}
use mathlib.Core.Path.{subst}
use ghetto_redis.Prelude.Words.{add_size, sub_size}
use ghetto_redis.Mpmcq.{
  Mpmcq, mpmcq_init, store_cell, enqueue_loop, mpmcq_enqueue, dequeue_loop, mpmcq_dequeue,
}
use ghetto_redis.Mpmcq.Mask.{bit_and-mask}

-- The cells from position `p` on hold `xs` and are marked as filled.
abbrev pub Filled : (seq items : ℕ → ℕ) → ℕ → List ℕ → Type 0
Filled seq items p [] = Unit
Filled seq items p (x ∷ xs) =
    (seq (p % 8192) ≡ p + 1) × (items (p % 8192) ≡ x) × Filled seq items (p + 1) xs

-- `xs` is in the queue, and the other cells are marked as free for their next positions. The
-- positions are far from the end of the 64-bit numbers.
pub record Contents (q : Mpmcq) (xs : List ℕ) : Type 0 where
  pub mask_is : q.buffer_mask ≡ 8191
  pub low : q.enqueue_pos + 8192 < 2 ^ 63
  pub room : length xs ≤ 8192
  pub end_is : q.enqueue_pos ≡ q.dequeue_pos + length xs
  pub filled : Filled q.seq q.items q.dequeue_pos xs
  pub free : (p : ℕ) → q.enqueue_pos ≤ p → p < q.dequeue_pos + 8192 → q.seq (p % 8192) ≡ p

Filled-store :
    (seq items : ℕ → ℕ) (p e s x : ℕ) (xs : List ℕ)
    → p + length xs ≤ e
    → e < p + 8192
    → Filled seq items p xs
    → Filled (store_cell seq (e % 8192) s) (store_cell items (e % 8192) x) p xs
Filled-store seq items p e s x [] before room filled = tt
Filled-store seq items p e s x (y ∷ xs) before room filled =
    let ne : (p % 8192 == e % 8192) ≡ false = ground arith in
    (
      rw ne filled.0,
      rw ne filled.1,
      Filled-store seq items (p + 1) e s x xs (omega arith) (omega arith) filled.2,
    )

Filled-concat :
    (seq items : ℕ → ℕ) (p e x : ℕ) (xs : List ℕ)
    → p + length xs ≡ e
    → Filled seq items p xs
    → seq (e % 8192) ≡ e + 1
    → items (e % 8192) ≡ x
    → Filled seq items p (xs ++ x ∷ [])
Filled-concat seq items p e x [] at filled marked item =
    let here : p ≡ e = omega arith in (rw here marked, rw here item, tt)
Filled-concat seq items p e x (y ∷ xs) at filled marked item =
    (filled.0, filled.1, Filled-concat seq items (p + 1) e x xs (omega arith) filled.2 marked item)

-- `mpmcq_enqueue` on a queue of 8192 cells with fewer messages, alone and with one round of fuel,
-- returns true and puts the message behind them.
pub mpmcq_enqueue-Contents :
    (fuel obj : ℕ) (q : Mpmcq) (xs : List ℕ)
    → Contents q xs
    → length xs < 8192
    → q.enqueue_pos + 8193 < 2 ^ 63
    → (q' : Mpmcq) × (mpmcq_enqueue (suc fuel) q obj ≡ some (true, q'))
      × Contents q' (xs ++ obj ∷ [])
unfolding mpmcq_enqueue enqueue_loop
mpmcq_enqueue-Contents fuel obj q xs c some_room low =
    let e = q.enqueue_pos in
    let cell : bit_and e q.buffer_mask ≡ e % 8192 = rw c.mask_is (bit_and-mask e) in
    let fresh : q.seq (e % 8192) ≡ e = c.free e (omega arith) (omega (arith, c.end_is)) in
    let none_left : sub_size e e ≡ 0 = omega arith in
    let next : add_size e 1 ≡ e + 1 = omega arith in
    let longer = length-append {0} xs (obj ∷ []) in
    let seq = store_cell q.seq (e % 8192) (e + 1) in
    let items = store_cell q.items (e % 8192) obj in
    let q' : Mpmcq = record q { enqueue_pos = e + 1; items = items; seq = seq } in
    (
      q',
      rw (cell, fresh, none_left, ==_self e, next),
      record {
        mask_is = c.mask_is;
        low = omega arith;
        room = omega (arith, longer);
        end_is = omega (arith, longer, c.end_is);
        filled =
            Filled-concat seq items q.dequeue_pos e obj xs (sym c.end_is)
              (Filled-store q.seq q.items q.dequeue_pos e (e + 1) obj xs (omega (arith, c.end_is))
                (omega (arith, c.end_is)) c.filled)
              (rw (==_self (e % 8192))) (rw (==_self (e % 8192)));
        free = λ p after before.
            let ne : (p % 8192 == e % 8192) ≡ false = ground (arith, c.end_is) in
            rw ne (c.free p (omega arith) before);
      },
    )

Filled-release :
    (seq items : ℕ → ℕ) (p e s : ℕ) (xs : List ℕ)
    → p + length xs ≤ e
    → e < p + 8192
    → Filled seq items p xs
    → Filled (store_cell seq (e % 8192) s) items p xs
Filled-release seq items p e s [] before room filled = tt
Filled-release seq items p e s (y ∷ xs) before room filled =
    let ne : (p % 8192 == e % 8192) ≡ false = ground arith in
    (
      rw ne filled.0,
      filled.1,
      Filled-release seq items (p + 1) e s xs (omega arith) (omega arith) filled.2,
    )

-- The first message is returned and taken out.
mpmcq_dequeue_first :
    (fuel x : ℕ) (q : Mpmcq) (xs : List ℕ)
    → Contents q (x ∷ xs)
    → (q' : Mpmcq) × (mpmcq_dequeue (suc fuel) q ≡ some (some x, q')) × Contents q' xs
unfolding mpmcq_dequeue dequeue_loop
mpmcq_dequeue_first fuel x q xs c =
    let d = q.dequeue_pos in
    let cell : bit_and d q.buffer_mask ≡ d % 8192 = rw c.mask_is (bit_and-mask d) in
    let next : add_size d 1 ≡ d + 1 = omega (arith, c.end_is, c.low) in
    let none_left : sub_size (d + 1) (d + 1) ≡ 0 = omega arith in
    let again : add_size (add_size d q.buffer_mask) 1 ≡ d + 8192 =
      omega (arith, c.end_is, c.low, c.mask_is) in
    let same : (d + 8192) % 8192 ≡ d % 8192 = omega arith in
    let seq = store_cell q.seq (d % 8192) (d + 8192) in
    let q' : Mpmcq = record q { dequeue_pos = d + 1; seq = seq } in
    (
      q',
      rw (cell, c.filled.0, c.filled.1, next, none_left, ==_self d, again),
      record {
        mask_is = c.mask_is;
        low = c.low;
        room = omega (arith, c.room);
        end_is = omega (arith, c.end_is);
        filled =
            subst (λ k. Filled (store_cell q.seq k (d + 8192)) q.items (d + 1) xs) same
              (Filled-release q.seq q.items (d + 1) (d + 8192) (d + 8192) xs (omega (arith, c.room))
                (omega arith) c.filled.2);
        free = λ p after before. free_after p after before (p % 8192 == d % 8192) refl;
      },
    )
  where
    free_after :
        (p : ℕ)
        → q.enqueue_pos ≤ p
        → p < q.dequeue_pos + 1 + 8192
        → (here : Bool) → (p % 8192 == q.dequeue_pos % 8192) ≡ here
        → (if here then q.dequeue_pos + 8192 else q.seq (p % 8192)) ≡ p
    free_after p after before true e = ground (arith, c.end_is)
    free_after p after before false e = c.free p after (ground (arith, c.end_is))

-- An empty queue gives NULL and does not change.
mpmcq_dequeue_empty :
    (fuel : ℕ) (q : Mpmcq) → Contents q [] → mpmcq_dequeue (suc fuel) q ≡ some (none, q)
unfolding mpmcq_dequeue dequeue_loop
mpmcq_dequeue_empty fuel q c =
    let d = q.dequeue_pos in
    let cell : bit_and d q.buffer_mask ≡ d % 8192 = rw c.mask_is (bit_and-mask d) in
    let fresh : q.seq (d % 8192) ≡ d = c.free d (omega (arith, c.end_is)) (omega arith) in
    let behind : sub_size d (add_size d 1) ≡ 2 ^ 64 - 1 = omega (arith, c.end_is, c.low) in
    rw (cell, fresh, behind)

abbrev pub all_but_first : List ℕ → List ℕ
all_but_first [] = []
all_but_first (x ∷ xs) = xs

-- `mpmcq_dequeue` on a queue of 8192 cells, alone and with one round of fuel, returns the first
-- message and takes it out, or NULL if there is none.
pub mpmcq_dequeue-Contents :
    (fuel : ℕ) (q : Mpmcq) (xs : List ℕ)
    → Contents q xs
    → (q' : Mpmcq) × (mpmcq_dequeue (suc fuel) q ≡ some (get_elem? xs 0, q'))
      × Contents q' (all_but_first xs)
mpmcq_dequeue-Contents fuel q [] c = (q, mpmcq_dequeue_empty fuel q c, c)
mpmcq_dequeue-Contents fuel q (x ∷ xs) c = mpmcq_dequeue_first fuel x q xs c

-- A new queue of 8192 cells is empty.
pub mpmcq_init-Contents : Contents (mpmcq_init 8192) []
mpmcq_init-Contents = record {
  mask_is = refl;
  low = omega arith;
  room = omega arith;
  end_is = refl;
  filled = tt;
  free = λ p after before. omega arith;
}
