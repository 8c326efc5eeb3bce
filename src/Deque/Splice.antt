-- ===== src/Deque/Splice.antt =====
-- Taking a node out of the ring.
use ghetto_redis.Prelude.{
  ℕ, ◌≡◌, sym, ◌∙◌, ◌==◌, false, List, [], ◌∷◌, ◌++◌, All, All-append, arith,
}
use mathlib.Core.Path.{subst}
use mathlib.Core.List.{append-nil}
use ghetto_redis.Deque.Ring.{
  Linked, Fresh, Distinct, last_of, Linked-last, Linked-append, Linked-split, Linked-same,
  Linked-end,
}

-- No item of `xs` is one of `ys`.
abbrev pub Apart : (xs ys : List ℕ) → Type 0
Apart xs ys = All (λ x. Fresh x ys) xs

All-split : (P : ℕ → Type 0) (xs ys : List ℕ) → All P (xs ++ ys) → All P xs × All P ys
All-split P [] ys h = (tt, h)
All-split P (x ∷ xs) ys (h, rest) = let (left, right) = All-split P xs ys rest in ((h, left), right)

pub Distinct-split :
    (xs ys : List ℕ) → Distinct (xs ++ ys) → Distinct xs × Distinct ys × Apart xs ys
Distinct-split [] ys d = (tt, d, tt)
Distinct-split (x ∷ xs) ys (fresh, d) =
    let (left, right) = All-split _ xs ys fresh in
    let (dx, dy, apart) = Distinct-split xs ys d in ((left, dx), dy, (right, apart))

pub Distinct-append :
    (xs ys : List ℕ) → Distinct xs → Distinct ys → Apart xs ys → Distinct (xs ++ ys)
Distinct-append [] ys dx dy apart = dy
Distinct-append (x ∷ xs) ys dx dy apart =
    (All-append _ xs ys dx.0 apart.0, Distinct-append xs ys dx.1 dy apart.1)

pub Apart-heads : (xs : List ℕ) (y : ℕ) (ys : List ℕ) → Apart xs (y ∷ ys) → Fresh y xs × Apart xs ys
Apart-heads [] y ys apart = (tt, tt)
Apart-heads (x ∷ xs) y ys ((here, rest), apart) =
    let (fresh, more) = Apart-heads xs y ys apart in ((ground (arith, here), fresh), (rest, more))

last_of-Apart : (a : ℕ) (xs ys : List ℕ) → Apart (a ∷ xs) ys → Fresh (last_of a xs) ys
last_of-Apart a [] ys apart = apart.0
last_of-Apart a (x ∷ xs) ys apart = last_of-Apart x xs ys apart.1

-- The node before `n` leads to the node behind it, and back.
pub Linked-splice :
    (next prev next' prev' : ℕ → ℕ) (n : ℕ) (front back : List ℕ)
    → Linked next prev 0 (front ++ n ∷ back) 0
    → Distinct (0 ∷ front ++ n ∷ back)
    → ((i : ℕ) → (i == prev n) ≡ false → (i == n) ≡ false → next' i ≡ next i)
    → ((i : ℕ) → (i == next n) ≡ false → (i == n) ≡ false → prev' i ≡ prev i)
    → next' (prev n) ≡ next n
    → prev' (next n) ≡ prev n
    → Linked next' prev' 0 (front ++ back) 0 × Distinct (0 ∷ front ++ back)
Linked-splice next prev next' prev' n front back l d keep_next keep_prev there here =
    let (before, behind) = Linked-split next prev 0 front n back 0 l in
    let (df, (fresh, db), apart) = Distinct-split (0 ∷ front) (n ∷ back) d in
    let (new, apart') = Apart-heads (0 ∷ front) n back apart in
    (
      by_back back before behind fresh db df new apart',
      Distinct-append (0 ∷ front) back df db apart',
    )
  where
    by_back :
        (back : List ℕ)
        → Linked next prev 0 front n
        → Linked next prev n back 0
        → Fresh n back
        → Distinct back
        → Distinct (0 ∷ front)
        → Fresh n (0 ∷ front)
        → Apart (0 ∷ front) back
        → Linked next' prev' 0 (front ++ back) 0
    by_back [] before l fresh db df new apart = rw (append-nil front) (
        Linked-end next prev next' prev' (prev n) n (next n) keep_next keep_prev 0 front n 0 before
          (sym (Linked-last next prev 0 front n before)) df new (rw l.0 df.0) (there ∙ l.0)
          (rw (← l.0) here))
    by_back (y ∷ back) before (l, m, rest) fresh db df new apart =
        let (heads, apart') = Apart-heads (0 ∷ front) y back apart in
        let last = Linked-last next prev 0 front n before in
        let zero = heads.0 in
        let new_zero = new.0 in
        Linked-append next' prev' 0 front y back 0
          (Linked-end next prev next' prev' (prev n) n (next n) keep_next keep_prev 0 front n y
            before (sym last) df new (rw l heads.1) (there ∙ l) (rw (← l) here))
          (Linked-same next prev next' prev' (prev n) n (next n) keep_next keep_prev y back 0 rest
            (subst (λ p. Fresh p (y ∷ back)) (sym last) (last_of-Apart 0 front (y ∷ back) apart))
            fresh (rw l db.0) (rw l zero) new_zero)
