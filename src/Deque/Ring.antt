-- ===== src/Deque/Ring.antt =====
-- The links of a deque as a ring: the deque stands in for a node at NULL, whose next is the head
-- and whose previous is the tail.
use ghetto_redis.Prelude.{
  ℕ, ◌≡◌, refl, ◌∙◌, ◌==◌, if◌then◌else◌, false, List, [], ◌∷◌, ◌++◌, map, All, All-append, arith,
}
use mathlib.Core.Path.{ap₂}
use ghetto_redis.Deque.{Store}

abbrev pub next_of : Store → ℕ → ℕ
next_of s i = if i == 0 then s.deque.head else (s.nodes i).next

abbrev pub prev_of : Store → ℕ → ℕ
prev_of s i = if i == 0 then s.deque.tail else (s.nodes i).prev

-- From `a` over the nodes `xs` to `b`.
abbrev pub Linked : (next prev : ℕ → ℕ) → (a : ℕ) → List ℕ → (b : ℕ) → Type 0
Linked next prev a [] b = (next a ≡ b) × (prev b ≡ a)
Linked next prev a (x ∷ xs) b = (next a ≡ x) × (prev x ≡ a) × Linked next prev x xs b

abbrev pub Fresh : ℕ → List ℕ → Type 0
Fresh n xs = All (λ x. (x == n) ≡ false) xs

abbrev pub Distinct : List ℕ → Type 0
Distinct [] = Unit
Distinct (x ∷ xs) = Fresh x xs × Distinct xs

abbrev pub last_of : ℕ → List ℕ → ℕ
last_of a [] = a
last_of a (x ∷ xs) = last_of x xs

abbrev pub first_of : List ℕ → ℕ → ℕ
first_of [] b = b
first_of (x ∷ xs) b = x

pub last_of-Fresh : (n a : ℕ) (xs : List ℕ) → Fresh n (a ∷ xs) → (last_of a xs == n) ≡ false
last_of-Fresh n a [] fresh = fresh.0
last_of-Fresh n a (x ∷ xs) fresh = last_of-Fresh n x xs fresh.1

pub last_of-append :
    (a : ℕ) (xs : List ℕ) (n : ℕ) (ys : List ℕ) → last_of a (xs ++ n ∷ ys) ≡ last_of n ys
last_of-append a [] n ys = refl
last_of-append a (x ∷ xs) n ys = last_of-append x xs n ys

pub first_of-Fresh :
    (n b : ℕ) (xs : List ℕ) → (b == n) ≡ false → Fresh n xs → (first_of xs b == n) ≡ false
first_of-Fresh n b [] end fresh = end
first_of-Fresh n b (x ∷ xs) end fresh = fresh.0

pub Distinct-snoc : (n : ℕ) (xs : List ℕ) → Distinct xs → Fresh n xs → Distinct (xs ++ n ∷ [])
Distinct-snoc n [] d fresh = (tt, tt)
Distinct-snoc n (x ∷ xs) d fresh =
    (All-append _ xs (n ∷ []) d.0 (ground (arith, fresh.0), tt), Distinct-snoc n xs d.1 fresh.1)

module _ (next prev : ℕ → ℕ) where
  pub Linked-last : (a : ℕ) (xs : List ℕ) (b : ℕ) → Linked next prev a xs b → prev b ≡ last_of a xs
  Linked-last a [] b l = l.1
  Linked-last a (x ∷ xs) b (l, m, rest) = Linked-last x xs b rest

  pub Linked-first :
      (a : ℕ) (xs : List ℕ) (b : ℕ) → Linked next prev a xs b → next a ≡ first_of xs b
  Linked-first a [] b l = l.0
  Linked-first a (x ∷ xs) b (l, m, rest) = l

  pub Linked-append :
      (a : ℕ) (xs : List ℕ) (d : ℕ) (ys : List ℕ) (b : ℕ)
      → Linked next prev a xs d
      → Linked next prev d ys b
      → Linked next prev a (xs ++ d ∷ ys) b
  Linked-append a [] d ys b (l, m) rest = (l, m, rest)
  Linked-append a (x ∷ xs) d ys b (l, m, more) rest = (l, m, Linked-append x xs d ys b more rest)

  pub Linked-split :
      (a : ℕ) (xs : List ℕ) (d : ℕ) (ys : List ℕ) (b : ℕ)
      → Linked next prev a (xs ++ d ∷ ys) b
      → Linked next prev a xs d × Linked next prev d ys b
  Linked-split a [] d ys b (l, m, rest) = ((l, m), rest)
  Linked-split a (x ∷ xs) d ys b (l, m, more) =
      let (front, back) = Linked-split x xs d ys b more in ((l, m, front), back)

-- Links that change only at two places each.
module _ (next prev next' prev' : ℕ → ℕ) (p n e : ℕ)
    (keep_next : (i : ℕ) → (i == p) ≡ false → (i == n) ≡ false → next' i ≡ next i)
    (keep_prev : (i : ℕ) → (i == e) ≡ false → (i == n) ≡ false → prev' i ≡ prev i) where
  pub Linked-same :
      (a : ℕ) (xs : List ℕ) (b : ℕ)
      → Linked next prev a xs b
      → Fresh p (a ∷ xs)
      → Fresh n (a ∷ xs)
      → Fresh e xs
      → (b == e) ≡ false
      → (b == n) ≡ false
      → Linked next' prev' a xs b
  Linked-same a [] b l fp fn fe be bn = (keep_next a fp.0 fn.0 ∙ l.0, keep_prev b be bn ∙ l.1)
  Linked-same a (x ∷ xs) b (l, m, rest) fp fn fe be bn = (
    keep_next a fp.0 fn.0 ∙ l,
    keep_prev x fe.0 fn.1.0 ∙ m,
    Linked-same x xs b rest fp.1 fn.1 fe.1 be bn,
  )

  -- The last link leads to `d`.
  pub Linked-end :
      (a : ℕ) (xs : List ℕ) (b d : ℕ)
      → Linked next prev a xs b
      → last_of a xs ≡ p
      → Distinct (a ∷ xs)
      → Fresh n (a ∷ xs)
      → Fresh e xs
      → next' p ≡ d
      → prev' d ≡ p
      → Linked next' prev' a xs d
  Linked-end a [] b d l at fresh fn fe there back = (rw (← at) at there, rw (← at) at back)
  Linked-end a (x ∷ xs) b d (l, m, rest) at fresh fn fe there back = (
    keep_next a (ground (arith, last_of-Fresh a x xs fresh.0, at)) fn.0 ∙ l,
    keep_prev x fe.0 fn.1.0 ∙ m,
    Linked-end x xs b d rest at fresh.1 fn.1 fe.1 there back,
  )

-- The deque holds the nodes `xs`, from the head to the tail.
pub record Represents (s : Store) (xs : List ℕ) : Type 0 where
  pub links : Linked (next_of s) (prev_of s) 0 xs 0
  pub distinct : Distinct (0 ∷ xs)

-- The data of nodes.
abbrev pub values : Store → List ℕ → List ℕ
values s xs = map (λ x. (s.nodes x).«data») xs

pub values-same :
    (s s' : Store) (n : ℕ)
    → ((i : ℕ) → (i == n) ≡ false → (s'.nodes i).«data» ≡ (s.nodes i).«data»)
    → (xs : List ℕ) → Fresh n xs
    → values s' xs ≡ values s xs
values-same s s' n keep [] fresh = refl
values-same s s' n keep (x ∷ xs) fresh =
    ap₂ ◌∷◌ (keep x fresh.0) (values-same s s' n keep xs fresh.1)

-- The deque holds `items` in the nodes `xs`.
abbrev pub Lists : Store → (xs items : List ℕ) → Type 0
Lists s xs items = Represents s xs × (values s xs ≡ items)
