-- ===== src/Prelude/Words.antt =====
-- 64-bit words and the bytes at their addresses.
use Prim.Native.Nat.{ℕ, zero, suc, ◌+◌, ◌-◌, ◌%◌, ◌^◌, ◌<◌}
use mathlib.Core.Path.{◌≡◌, refl, ap, ap₂}
use mathlib.Core.List.{List, [], ◌∷◌, ◌++◌}
use native.Mathlib.Omega.{arith}
use ghetto_redis.Prelude.Lists.{length}

abbrev pub Bytes : Type 0
Bytes = List ℕ

abbrev pub size_max : ℕ
size_max = 2 ^ 64 - 1

-- `p + n` on pointers and on `size_t`
abbrev pub add_size : ℕ → ℕ → ℕ
add_size p n = (p + n) % 2 ^ 64

-- `p - q` on pointers and on `size_t`
abbrev pub sub_size : ℕ → ℕ → ℕ
sub_size p q = (p + 2 ^ 64 - q) % 2 ^ 64

-- The byte at each address.
abbrev pub Memory : Type 0
Memory = ℕ → ℕ

-- The `n` bytes from address `p` on.
abbrev pub slice : Memory → ℕ → ℕ → Bytes
slice mem p zero = []
slice mem p (suc n) = mem p ∷ slice mem (p + 1) n

-- The bytes `xs` stand at address `p`.
abbrev pub Holds : Memory → ℕ → Bytes → Type 0
Holds mem p [] = Unit
Holds mem p (x ∷ xs) = (mem p ≡ x) × Holds mem (p + 1) xs

pub Holds-append :
    (mem : Memory) (p : ℕ) (xs ys : Bytes)
    → Holds mem p (xs ++ ys)
    → Holds mem p xs × Holds mem (p + length xs) ys
Holds-append mem p [] ys h = (tt, let e : p + 0 ≡ p = omega arith in rw e h)
Holds-append mem p (x ∷ xs) ys h =
    let (front, back) = Holds-append mem (p + 1) xs ys h.1 in
    let e : p + suc (length xs) ≡ p + 1 + length xs = omega arith in ((h.0, front), rw e back)

pub slice-Holds :
    (mem : Memory) (p : ℕ) (xs : Bytes) → Holds mem p xs → slice mem p (length xs) ≡ xs
slice-Holds mem p [] h = refl
slice-Holds mem p (x ∷ xs) h = ap₂ ◌∷◌ h.0 (slice-Holds mem (p + 1) xs h.1)

-- Slices of memories that agree at the same distances from two addresses.
pub slice_shift :
    (f g : Memory) (p q n : ℕ)
    → ((i : ℕ) → i < n → f (p + i) ≡ g (q + i))
    → slice f p n ≡ slice g q n
slice_shift f g p q zero same = refl
slice_shift f g p q (suc n) same =
    let e : p + 0 ≡ p = omega arith in
    let e' : q + 0 ≡ q = omega arith in
    let head : f p ≡ g q = rw (e, e') at (same 0 (omega arith)) in
    ap₂ ◌∷◌ head (
      slice_shift f g (p + 1) (q + 1) n (λ i to.
        let up : p + 1 + i ≡ p + suc i = omega arith in
        let up' : q + 1 + i ≡ q + suc i = omega arith in rw (up, up') (same (suc i) (omega arith))))

pub slice-append : (f : ℕ → ℕ) (p m n : ℕ) → slice f p (m + n) ≡ slice f p m ++ slice f (p + m) n
slice-append f p zero n =
    let e : p + 0 ≡ p = omega arith in let e' : 0 + n ≡ n = omega arith in rw (e, e')
slice-append f p (suc m) n =
    let e : suc m + n ≡ suc (m + n) = omega arith in
    let e' : p + suc m ≡ p + 1 + m = omega arith in
    rw (e, e') (ap (◌∷◌ (f p)) (slice-append f (p + 1) m n))
