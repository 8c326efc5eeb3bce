-- ===== src/Prelude/Decimal.antt =====
-- Decimal text as `%zu` prints it.
use Prim.Native.Nat.{ℕ, zero, suc, ◌+◌, ◌-◌, ◌*◌, ◌/◌, ◌%◌, ◌^◌, ◌≤◌, ◌<◌}
use mathlib.Core.Path.{◌≡◌, refl, ◌∙◌}
use mathlib.Core.List.{[], ◌∷◌, ◌++◌}
use mathlib.Core.Logic.{inl, inr}
use native.Mathlib.Nat.{pow-suc}
use native.Mathlib.Omega.{arith}
use ghetto_redis.Prelude.Lists.{All, All-append}
use ghetto_redis.Prelude.Tests.{ltb, if◌then◌else◌, Bool-cases}
use ghetto_redis.Prelude.Words.{Bytes}

abbrev pub IsDigit : ℕ → Type 0
IsDigit b = (48 ≤ b) × (b ≤ 57)

-- The digits of `n`, the highest first. A 64-bit number has at most twenty.
pub decimal_loop : ℕ → ℕ → Bytes
decimal_loop zero n = []
decimal_loop (suc k) n =
    let high = decimal_loop k (n / 10) in
    if ltb n 10 then (48 + n) ∷ [] else high ++ (48 + n % 10) ∷ []

unfoldable pub decimal : ℕ → Bytes
unfolding decimal_loop
decimal n = decimal_loop 20 n

-- The number that digits stand for, read from the left onto `acc`.
abbrev pub value : ℕ → Bytes → ℕ
value acc [] = acc
value acc (d ∷ ds) = value (acc * 10 + (d - 48)) ds

pub value-append : (acc : ℕ) (ds es : Bytes) → value acc (ds ++ es) ≡ value (value acc ds) es
value-append acc [] es = refl
value-append acc (d ∷ ds) es = value-append (acc * 10 + (d - 48)) ds es

pub le-value : (acc : ℕ) (ds : Bytes) → acc ≤ value acc ds
le-value acc [] = omega arith
le-value acc (d ∷ ds) = omega (arith, le-value (acc * 10 + (d - 48)) ds)

lt-div : (k n : ℕ) → n < 10 ^ suc k → n / 10 < 10 ^ k
lt-div k n h = omega (arith, pow-suc 10 k)

decimal_loop_lem :
    (k n : ℕ) → n < 10 ^ k → (value 0 (decimal_loop k n) ≡ n) × All IsDigit (decimal_loop k n)
unfolding decimal_loop
decimal_loop_lem zero n h = (omega arith, tt)
decimal_loop_lem (suc k) n h = elim (Bool-cases (ltb n 10)) [
  | inl small ↦ rw small (ground arith, ground arith)
  | inr large ↦ rw large (
    value-append 0 (decimal_loop k (n / 10)) _
        ∙ omega (arith, (decimal_loop_lem k (n / 10) (lt-div k n h)).0),
    All-append IsDigit _ _ (decimal_loop_lem k (n / 10) (lt-div k n h)).1
        ((omega arith, omega arith), tt),
  )
]

-- Reading the decimal text of a number gives the number back.
pub value-decimal : (n : ℕ) → n < 2 ^ 64 → value 0 (decimal n) ≡ n
unfolding decimal
value-decimal n h = (decimal_loop_lem 20 n (omega arith)).0

pub decimal-IsDigit : (n : ℕ) → n < 2 ^ 64 → All IsDigit (decimal n)
unfolding decimal
decimal-IsDigit n h = (decimal_loop_lem 20 n (omega arith)).1

pub decimal_test :
    decimal 18446744073709551615
    ≡ 49 ∷ 56 ∷ 52 ∷ 52 ∷ 54 ∷ 55 ∷ 52 ∷ 52 ∷ 48 ∷ 55 ∷ 51 ∷ 55 ∷ 48 ∷ 57 ∷ 53 ∷ 53 ∷ 49 ∷ 54 ∷ 49
      ∷ 53 ∷ []
unfolding decimal
decimal_test = refl
