-- ===== src/Mpmcq/Mask.antt =====
-- `pos & buffer_mask` for the size that the reactors use.
use Prim.Native.Nat.{min, digits, bit_and, bit_and-bitwise}
use ghetto_redis.Prelude.{ℕ, zero, suc, ◌+◌, ◌*◌, ◌/◌, ◌%◌, ◌≤◌, ◌≡◌, refl, ◌∙◌, arith}

-- `k` ones, and the lowest `k` digits.
abbrev ones : ℕ → ℕ
ones zero = 0
ones (suc k) = ones k * 2 + 1

abbrev lowest : ℕ → ℕ → ℕ
lowest zero a = 0
lowest (suc k) a = lowest k (a / 2) * 2 + a % 2

lowest-zero : (k : ℕ) → lowest k 0 ≡ 0
lowest-zero zero = refl
lowest-zero (suc k) = omega (arith, lowest-zero k)

digits-ones : (n k a : ℕ) → a ≤ n → digits (λ b. 0) min n a (ones k) ≡ lowest k a
digits-ones zero k zero h = omega (arith, lowest-zero k)
digits-ones zero k (suc a) h = absurd (omega arith)
digits-ones (suc n) k zero h = omega (arith, lowest-zero k)
digits-ones (suc n) zero (suc a) h = omega (arith, digits-ones n zero (suc a / 2) (omega arith))
digits-ones (suc n) (suc k) (suc a) h =
    let half : (ones k * 2 + 1) / 2 ≡ ones k = omega arith in
    rw (half, digits-ones n k (suc a / 2) (omega arith)) (omega arith)

bit_and-ones : (k a : ℕ) → bit_and a (ones k) ≡ lowest k a
bit_and-ones k a = bit_and-bitwise a (ones k) ∙ digits-ones a k a (omega arith)

-- `pos & 8191` is the remainder modulo 8192.
pub bit_and-mask : (pos : ℕ) → bit_and pos 8191 ≡ pos % 8192
bit_and-mask pos = omega (arith, bit_and-ones 13 pos)
