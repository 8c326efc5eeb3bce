-- ===== src/Commands/Counter/RoundTrip.antt =====
-- The parser reads back what `sprintf("%ld")` stores.
use ghetto_redis.Prelude.{
  ℕ, ◌+◌, ◌-◌, ◌*◌, ◌%◌, ◌^◌, ◌<◌, ◌≡◌, refl, ◌∙◌, ap, [], ◌∷◌, some, All, arith, ltb, Bool-cases,
  inl, inr, true, false, ◌==◌,
}
use ghetto_redis.Prelude.Words.{Bytes}
use ghetto_redis.Prelude.Decimal.{IsDigit, value, decimal, decimal-IsDigit, value-decimal}
use ghetto_redis.Prelude.Int64.{negate, add_int64, decimal_int64}
use ghetto_redis.Commands.Counter.{is_digit, parse_digits, try_parse_signed_integer}

value-mod :
    (a b : ℕ) (ds : Bytes) → a % 2 ^ 64 ≡ b % 2 ^ 64 → value a ds % 2 ^ 64 ≡ value b ds % 2 ^ 64
value-mod a b [] e = e
value-mod a b (d ∷ ds) e = value-mod (a * 10 + (d - 48)) (b * 10 + (d - 48)) ds (omega arith)

parse_digits-value :
    (res : ℕ) (ds : Bytes)
    → res < 2 ^ 64
    → All IsDigit ds
    → parse_digits res ds ≡ some (value res ds % 2 ^ 64)
unfolding parse_digits
parse_digits-value res [] small digits = ground arith
parse_digits-value res (d ∷ ds) small digits =
    let next : ℕ = add_int64 (res * 10 % 2 ^ 64) (d - 48) in
    let e : is_digit d ≡ true = ground arith in
    rw e (
      parse_digits-value next ds (omega arith) digits.1
      ∙ ap some (value-mod next (res * 10 + (d - 48)) ds (omega arith)))

-- Digits alone are read as their value modulo 2^64.
pub try_parse_signed_integer-value :
    (ds : Bytes) → All IsDigit ds → try_parse_signed_integer ds ≡ some (value 0 ds % 2 ^ 64)
unfolding try_parse_signed_integer
try_parse_signed_integer-value [] digits = refl
try_parse_signed_integer-value (d ∷ ds) digits =
    let plus : (d == b'+') ≡ false = ground arith in
    let minus : (d == b'-') ≡ false = ground arith in
    rw (minus, plus) (parse_digits-value 0 (d ∷ ds) (omega arith) digits)

-- Behind a minus sign they are read as its negative.
try_parse_signed_integer_minus :
    (ds : Bytes)
    → All IsDigit ds
    → try_parse_signed_integer (b'-' ∷ ds) ≡ some (negate (value 0 ds % 2 ^ 64))
unfolding try_parse_signed_integer
try_parse_signed_integer_minus ds digits = rw (parse_digits-value 0 ds (omega arith) digits)

-- For every 64-bit integer, negative ones included, the text that the counter commands store is
-- parsed back to that integer.
pub try_parse_signed_integer-decimal_int64 :
    (w : ℕ) → w < 2 ^ 64 → try_parse_signed_integer (decimal_int64 w) ≡ some w
unfolding decimal_int64
try_parse_signed_integer-decimal_int64 w h = elim (Bool-cases (ltb w (2 ^ 63))) [
  | inl positive ↦ rw positive (
      try_parse_signed_integer-value (decimal w) (decimal-IsDigit w h)
      ∙ ap some (omega (arith, value-decimal w h)))
  | inr negative ↦
      let n : ℕ = 2 ^ 64 - w in
      let large : 2 ^ 63 < w + 1 = ground arith in
      let small : n < 2 ^ 64 = omega arith in
      rw negative (
        try_parse_signed_integer_minus (decimal n) (decimal-IsDigit n small)
        ∙ ap some (omega (arith, value-decimal n small)))
]
