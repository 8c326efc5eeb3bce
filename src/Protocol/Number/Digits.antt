-- ===== src/Protocol/Number/Digits.antt =====
-- What `parse_number` makes of digits: their value, or an error where a number is cut short.
use ghetto_redis.Prelude.{
  ℕ, zero, suc, ◌+◌, ◌-◌, ◌*◌, ◌^◌, ◌≤◌, ◌<◌, ◌≡◌, refl, ◌∙◌, [], ◌∷◌, true, length, All, arith,
  ◌≢◌, ◌⊎◌,
}
use ghetto_redis.Prelude.Words.{Memory, Bytes, Holds}
use ghetto_redis.Prelude.Decimal.{IsDigit, value, le-value}
use ghetto_redis.Protocol.{ok, err, parse_error}
use ghetto_redis.Protocol.Number.{digits_loop, number_end, parse_number}

-- One round on a digit that does not overflow.
digits_loop_digit :
    (mem : Memory) (n p res d : ℕ)
    → mem p ≡ d
    → IsDigit d
    → res * 10 + (d - 48) < 2 ^ 64
    → p + 1 < 2 ^ 64
    → digits_loop mem (suc n) p res ≡ digits_loop mem n (p + 1) (res * 10 + (d - 48))
unfolding digits_loop
digits_loop_digit mem n p res d at digit small low = ground arith

digits_loop_cr :
    (mem : Memory) (n p res : ℕ) → mem p ≡ b'\r' → digits_loop mem (suc n) p res ≡ ok (p, res, true)
unfolding digits_loop
digits_loop_cr mem n p res at = ground arith

-- One round on a byte that is no digit and no carriage return.
digits_loop_odd :
    (mem : Memory) (n p res : ℕ)
    → (mem p < b'0') ⊎ (b'9' < mem p)
    → mem p ≢ b'\r'
    → digits_loop mem (suc n) p res ≡ err parse_error
unfolding digits_loop
digits_loop_odd mem n p res odd ne = ground arith

digits_loop-value :
    (mem : Memory) (n p res q : ℕ) (ds : Bytes)
    → All IsDigit ds
    → Holds mem p ds
    → value res ds < 2 ^ 64
    → p + length ds ≡ q
    → q < 2 ^ 64
    → mem q ≡ b'\r'
    → length ds < n
    → digits_loop mem n p res ≡ ok (q, value res ds, true)
digits_loop-value mem zero p res q ds digits held small e low at enough = absurd (omega arith)
digits_loop-value mem (suc n) p res q [] digits held small e low at enough =
    let here : p ≡ q = omega arith in digits_loop_cr mem n p res (rw here at) ∙ rw here
digits_loop-value mem (suc n) p res q (d ∷ ds) digits held small e low at enough =
    let next : ℕ = res * 10 + (d - 48) in
    digits_loop_digit mem n p res d held.0 digits.0 (omega (arith, le-value next ds)) (omega arith)
    ∙ digits_loop-value mem n (p + 1) next q ds digits.1 held.1 small (omega arith) low at
        (omega arith)

-- Digits of a 64-bit number with a carriage return behind them, and one more byte before `end`, are
-- read as that number, and `cur` is moved behind both bytes.
pub parse_number-value :
    (mem : Memory) (cur end q : ℕ) (ds : Bytes)
    → All IsDigit ds
    → Holds mem cur ds
    → value 0 ds < 2 ^ 64
    → cur + length ds ≡ q
    → mem q ≡ b'\r'
    → q + 2 ≤ end
    → end < 2 ^ 64
    → parse_number mem cur end ≡ ok (q + 2, value 0 ds)
unfolding parse_number number_end
parse_number-value mem cur end q ds digits held small e at inside low =
    rw
      (digits_loop-value mem (end + 1 - cur) cur 0 q ds digits held small e (omega arith) at
        (omega arith))
      (ground arith)

-- A number cut short by the end of the received bytes, with a byte behind them that is neither a
-- digit nor a carriage return, is a parse error and not an incomplete request.
pub parse_number_cut :
    (mem : Memory) (cur end : ℕ) (ds : Bytes)
    → All IsDigit ds
    → Holds mem cur ds
    → value 0 ds < 2 ^ 64
    → cur + length ds ≡ end
    → (mem end < b'0') ⊎ (b'9' < mem end)
    → mem end ≢ b'\r'
    → end + 1 < 2 ^ 64
    → parse_number mem cur end ≡ err parse_error
unfolding parse_number
parse_number_cut mem cur end ds digits held small e odd ne low =
    rw (stop (end + 1 - cur) cur 0 ds digits held small e (omega arith)) refl
  where
    stop :
        (n p res : ℕ) (ds : Bytes)
        → All IsDigit ds
        → Holds mem p ds
        → value res ds < 2 ^ 64
        → p + length ds ≡ end
        → length ds < n
        → digits_loop mem n p res ≡ err parse_error
    stop zero p res ds digits held small e enough = absurd (omega arith)
    stop (suc n) p res [] digits held small e enough =
        (let here : p ≡ end = omega arith in digits_loop_odd mem n p res (rw here odd) (rw here ne))
    stop (suc n) p res (d ∷ ds) digits held small e enough =
        let next : ℕ = res * 10 + (d - 48) in
        digits_loop_digit mem n p res d held.0 digits.0 (omega (arith, le-value next ds))
          (omega arith)
        ∙ stop n (p + 1) next ds digits.1 held.1 small (omega arith) (omega arith)
