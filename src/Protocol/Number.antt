-- ===== src/Protocol/Number.antt =====
-- `parse_number` of src/include/protocol.c. Pointers are addresses below 2^64, and `mem` is the
-- memory behind them.
pub mod Bounds
pub mod Digits
use ghetto_redis.Prelude.{
  ℕ, zero, suc, ◌+◌, ◌-◌, ◌*◌, ◌/◌, ◌%◌, ◌^◌, ◌||◌, ltb, ◌==◌, if◌then◌else◌, Bool, true, false,
}
use ghetto_redis.Prelude.Words.{Memory, size_max, add_size}
use ghetto_redis.Protocol.{Parsed, ok, err, parse_error, parse_incomplete, ◌>>=◌}

-- The `while (p <= end)` loop with `n` rounds left, `n` being `end + 1 - p`; at no round left `p`
-- is past `end`. What it returns is `p`, `res` and `complete`.
unfoldable pub digits_loop : Memory → ℕ → ℕ → ℕ → Parsed (ℕ × ℕ × Bool)
digits_loop mem zero p res = ok (p, res, false)
digits_loop mem (suc n) p res =
    let next = digits_loop mem n (add_size p 1) (add_size (res * 10) (mem p - b'0')) in
    if mem p == b'\r'
    then ok (p, res, true)
    else if ltb (mem p) b'0' || ltb b'9' (mem p)
    then err parse_error
    else if ltb ((size_max - (mem p - b'0')) / 10) res
    then err parse_error
    else next

-- The part behind the loop, which checks and skips the CRLF.
unfoldable pub number_end : ℕ → ℕ × ℕ × Bool → Parsed (ℕ × ℕ)
number_end end (p, res, complete) =
    if complete
    then (if ltb end (add_size p 2) then err parse_incomplete else ok (add_size p 2, res))
    else err parse_incomplete

-- What PARSE_OK leaves in `*cur` and `*result`.
unfoldable pub parse_number : Memory → (cur end : ℕ) → Parsed (ℕ × ℕ)
unfolding digits_loop number_end
parse_number mem cur end = digits_loop mem (end + 1 - cur) cur 0 >>= number_end end
