-- ===== src/Protocol/Number/Bounds.antt =====
-- Where `parse_number` stops and how large its result is.
use ghetto_redis.Prelude.{
  ℕ, zero, suc, ◌+◌, ◌-◌, ◌*◌, ◌^◌, ◌≤◌, ◌<◌, ◌≡◌, refl, Bool, true, false, arith,
}
use ghetto_redis.Prelude.Words.{Memory, add_size}
use ghetto_redis.Protocol.{Parsed, ok, err, ◌>>=◌}
use ghetto_redis.Protocol.Number.{digits_loop, number_end, parse_number}

digits_loop_bounds :
    (mem : Memory) (n p res end q k : ℕ)
    → p + n ≡ end + 1
    → end + 3 < 2 ^ 64
    → res < 2 ^ 64
    → digits_loop mem n p res ≡ ok (q, k, true)
    → (p ≤ q) × (q ≤ end) × (k < 2 ^ 64)
unfolding digits_loop
digits_loop_bounds mem zero p res end q k e low small h = ground arith
digits_loop_bounds mem (suc n) p res end q k e low small h =
    ground
      (arith, digits_loop_bounds mem n (add_size p 1) (add_size (res * 10) (mem p - b'0')) end q k)

-- What `parse_number` returns is a 64-bit number, and it leaves `cur` at least two bytes further on
-- and not past `end`.
pub parse_number_bounds :
    (mem : Memory) (cur end : ℕ) {q k : ℕ}
    → cur ≤ end
    → end + 3 < 2 ^ 64
    → parse_number mem cur end ≡ ok (q, k)
    → (cur + 2 ≤ q) × (q ≤ end) × (k < 2 ^ 64)
unfolding parse_number number_end
parse_number_bounds mem cur end {q} {k} before low h =
    by_result (digits_loop mem (end + 1 - cur) cur 0) refl h
  where
    by_result :
        (r : Parsed (ℕ × ℕ × Bool))
        → digits_loop mem (end + 1 - cur) cur 0 ≡ r
        → (r >>= number_end end) ≡ ok (q, k)
        → (cur + 2 ≤ q) × (q ≤ end) × (k < 2 ^ 64)
    by_result (err _) e h = ground arith
    by_result (ok (p, res, false)) e h = ground arith
    by_result (ok (p, res, true)) e h = ground (
      arith,
      digits_loop_bounds mem (end + 1 - cur) cur 0 end p res (omega arith) low (omega arith) e,
    )
