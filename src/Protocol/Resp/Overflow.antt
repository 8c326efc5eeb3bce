-- ===== src/Protocol/Resp/Overflow.antt =====
-- A declared length near 2^64 makes `cur + arglen + sizeof(CRLF)` wrap, and passes the check that is
-- to keep the argument within the received bytes.
use ghetto_redis.Prelude.{
  ℕ, ◌+◌, ◌-◌, ◌^◌, ◌≤◌, ◌<◌, ◌≡◌, refl, ◌∙◌, [], ◌∷◌, ◌++◌, arith, length, length-append,
  ltb-false, ==_of_lt, ◌==◌, true,
}
use ghetto_redis.Prelude.Words.{Memory, Bytes, add_size, sub_size, Holds}
use ghetto_redis.Prelude.Decimal.{decimal, decimal-IsDigit, value-decimal}
use ghetto_redis.Protocol.{ok, CmdArgs, no_args}
use ghetto_redis.Protocol.Number.{parse_number}
use ghetto_redis.Protocol.Number.Digits.{parse_number-value}
use ghetto_redis.Protocol.Reply.{write_array_header, crlf}
use ghetto_redis.Protocol.Resp.{add_arg, parse_arg, parse_args, parse_resp_request}
use ghetto_redis.Protocol.Resp.Layout.{number-Holds, header-Holds, length-header}

-- A request of one argument that stops behind the argument's length.
abbrev pub claim_length : ℕ → Bytes
claim_length l = write_array_header 1 ++ ((b'$' ∷ decimal l) ++ crlf)

length-decimal-one : length (decimal 1) ≡ 1
unfolding decimal
length-decimal-one = refl

pub length-claim_length : (l : ℕ) → length (claim_length l) ≡ length (decimal l) + 7
length-claim_length l = omega (
  arith,
  length-append {0} (write_array_header 1) ((b'$' ∷ decimal l) ++ crlf),
  length-header 1,
  length-decimal-one,
  length-append {0} (decimal l) crlf,
)

parse_arg_wrap :
    (mem : Memory) (start end cur q l : ℕ) (args : CmdArgs)
    → mem cur ≡ b'$'
    → parse_number mem (cur + 1) end ≡ ok (q, l)
    → cur < end
    → q < end
    → end < 2 ^ 64
    → l < 2 ^ 64
    → 2 ^ 64 ≤ q + l + 2
    → parse_arg mem start end cur args ≡ ok (q + l + 2 - 2 ^ 64, add_arg args (sub_size q start) l)
unfolding parse_arg
parse_arg_wrap mem start end cur q l args mark read here before low small wraps =
    let e : add_size cur 1 ≡ cur + 1 = omega arith in
    let e₁ : add_size (add_size q l) 2 ≡ q + l + 2 - 2 ^ 64 = omega arith in
    let e₃ : (mem cur == b'$') ≡ true = ground arith in
    rw (==_of_lt cur end here, e₃, e, read, e₁, ltb-false end (q + l + 2 - 2 ^ 64) (omega arith))

-- For every length l that wraps the pointer sum, a request that declares one argument of that length
-- is accepted once one more byte is received, although the argument does not fit into what was
-- received.
pub parse_resp_request_overflow :
    (mem : Memory) (start size l : ℕ)
    → Holds mem start (claim_length l)
    → length (claim_length l) < size
    → start + size + 2 < 2 ^ 64
    → l < 2 ^ 64
    → 2 ^ 64 ≤ start + length (claim_length l) + l + 2
    → (r : CmdArgs) × (parse_resp_request mem start size ≡ ok r)
      × (r.lens ≡ l ∷ [])
      × (size < length (claim_length l) + l)
unfolding parse_resp_request parse_args
parse_resp_request_overflow mem start size l held inside low small wraps =
    let k : ℕ = length (decimal l) in
    let end : ℕ = start + size in
    let size_is = length-claim_length l in
    let (digits, cr, rest) = header-Holds mem start 1 ((b'$' ∷ decimal l) ++ crlf) held in
    let one = length-decimal-one in
    let body : ℕ = start + 4 in
    let same : start + (length (decimal 1) + 3) ≡ body = omega arith in
    let read : parse_number mem (start + 1) end ≡ ok (body, 1) =
      parse_number-value mem (start + 1) end (start + 2) (decimal 1)
        (decimal-IsDigit 1 (omega arith)) digits (omega (arith, value-decimal 1)) (omega arith)
        (let e : start + 1 + length (decimal 1) ≡ start + 2 = omega arith in rw (← e) cr)
        (omega arith) (omega arith)
      ∙ ground (arith, value-decimal 1) in
    let (mark, digits', cr', _) = number-Holds mem body b'$' (decimal l) [] (rw same at rest) in
    let q : ℕ = body + (k + 3) in
    let read' : parse_number mem (body + 1) end ≡ ok (q, l) =
      parse_number-value mem (body + 1) end (body + 1 + k) (decimal l) (decimal-IsDigit l small)
        digits' (omega (arith, value-decimal l)) refl cr' (omega arith) (omega arith)
      ∙ ground (arith, value-decimal l) in
    let e : add_size start size ≡ end = omega arith in
    let e₁ : add_size start 1 ≡ start + 1 = omega arith in
    let e₂ : add_size body 2 ≡ body + 2 = omega arith in
    let arg =
      parse_arg_wrap mem start end body q l (record no_args { argc = 1 }) mark read' (omega arith)
        (omega arith) (omega arith) small (omega arith) in
    (
      record {
        buf = start;
        argc = 1;
        len = sub_size (q + l + 2 - 2 ^ 64) start;
        offsets = sub_size q start ∷ [];
        lens = l ∷ [];
      },
      rw (
        e,
        ==_of_lt start end (omega arith),
        e₁,
        read,
        e₂,
        ltb-false end (body + 2) (omega arith),
        arg,
      ),
      refl,
      omega arith,
    )
