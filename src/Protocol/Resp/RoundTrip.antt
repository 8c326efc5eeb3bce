-- ===== src/Protocol/Resp/RoundTrip.antt =====
-- Requests that the reply writers wrote are parsed back into their arguments.
use ghetto_redis.Prelude.{
  ℕ, ◌+◌, ◌-◌, ◌^◌, ◌≤◌, ◌<◌, ◌==◌, List, [], ◌∷◌, ◌++◌, map, true, false, ◌≡◌, refl, ◌∙◌,
  ltb-false, ==_of_lt, arith, length, length-append,
}
use mathlib.Core.Path.{ap₂}
use mathlib.Core.List.{append_assoc, append-nil}
use native.Mathlib.Nat.{add_assoc}
use ghetto_redis.Prelude.Words.{Memory, Bytes, add_size, sub_size, Holds, Holds-append, slice-Holds}
use ghetto_redis.Prelude.Decimal.{decimal, decimal-IsDigit, value-decimal}
use ghetto_redis.Protocol.{ok, CmdArgs, no_args, max_argc}
use ghetto_redis.Protocol.Number.{parse_number}
use ghetto_redis.Protocol.Number.Digits.{parse_number-value}
use ghetto_redis.Protocol.Reply.{write_bulk_string, write_array_header}
use ghetto_redis.Protocol.Resp.{add_arg, parse_arg, parse_args, parse_resp_request}
use ghetto_redis.Protocol.Resp.Layout.{
  bulk_strings, request, arguments_at, arguments, prefix, length-bulk, bulk-Holds, header-Holds,
  length-header,
}

module _ (mem : Memory) (start end : ℕ) (low : end < 2 ^ 64) where
  -- One round of the loop, given what `parse_number` reads.
  parse_arg-ok :
      (cur q l : ℕ) (args : CmdArgs)
      → mem cur ≡ b'$'
      → parse_number mem (cur + 1) end ≡ ok (q, l)
      → start ≤ q
      → cur < end
      → q + l + 2 ≤ end
      → parse_arg mem start end cur args ≡ ok (q + l + 2, add_arg args (q - start) l)
  unfolding parse_arg
  parse_arg-ok cur q l args mark read after here inside =
      let e : add_size cur 1 ≡ cur + 1 = omega arith in
      let e₁ : add_size (add_size q l) 2 ≡ q + l + 2 = omega arith in
      let e₂ : (cur == end) ≡ false = ground arith in
      let e₃ : (mem cur == b'$') ≡ true = ground arith in
      let e₄ : sub_size q start ≡ q - start = omega arith in
      rw (e₂, e₃, e, read, e₁, ltb-false end (q + l + 2) inside, e₄)

  -- One round of the loop reads one bulk string.
  parse_arg-bulk :
      (cur : ℕ) (args : CmdArgs) (a : Bytes)
      → Holds mem cur (write_bulk_string a)
      → start ≤ cur
      → cur + length (write_bulk_string a) ≤ end
      → parse_arg mem start end cur args
        ≡ ok (cur + length (write_bulk_string a), add_arg args (cur + prefix a - start) (length a))
  parse_arg-bulk cur args a held after inside =
      let k : ℕ = length (decimal (length a)) in
      let (mark, digits, cr, _) = bulk-Holds mem cur a held in
      let size = length-bulk a in
      let small : length a < 2 ^ 64 = omega arith in
      let is_value = value-decimal (length a) small in
      let read : parse_number mem (cur + 1) end ≡ ok (cur + prefix a, length a) =
        parse_number-value mem (cur + 1) end (cur + 1 + k) (decimal (length a))
          (decimal-IsDigit (length a) small) digits (omega arith) refl cr (omega arith) low
        ∙ ground (arith, is_value) in
      parse_arg-ok cur (cur + prefix a) (length a) args mark read (omega arith) (omega arith)
        (omega arith)
      ∙ ground (arith, size)

  -- Where the arguments of bulk strings at `cur` stand.
  abbrev offsets_from : ℕ → List Bytes → List ℕ
  offsets_from cur [] = []
  offsets_from cur (a ∷ more) =
      (cur + prefix a - start) ∷ offsets_from (cur + length (write_bulk_string a)) more

  add_args : CmdArgs → ℕ → List Bytes → CmdArgs
  add_args args cur more = record args {
    offsets = args.offsets ++ offsets_from cur more;
    lens = args.lens ++ map length more;
  }

  parse_args-bulk :
      (more : List Bytes) (cur : ℕ) (args : CmdArgs)
      → Holds mem cur (bulk_strings more)
      → start ≤ cur
      → cur + length (bulk_strings more) ≤ end
      → parse_args mem start end (length more) cur args
        ≡ ok (cur + length (bulk_strings more), add_args args cur more)
  unfolding parse_args add_args
  parse_args-bulk [] cur args held after inside =
      let e : cur + 0 ≡ cur = omega arith in rw (append-nil args.offsets, append-nil args.lens, e)
  parse_args-bulk (a ∷ more) cur args held after inside =
      let (here, rest) = Holds-append mem cur (write_bulk_string a) (bulk_strings more) held in
      let size = length-append {0} (write_bulk_string a) (bulk_strings more) in
      rw (parse_arg-bulk cur args a here after (omega arith)) (
        parse_args-bulk more (cur + length (write_bulk_string a))
          (add_arg args (cur + prefix a - start) (length a)) rest (omega arith) (omega arith)
        ∙ simp append_assoc (rw (size, add_assoc)))

  arguments_at-bulk :
      (more : List Bytes) (cur : ℕ)
      → Holds mem cur (bulk_strings more)
      → start ≤ cur
      → cur + length (bulk_strings more) ≤ end
      → arguments_at mem start (offsets_from cur more) (map length more) ≡ more
  arguments_at-bulk [] cur held after inside = refl
  arguments_at-bulk (a ∷ more) cur held after inside =
      let (here, rest) = Holds-append mem cur (write_bulk_string a) (bulk_strings more) held in
      let size = length-append {0} (write_bulk_string a) (bulk_strings more) in
      let size' = length-bulk a in
      let e : add_size start (cur + prefix a - start) ≡ cur + prefix a = omega arith in
      ap₂ ◌∷◌ (rw e (slice-Holds mem (cur + prefix a) a (bulk-Holds mem cur a here).3)) (
        arguments_at-bulk more (cur + length (write_bulk_string a)) rest (omega arith)
          (omega arith))

bulk_strings_len : (a : Bytes) (more : List Bytes) → 2 ≤ length (bulk_strings (a ∷ more))
bulk_strings_len a more =
    omega (arith, length-append {0} (write_bulk_string a) (bulk_strings more), length-bulk a)

nonempty_len : (args : List Bytes) → 0 < length args → 2 ≤ length (bulk_strings args)
nonempty_len [] h = absurd (omega arith)
nonempty_len (a ∷ more) h = bulk_strings_len a more

-- `parse_resp_request` undoes the writers: where the received bytes begin with what
-- `write_array_header` and `write_bulk_string` write for 1 to 64 arguments, it succeeds, consumes
-- exactly these bytes, and its offsets and lengths point at the arguments.
pub parse_resp_request-request :
    (mem : Memory) (start size : ℕ) (args : List Bytes)
    → Holds mem start (request args)
    → 0 < length args
    → length args ≤ max_argc
    → length (request args) ≤ size
    → start + size < 2 ^ 64
    → (r : CmdArgs) × (parse_resp_request mem start size ≡ ok r)
      × (r.argc ≡ length args)
      × (r.len ≡ length (request args))
      × (arguments mem r ≡ args)
unfolding parse_resp_request add_args
parse_resp_request-request mem start size args held some_arg few inside low =
    let n : ℕ = length args in
    let k : ℕ = length (decimal n) in
    let body : ℕ = start + (k + 3) in
    let (digits, cr, rest) = header-Holds mem start n (bulk_strings args) held in
    let size_is = length-append {0} (write_array_header n) (bulk_strings args) in
    let head_is = length-header n in
    let small : n < 2 ^ 64 = omega arith in
    let end : ℕ = start + size in
    let e : add_size start size ≡ end = omega arith in
    let read : parse_number mem (start + 1) end ≡ ok (body, n) =
      parse_number-value mem (start + 1) end (start + 1 + k) (decimal n) (decimal-IsDigit n small)
        digits (omega (arith, value-decimal n small)) refl cr
        (omega (arith, nonempty_len args some_arg)) low
      ∙ ground (arith, value-decimal n small) in
    let loop =
      parse_args-bulk mem start end low args body (record no_args { argc = n }) rest (omega arith)
        (omega arith) in
    let room : body + 2 ≤ end = omega (arith, nonempty_len args some_arg) in
    let e₁ : add_size start 1 ≡ start + 1 = omega arith in
    let e₂ : (start == end) ≡ false = ==_of_lt start end (omega arith) in
    let e₃ : add_size body 2 ≡ body + 2 = omega arith in
    let e₄ : sub_size (body + length (bulk_strings args)) start ≡ length (request args) =
      omega arith in
    (
      record {
        buf = start;
        argc = n;
        len = length (request args);
        offsets = offsets_from mem start end low body args;
        lens = map length args;
      },
      rw (e, e₂, e₁, read, ltb-false max_argc n few, e₃, ltb-false end (body + 2) room, loop, e₄),
      refl,
      refl,
      arguments_at-bulk mem start end low args body rest (omega arith) (omega arith),
    )
