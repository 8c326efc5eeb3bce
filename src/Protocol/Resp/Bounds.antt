-- ===== src/Protocol/Resp/Bounds.antt =====
-- What an accepted request guarantees to the commands: how many arguments there are, and that they
-- lie within the received bytes as long as no declared length makes `cur + arglen` wrap.
use ghetto_redis.Prelude.{
  ℕ, zero, suc, ◌+◌, ◌-◌, ◌^◌, ◌≤◌, ◌<◌, ◌≡◌, refl, ap, false, arith, List, [], ◌∷◌, ◌++◌, length,
  All, length-append, ltb, ◌==◌,
}
use ghetto_redis.Prelude.Words.{Memory, add_size, sub_size}
use ghetto_redis.Protocol.{Parsed, ok, err, CmdArgs, no_args, max_argc, bind-eq-ok}
use ghetto_redis.Protocol.Number.{parse_number}
use ghetto_redis.Protocol.Number.Bounds.{parse_number_bounds}
use ghetto_redis.Protocol.Resp.{add_arg, parse_arg, parse_args, parse_resp_request}

-- Each argument, with the CRLF behind it, ends within the first `n` bytes.
abbrev pub Fits : ℕ → List ℕ → List ℕ → Type 0
Fits n [] [] = Unit
Fits n (o ∷ os) (l ∷ ls) = (o + l + 2 ≤ n) × Fits n os ls
Fits n _ _ = ⊥

Fits-mono : (m n : ℕ) (os ls : List ℕ) → m ≤ n → Fits m os ls → Fits n os ls
Fits-mono m n [] [] h f = tt
Fits-mono m n (o ∷ os) (l ∷ ls) h f = (omega arith, Fits-mono m n os ls h f.1)
Fits-mono m n [] (l ∷ ls) h f = f
Fits-mono m n (o ∷ os) [] h f = f

Fits-concat :
    (n o l : ℕ) (os ls : List ℕ)
    → Fits n os ls
    → o + l + 2 ≤ n
    → Fits n (os ++ o ∷ []) (ls ++ l ∷ [])
Fits-concat n o l [] [] f h = (h, tt)
Fits-concat n o l (p ∷ os) (k ∷ ls) f h = (f.0, Fits-concat n o l os ls f.1 h)
Fits-concat n o l [] (k ∷ ls) f h = absurd f
Fits-concat n o l (p ∷ os) [] f h = absurd f

abbrev pub Small : ℕ → Type 0
Small l = l < 2 ^ 62

All-init : (l : ℕ) (ls : List ℕ) → All Small (ls ++ l ∷ []) → All Small ls × Small l
All-init l [] h = (tt, h.0)
All-init l (k ∷ ls) h = let (front, last) = All-init l ls h.1 in ((h.0, front), last)

-- What one round of the loop returns.
record Round (mem : Memory) (start end cur : ℕ) (args : CmdArgs) (next : ℕ) (r : CmdArgs)
    : Type 0 where
  q : ℕ
  l : ℕ
  read : parse_number mem (add_size cur 1) end ≡ ok (q, l)
  ne_end : (cur == end) ≡ false
  inside : ltb end (add_size (add_size q l) 2) ≡ false
  next_is : add_size (add_size q l) 2 ≡ next
  result : add_arg args (sub_size q start) l ≡ r

module _ (mem : Memory) (start end : ℕ) where
  parse_arg-Round :
      (cur : ℕ) (args : CmdArgs) {next : ℕ} {r : CmdArgs}
      → parse_arg mem start end cur args ≡ ok (next, r)
      → Round mem start end cur args next r
  unfolding parse_arg
  parse_arg-Round cur args {next} {r} h = by_number (parse_number mem (add_size cur 1) end) refl
    where
      by_number :
          (x : Parsed (ℕ × ℕ))
          → parse_number mem (add_size cur 1) end ≡ x
          → Round mem start end cur args next r
      by_number (err _) e = ground arith
      by_number (ok (q, l)) e = record {
        q = q;
        l = l;
        read = e;
        ne_end = ground arith;
        inside = ground arith;
        next_is = ground arith;
        result = ground arith;
      }

  -- What a successful loop did in its first round.
  abbrev after_round : ℕ → ℕ × CmdArgs → Parsed (ℕ × CmdArgs)
  after_round n (cur, args) = parse_args mem start end n cur args

  -- The loop adds an entry to each array in every round.
  parse_args-length :
      (n cur : ℕ) (args : CmdArgs) {next : ℕ} {r : CmdArgs}
      → parse_args mem start end n cur args ≡ ok (next, r)
      → (length r.offsets ≡ length args.offsets + n)
        × (length r.lens ≡ length args.lens + n)
        × (r.argc ≡ args.argc)
  unfolding parse_args
  parse_args-length zero cur args h = ground arith
  parse_args-length (suc n) cur args h =
      let ((cur', args'), e, h') =
        bind-eq-ok (parse_arg mem start end cur args) (after_round n) h in
      let one = parse_arg-Round cur args e in
      ground (
        arith,
        parse_args-length n cur' args' h',
        one.result,
        length-append {0} args.offsets (sub_size one.q start ∷ []),
        length-append {0} args.lens (one.l ∷ []),
      )

  -- Lengths that are small at the end were small all along.
  parse_args-Small :
      (n cur : ℕ) (args : CmdArgs) {next : ℕ} {r : CmdArgs}
      → parse_args mem start end n cur args ≡ ok (next, r)
      → All Small r.lens
      → All Small args.lens
  unfolding parse_args
  parse_args-Small zero cur args {next} {r} h s =
      let e : r ≡ args = ground arith in rw (ap (λ a. a.lens) e) at s
  parse_args-Small (suc n) cur args {next} {r} h s =
      let ((cur', args'), e, h') =
        bind-eq-ok (parse_arg mem start end cur args) (after_round n) h in
      let one = parse_arg-Round cur args e in
      (All-init one.l args.lens
        (rw (ap (λ a. a.lens) one.result) (parse_args-Small n cur' args' h' s))).0

  -- One round keeps the arguments within the bytes read so far.
  Round-Fits :
      (cur : ℕ) (args : CmdArgs) {next : ℕ} {r : CmdArgs}
      → Round mem start end cur args next r
      → All Small r.lens
      → start ≤ cur
      → cur ≤ end
      → end + 3 < 2 ^ 62
      → Fits (cur - start) args.offsets args.lens
      → (cur ≤ next) × (next ≤ end) × Fits (next - start) r.offsets r.lens
  Round-Fits cur args {next} {r} one s after before low f =
      let small : Small one.l = (All-init one.l args.lens (rw (ap (λ a. a.lens) one.result) s)).1 in
      let e : add_size cur 1 ≡ cur + 1 = omega arith in
      let ne : cur + 1 ≤ end = ground (arith, one.ne_end) in
      let (more, within, _) =
        parse_number_bounds mem (cur + 1) end ne (omega arith) (rw e at one.read) in
      let next_is : one.q + one.l + 2 ≡ next = omega (arith, one.next_is) in
      let last : next ≤ end = ground (arith, one.inside, one.next_is) in
      let o_is : sub_size one.q start ≡ one.q - start = omega arith in
      (
        omega arith,
        last,
        rw (← one.result) (
            Fits-concat (next - start) (sub_size one.q start) one.l args.offsets args.lens
              (Fits-mono (cur - start) (next - start) args.offsets args.lens (omega arith) f)
              (omega arith)),
      )

  parse_args-Fits :
      (n cur : ℕ) (args : CmdArgs) {next : ℕ} {r : CmdArgs}
      → parse_args mem start end n cur args ≡ ok (next, r)
      → All Small r.lens
      → start ≤ cur
      → cur ≤ end
      → end + 3 < 2 ^ 62
      → Fits (cur - start) args.offsets args.lens
      → (cur ≤ next) × (next ≤ end) × Fits (next - start) r.offsets r.lens
  unfolding parse_args
  parse_args-Fits zero cur args {next} {r} h s after before low f =
      let e₁ : cur ≡ next = cc in
      let e₂ : args ≡ r = cc in (omega arith, omega arith, rw (← e₁, ← e₂) f)
  parse_args-Fits (suc n) cur args h s after before low f =
      let ((cur', args'), e, h') =
        bind-eq-ok (parse_arg mem start end cur args) (after_round n) h in
      let (more, within, f') =
        Round-Fits cur args (parse_arg-Round cur args e) (parse_args-Small n cur' args' h' s) after
          before low f in
      let (on, last, f'') = parse_args-Fits n cur' args' h' s (omega arith) within low f' in
      (omega arith, last, f'')

-- What an accepted request went through.
record Accepted (mem : Memory) (start end : ℕ) (r : CmdArgs) : Type 0 where
  cur : ℕ
  argc : ℕ
  next : ℕ
  args : CmdArgs
  read : parse_number mem (add_size start 1) end ≡ ok (cur, argc)
  ne_end : (start == end) ≡ false
  few : ltb max_argc argc ≡ false
  loop : parse_args mem start end argc cur (record no_args { argc = argc }) ≡ ok (next, args)
  result : record args { buf = start; len = sub_size next start } ≡ r

Accepted-of_ok :
    (mem : Memory) (start size : ℕ) {r : CmdArgs}
    → parse_resp_request mem start size ≡ ok r
    → Accepted mem start (add_size start size) r
unfolding parse_resp_request
Accepted-of_ok mem start size {r} h = by_number (parse_number mem (add_size start 1) end) refl
  where
    end : ℕ
    end = add_size start size

    by_loop :
        (cur argc : ℕ) (x : Parsed (ℕ × CmdArgs))
        → parse_number mem (add_size start 1) end ≡ ok (cur, argc)
        → parse_args mem start end argc cur (record no_args { argc = argc }) ≡ x
        → Accepted mem start end r
    by_loop cur argc (err _) e l = ground arith
    by_loop cur argc (ok (next, args)) e l = record {
      cur = cur;
      argc = argc;
      next = next;
      args = args;
      read = e;
      ne_end = ground arith;
      few = ground arith;
      loop = l;
      result = ground arith;
    }

    by_number :
        (x : Parsed (ℕ × ℕ))
        → parse_number mem (add_size start 1) end ≡ x
        → Accepted mem start end r
    by_number (err _) e = ground arith
    by_number (ok (cur, argc)) e =
        by_loop cur argc (parse_args mem start end argc cur (record no_args { argc = argc })) e refl

-- An accepted request has at most 64 arguments, and `parse_resp_request` fills in an offset and a
-- length for each of them.
pub parse_resp_request_arity :
    (mem : Memory) (start size : ℕ) {r : CmdArgs}
    → parse_resp_request mem start size ≡ ok r
    → (r.argc ≤ max_argc) × (length r.offsets ≡ r.argc) × (length r.lens ≡ r.argc)
parse_resp_request_arity mem start size h =
    let a = Accepted-of_ok mem start size h in
    let (os, ls, c) =
      parse_args-length mem start (add_size start size) a.argc a.cur
        (record no_args { argc = a.argc }) a.loop in
    ground (arith, a.few, a.result)

-- If no declared length reaches 2^62, an accepted request consumes some bytes; its arguments, each
-- with its CRLF, lie within these bytes, and these within the received ones.
pub parse_resp_request_bounds :
    (mem : Memory) (start size : ℕ) {r : CmdArgs}
    → parse_resp_request mem start size ≡ ok r
    → All Small r.lens
    → start + size + 3 < 2 ^ 62
    → (0 < r.len) × (r.len ≤ size) × Fits r.len r.offsets r.lens
parse_resp_request_bounds mem start size {r} h s low =
    let a = Accepted-of_ok mem start size h in
    let end : ℕ = add_size start size in
    let e : add_size start size ≡ start + size = omega arith in
    let e₁ : add_size start 1 ≡ start + 1 = omega arith in
    let (more, within, _) =
      parse_number_bounds mem (start + 1) end (ground (arith, a.ne_end)) (omega arith)
        (rw e₁ at a.read) in
    let (first, last, f) =
      parse_args-Fits mem start end a.argc a.cur (record no_args { argc = a.argc }) a.loop
        (rw (← ap (λ x. x.lens) a.result) at s) (omega arith) within (omega arith) tt in
    let len_is : sub_size a.next start ≡ a.next - start = omega arith in
    let r_len : r.len ≡ a.next - start = ground (arith, a.result) in
    (omega arith, omega arith, rw (r_len, ← a.result) f)
