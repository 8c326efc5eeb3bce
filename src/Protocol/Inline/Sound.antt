-- ===== src/Protocol/Inline/Sound.antt =====
-- `parse_inline_request` computes the words of the first line.
use ghetto_redis.Prelude.{
  ℕ, zero, suc, ◌+◌, ◌^◌, ◌≤◌, ◌<◌, ◌≡◌, refl, sym, ◌∙◌, ◌==◌, if◌then◌else◌, List, [], ◌∷◌, ◌++◌,
  Bool, true, false, length, arith, length-append, Bool-cases, inl, inr, ltb-true, ltb-false,
  ==_iff,
}
use mathlib.Core.Path.{subst}
use mathlib.Core.List.{append-nil}
use native.Mathlib.Decide.{dec_lt}
use native.Mathlib.Nat.{zero-add}
use ghetto_redis.Prelude.Words.{Memory, Bytes, slice}
use ghetto_redis.Protocol.{Parsed, ok, err, ◌>>=◌, CmdArgs, max_argc, parse_error}
use ghetto_redis.Protocol.Resp.Layout.{arguments}
use ghetto_redis.Protocol.Inline.{
  Scan, close_arg, end_arg, arg_byte, scan_loop, scan_end, initial, parse_inline_request,
}
use ghetto_redis.Protocol.Inline.Words.{
  emit, words_from, line_of, first_line, first_line_from, words_from_len, first_line_from_space,
  first_line_from_cr, first_line_from_other,
}
use ghetto_redis.Protocol.Inline.Reads.{
  Finished, Reads, Current, emit-slice, close_arg-Finished, end_arg-Reads, arg_byte_reading,
  arg_byte_idle, arg_byte_full, Finished-arguments,
}

-- A caller's view of the result: `argc`, the arguments, and the number of bytes consumed.
abbrev pub view : Memory → Parsed CmdArgs → Parsed (ℕ × List Bytes × ℕ)
view mem (ok r) = ok (r.argc, arguments mem r, r.len)
view mem (err e) = err e

module _ (mem : Memory) (start : ℕ) where
  -- The words read so far are at most 64.
  words_few :
      (i : ℕ) (s : Scan) (ws : List Bytes) (w : Bytes) (cr : Bool)
      → Reads mem start i s ws w cr
      → length (ws ++ emit w) ≤ max_argc
  words_few i s ws w cr r = elim (Bool-cases s.in_arg) [
    | inl reading ↦
        let (e, ends, some_byte, room) = subst (λ b. Current mem start i b s w) reading r.current in
        rw (emit-slice mem start (start + s.offset) s.len e some_byte)
          (omega (arith, r.finished.count, length-append {0} ws (w ∷ [])))
    | inr idle ↦
        rw (subst (λ b. Current mem start i b s w) idle r.current, append-nil ws)
          (omega (arith, r.finished.count, r.few))
  ]

  Finished-ok :
      (args : CmdArgs) (ws : List Bytes) (n : ℕ)
      → Finished mem start args ws
      → ◌≡◌ {A = Parsed (ℕ × List Bytes × ℕ)}
          (ok (args.argc, arguments mem args, n))
          (ok (length ws, ws, n))
  Finished-ok args ws n f = rw (f.count, Finished-arguments mem start args ws f) refl

  -- At the newline the words are those read so far.
  scan_end-words :
      (i : ℕ) (s : Scan) (ws : List Bytes) (w : Bytes) (cr : Bool)
      → Reads mem start i s ws w cr
      → start + i < 2 ^ 64
      → view mem (scan_end (i, true, record s { crlf = false }))
        ≡ ok (length (ws ++ emit w), ws ++ emit w, i + 1)
  unfolding scan_end
  scan_end-words i s ws w cr r low = elim (Bool-cases s.in_arg) [
    | inl reading ↦
        let (e, ends, some_byte, room) = subst (λ b. Current mem start i b s w) reading r.current in
        let f = close_arg-Finished mem start s ws w r.finished (omega arith) e in
        rw (reading, emit-slice mem start (start + s.offset) s.len e some_byte)
          (Finished-ok (close_arg s) (ws ++ w ∷ []) (i + 1) f)
    | inr idle ↦
        let none_read = subst (λ b. Current mem start i b s w) idle r.current in
        rw (idle, none_read, append-nil ws) (Finished-ok s.args ws (i + 1) r.finished)
  ]

  keep-Current :
      (i : ℕ) (s : Scan) (w : Bytes)
      → Current mem start i s.in_arg s w
      → Current mem start i s.in_arg (record s { crlf = true }) w
  keep-Current i s w c = elim (Bool-cases s.in_arg) [
    | inl reading ↦
        subst (λ b. Current mem start i b (record s { crlf = true }) w) (sym reading)
          (subst (λ b. Current mem start i b s w) reading c)
    | inr idle ↦
        subst (λ b. Current mem start i b (record s { crlf = true }) w) (sym idle)
          (subst (λ b. Current mem start i b s w) idle c)
  ]

  newline_case :
      (i : ℕ) (s : Scan) (ws : List Bytes) (w : Bytes) (cr : Bool) (xs : Bytes)
      → Reads mem start i s ws w cr
      → start + i < 2 ^ 64
      → view mem (
          (if s.crlf then ok (i, true, record s { crlf = false }) else err parse_error)
          >>= scan_end)
        ≡ first_line_from i ws w cr (b'\n' ∷ xs)
  newline_case i s ws w cr xs r low =
      let few = ltb-false max_argc (length (ws ++ emit w)) (words_few i s ws w cr r) in
      let last = scan_end-words i s ws w cr r low in
      let e : i + 0 + 1 ≡ i + 1 = omega arith in
      elim (Bool-cases s.crlf) [
        | inl yes_cr ↦ rw (← r.seen, yes_cr, few, e) last
        | inr no_cr ↦ rw (← r.seen, no_cr, few)
      ]

  arg_case :
      (i n b : ℕ) (s : Scan) (ws : List Bytes) (w : Bytes) (cr : Bool)
      → Reads mem start i s ws w cr
      → mem (start + i) ≡ b
      → ((s' : Scan)
          → Reads mem start (i + 1) s' ws (w ++ b ∷ []) cr
          → view mem (scan_loop mem start n (i + 1) s' >>= scan_end)
            ≡ first_line_from (i + 1) ws (w ++ b ∷ []) cr (slice mem (start + i + 1) n))
      → view mem ((arg_byte i s >>= λ s. scan_loop mem start n (i + 1) s) >>= scan_end)
        ≡ first_line_from (i + 1) ws (w ++ b ∷ []) cr (slice mem (start + i + 1) n)
  arg_case i n b s ws w cr r at rest = elim (Bool-cases s.in_arg) [
    | inl reading ↦
        let (s', step, r') = arg_byte_reading mem start i b s ws w cr r at reading in
        rw step (rest s' r')
    | inr idle ↦ elim (dec_lt (length ws) max_argc) [
      | yes room ↦
          let (s', step, r') = arg_byte_idle mem start i b s ws w cr r at idle room in
          rw step (rest s' r')
      | no full ↦
          let line : Bytes = line_of (slice mem (start + i + 1) n) in
          rw (
            arg_byte_full mem start i s ws w cr r idle (omega arith),
            subst (λ b. Current mem start i b s w) idle r.current,
            ltb-true max_argc (length (ws ++ words_from (b ∷ []) line)) (
                omega (
                  arith,
                  length-append {0} ws (words_from (b ∷ []) line),
                  words_from_len b [] line,
                )),
          )
    ]
  ]

  -- The rest of the line is read as the meaning of the line says.
  scan_loop-first_line :
      (n i : ℕ) (s : Scan) (ws : List Bytes) (w : Bytes) (cr : Bool)
      → Reads mem start i s ws w cr
      → start + i + n < 2 ^ 64
      → view mem (scan_loop mem start n i s >>= scan_end)
        ≡ first_line_from i ws w cr (slice mem (start + i) n)
  unfolding scan_loop scan_end
  scan_loop-first_line zero i s ws w cr r low =
      rw (ltb-false max_argc (length (ws ++ emit w)) (words_few i s ws w cr r))
  scan_loop-first_line (suc n) i s ws w cr r low =
      let b : ℕ = mem (start + i) in
      let xs : Bytes = slice mem (start + i + 1) n in
      let low' : start + (i + 1) + n < 2 ^ 64 = omega arith in
      let here : start + i < 2 ^ 64 = omega arith in
      let later : start + (i + 1) ≡ start + i + 1 = omega arith in
      elim (Bool-cases (b == b' ')) [
        | inl space ↦
            let at : b ≡ b' ' = (==_iff b b' ').0 space in
            let after = end_arg-Reads mem start i s ws w cr r here in
            rw at (
              scan_loop-first_line n (i + 1) (end_arg s) (ws ++ emit w) [] cr after low'
              ∙ rw (later, first_line_from_space i ws w cr xs))
        | inr not_space ↦ elim (Bool-cases (b == b'\r')) [
          | inl carriage ↦
              let at : b ≡ b'\r' = (==_iff b b'\r').0 carriage in
              let after = end_arg-Reads mem start i s ws w cr r here in
              rw at (
                scan_loop-first_line n (i + 1) (record (end_arg s) { crlf = true }) (ws ++ emit w)
                  [] true
                  (record {
                    finished = after.finished;
                    few = after.few;
                    current = keep-Current (i + 1) (end_arg s) [] after.current;
                    seen = refl;
                  })
                  low'
                ∙ rw (later, first_line_from_cr i ws w cr xs))
          | inr not_carriage ↦ elim (Bool-cases (b == b'\n')) [
            | inl newline ↦
                let at : b ≡ b'\n' = (==_iff b b'\n').0 newline in
                rw at (newline_case i s ws w cr xs r here)
            | inr not_newline ↦
                rw
                  (
                    first_line_from_other i ws w cr xs b not_space not_carriage not_newline,
                    not_space,
                    not_carriage,
                    not_newline,
                  )
                  (arg_case i n b s ws w cr r refl (λ s' r'.
                    scan_loop-first_line n (i + 1) s' ws (w ++ b ∷ []) cr r' low' ∙ rw later))
          ]
        ]
      ]

-- For any memory and any number of received bytes, `parse_inline_request` finds the arguments that
-- the first line means, with `argc` their number, and reports the same error or incompleteness
-- otherwise: the words between spaces and carriage returns, at most 64, on a line that holds a
-- carriage return.
pub parse_inline_request-first_line :
    (mem : Memory) (start size : ℕ)
    → start + size < 2 ^ 64
    → view mem (parse_inline_request mem start size) ≡ first_line (slice mem start size)
unfolding parse_inline_request
parse_inline_request-first_line mem start size low =
    let e : start + 0 ≡ start = omega arith in
    scan_loop-first_line mem start size 0 (initial start) [] [] false
      (record {
        finished = record { at = refl; same = refl; count = refl; items = refl };
        few = omega arith;
        current = refl;
        seen = refl;
      })
      (omega arith)
    ∙ rw (e, zero-add)
