-- ===== src/Protocol/Inline/Reads.antt =====
-- What the variables of `parse_inline_request` say of the bytes read so far.
use ghetto_redis.Prelude.{
  ℕ, zero, suc, ◌+◌, ◌^◌, ◌≤◌, ◌<◌, ◌≡◌, refl, sym, ap, ◌∙◌, List, [], ◌∷◌, ◌++◌, Bool, true, false,
  length, arith, length-append, Bool-cases, inl, inr,
}
use mathlib.Core.Path.{subst}
use mathlib.Core.List.{append-nil}
use ghetto_redis.Prelude.Words.{Memory, Bytes, add_size, slice}
use ghetto_redis.Protocol.{ok, err, CmdArgs, max_argc, parse_error_invalid_argc}
use ghetto_redis.Protocol.Resp.Layout.{arguments_at, arguments}
use ghetto_redis.Protocol.Inline.{Scan, close_arg, end_arg, arg_byte}
use ghetto_redis.Protocol.Inline.Words.{emit}

pub slice-concat :
    (mem : Memory) (p n : ℕ) → slice mem p (n + 1) ≡ slice mem p n ++ mem (p + n) ∷ []
slice-concat mem p zero = let e : p + 0 ≡ p = omega arith in rw e
slice-concat mem p (suc n) =
    let e : suc n + 1 ≡ suc (n + 1) = omega arith in
    let e' : p + suc n ≡ p + 1 + n = omega arith in
    rw (e, e') (ap (◌∷◌ (mem p)) (slice-concat mem (p + 1) n))

pub arguments_at-concat :
    (mem : Memory) (buf o l : ℕ) (os ls : List ℕ)
    → length os ≡ length ls
    → arguments_at mem buf (os ++ o ∷ []) (ls ++ l ∷ [])
      ≡ arguments_at mem buf os ls ++ slice mem (add_size buf o) l ∷ []
arguments_at-concat mem buf o l [] [] h = refl
arguments_at-concat mem buf o l (p ∷ os) (k ∷ ls) h =
    ap (◌∷◌ (slice mem (add_size buf p) k)) (arguments_at-concat mem buf o l os ls (omega arith))
arguments_at-concat mem buf o l [] (k ∷ ls) h = absurd (omega arith)
arguments_at-concat mem buf o l (p ∷ os) [] h = absurd (omega arith)

-- The finished arguments are `ws`.
pub record Finished (mem : Memory) (start : ℕ) (args : CmdArgs) (ws : List Bytes) : Type 0 where
  pub at : args.buf ≡ start
  pub same : length args.offsets ≡ length args.lens
  pub count : args.argc ≡ length ws
  pub items : arguments_at mem start args.offsets args.lens ≡ ws

-- The argument that is being read, if any, is `w`, and ends before `i`.
abbrev pub Current : Memory → ℕ → ℕ → Bool → Scan → Bytes → Type 0
Current mem start i true s w =
    (slice mem (start + s.offset) s.len ≡ w)
    × (s.offset + s.len ≡ i)
    × (0 < s.len)
    × (s.args.argc < max_argc)
Current mem start i false s w = w ≡ []

pub record Reads (mem : Memory) (start i : ℕ) (s : Scan) (ws : List Bytes) (w : Bytes) (cr : Bool)
    : Type 0 where
  pub finished : Finished mem start s.args ws
  pub few : s.args.argc ≤ max_argc
  pub current : Current mem start i s.in_arg s w
  pub seen : s.crlf ≡ cr

module _ (mem : Memory) (start : ℕ) where
  pub emit-slice : (p n : ℕ) {w : Bytes} → slice mem p n ≡ w → 0 < n → emit w ≡ w ∷ []
  emit-slice p zero e h = absurd (omega arith)
  emit-slice p (suc n) e h = rw (← e)

  -- Closing an argument finishes the word that was being read.
  pub close_arg-Finished :
      (s : Scan) (ws : List Bytes) (w : Bytes)
      → Finished mem start s.args ws
      → start + s.offset < 2 ^ 64
      → slice mem (start + s.offset) s.len ≡ w
      → Finished mem start (close_arg s) (ws ++ w ∷ [])
  unfolding close_arg
  close_arg-Finished s ws w f low e = record {
    at = f.at;
    same = omega (
      arith,
      f.same,
      length-append {0} s.args.offsets (s.offset ∷ []),
      length-append {0} s.args.lens (s.len ∷ []),
    );
    count = omega (arith, f.count, length-append {0} ws (w ∷ []));
    items =
        let e' : add_size start s.offset ≡ start + s.offset = omega arith in
        arguments_at-concat mem start s.offset s.len s.args.offsets s.args.lens f.same
        ∙ rw (f.items, e', e);
  }

  pub end_arg_reading :
      (s : Scan) → s.in_arg ≡ true → end_arg s ≡ record s { args = close_arg s; in_arg = false }
  unfolding end_arg
  end_arg_reading s h = ground arith

  pub end_arg_idle : (s : Scan) → s.in_arg ≡ false → end_arg s ≡ s
  unfolding end_arg
  end_arg_idle s h = ground arith

  pub argc-close_arg : (s : Scan) → (close_arg s).argc ≡ s.args.argc + 1
  unfolding close_arg
  argc-close_arg s = refl

  -- A separator closes the word, if there is one.
  pub end_arg-Reads :
      (i : ℕ) (s : Scan) (ws : List Bytes) (w : Bytes) (cr : Bool)
      → Reads mem start i s ws w cr
      → start + i < 2 ^ 64
      → Reads mem start (i + 1) (end_arg s) (ws ++ emit w) [] cr
  end_arg-Reads i s ws w cr r low = elim (Bool-cases s.in_arg) [
    | inl reading ↦
        let (e, ends, some_byte, room) = subst (λ b. Current mem start i b s w) reading r.current in
        rw (end_arg_reading s reading, emit-slice (start + s.offset) s.len e some_byte)
          (record {
            finished = close_arg-Finished s ws w r.finished (omega arith) e;
            few = omega (arith, argc-close_arg s);
            current = refl;
            seen = r.seen;
          })
    | inr idle ↦
        let none_read = subst (λ b. Current mem start i b s w) idle r.current in
        rw (end_arg_idle s idle, none_read, append-nil ws)
          (record {
            finished = r.finished;
            few = r.few;
            current = subst (λ b. Current mem start (i + 1) b s []) (sym idle) refl;
            seen = r.seen;
          })
  ]

  -- The next byte extends the word that is being read.
  pub arg_byte_reading :
      (i b : ℕ) (s : Scan) (ws : List Bytes) (w : Bytes) (cr : Bool)
      → Reads mem start i s ws w cr
      → mem (start + i) ≡ b
      → s.in_arg ≡ true
      → (s' : Scan) × (arg_byte i s ≡ ok s') × Reads mem start (i + 1) s' ws (w ++ b ∷ []) cr
  unfolding arg_byte
  arg_byte_reading i b s ws w cr r at reading =
      let (e, ends, some_byte, room) = subst (λ b. Current mem start i b s w) reading r.current in
      let here : start + s.offset + s.len ≡ start + i = omega arith in
      (
        record s { len = s.len + 1 },
        ground arith,
        record {
          finished = r.finished;
          few = r.few;
          current =
              subst (λ x. Current mem start (i + 1) x (record s { len = s.len + 1 }) (w ++ b ∷ []))
                (sym reading)
                (
                  slice-concat mem (start + s.offset) s.len ∙ rw (e, here, at),
                  omega arith,
                  omega arith,
                  room,
                );
          seen = r.seen;
        },
      )

  -- The next byte begins a word, if there is room for one.
  pub arg_byte_idle :
      (i b : ℕ) (s : Scan) (ws : List Bytes) (w : Bytes) (cr : Bool)
      → Reads mem start i s ws w cr
      → mem (start + i) ≡ b
      → s.in_arg ≡ false
      → length ws < max_argc
      → (s' : Scan) × (arg_byte i s ≡ ok s') × Reads mem start (i + 1) s' ws (w ++ b ∷ []) cr
  unfolding arg_byte
  arg_byte_idle i b s ws w cr r at idle room =
      let none_read = subst (λ b. Current mem start i b s w) idle r.current in
      let count = r.finished.count in
      (
        record s { offset = i; len = 1; in_arg = true },
        ground arith,
        record {
          finished = r.finished;
          few = r.few;
          current = (rw (none_read, at), refl, omega arith, omega arith);
          seen = r.seen;
        },
      )

  pub arg_byte_full :
      (i : ℕ) (s : Scan) (ws : List Bytes) (w : Bytes) (cr : Bool)
      → Reads mem start i s ws w cr
      → s.in_arg ≡ false
      → max_argc ≤ length ws
      → arg_byte i s ≡ err parse_error_invalid_argc
  unfolding arg_byte
  arg_byte_full i s ws w cr r idle full = ground (arith, r.finished.count, r.few)

  pub Finished-arguments :
      (args : CmdArgs) (ws : List Bytes) → Finished mem start args ws → arguments mem args ≡ ws
  Finished-arguments args ws f = rw f.at f.items
