-- ===== src/Protocol/Inline/Words.antt =====
-- What an inline request means, on the received bytes as a list: the words of its first line.
use ghetto_redis.Prelude.{
  ℕ, suc, ◌+◌, ◌≤◌, ◌≡◌, refl, ltb, ◌==◌, if◌then◌else◌, List, [], ◌∷◌, ◌++◌, Bool, true, false,
  ◌||◌, length, arith,
}
use mathlib.Core.List.{append_assoc}
use ghetto_redis.Prelude.Words.{Bytes}
use ghetto_redis.Protocol.{
  Parsed, ok, err, parse_error, parse_error_invalid_argc, parse_incomplete, max_argc,
}

abbrev pub is_separator : ℕ → Bool
is_separator b = b == b' ' || b == b'\r'

-- The word read so far, if there is one.
abbrev pub emit : Bytes → List Bytes
emit [] = []
emit (b ∷ bs) = (b ∷ bs) ∷ []

-- The words of a line, `w` being read already of the first.
abbrev pub words_from : Bytes → Bytes → List Bytes
words_from w [] = emit w
words_from w (b ∷ bs) =
    let skip = words_from [] bs in
    let more = words_from (w ++ b ∷ []) bs in if is_separator b then emit w ++ skip else more

abbrev pub words : Bytes → List Bytes
words = words_from []

-- The bytes before the first newline.
abbrev pub line_of : Bytes → Bytes
line_of [] = []
line_of (b ∷ bs) = let rest = line_of bs in if b == b'\n' then [] else b ∷ rest

abbrev pub contains : ℕ → Bytes → Bool
contains c [] = false
contains c (b ∷ bs) = b == c || contains c bs

-- The number of words, the words, and the number of bytes consumed.
abbrev pub first_line : (received : Bytes) → Parsed (ℕ × List Bytes × ℕ)
first_line received =
    let line = line_of received in
    if ltb max_argc (length (words line))
    then err parse_error_invalid_argc
    else if contains b'\n' received
    then (if contains b'\r' line
        then ok (length (words line), words line, length line + 1)
        else err parse_error)
    else err parse_incomplete

-- The same in the middle of the line: `ws` are the words read, `w` is what is read of the next,
-- `i` bytes are read, and `cr` says whether a carriage return was among them.
abbrev pub first_line_from : ℕ → List Bytes → Bytes → Bool → Bytes → Parsed (ℕ × List Bytes × ℕ)
first_line_from i ws w cr received =
    let line = line_of received in
    if ltb max_argc (length (ws ++ words_from w line))
    then err parse_error_invalid_argc
    else if contains b'\n' received
    then (if cr || contains b'\r' line
        then ok (length (ws ++ words_from w line), ws ++ words_from w line, i + length line + 1)
        else err parse_error)
    else err parse_incomplete

-- A word begun is one word at least.
pub words_from_len : (b : ℕ) (w bs : Bytes) → 1 ≤ length (words_from (b ∷ w) bs)
words_from_len b w [] = omega arith
words_from_len b w (c ∷ bs) = ground (arith, words_from_len b (w ++ c ∷ []) bs)

or-true : (b : Bool) → (b || true) ≡ true
or-true false = refl
or-true true = refl

-- How the meaning of a line depends on its first byte.
module _ (i : ℕ) (ws : List Bytes) (w : Bytes) (cr : Bool) (received : Bytes) where
  pub first_line_from_space :
      first_line_from i ws w cr (b' ' ∷ received)
      ≡ first_line_from (i + 1) (ws ++ emit w) [] cr received
  first_line_from_space =
      let e : i + suc (length (line_of received)) + 1 ≡ i + 1 + length (line_of received) + 1 =
        omega arith in
      rw (append_assoc ws (emit w) (words_from [] (line_of received)), e)

  pub first_line_from_cr :
      first_line_from i ws w cr (b'\r' ∷ received)
      ≡ first_line_from (i + 1) (ws ++ emit w) [] true received
  first_line_from_cr =
      let e : i + suc (length (line_of received)) + 1 ≡ i + 1 + length (line_of received) + 1 =
        omega arith in
      rw (append_assoc ws (emit w) (words_from [] (line_of received)), e, or-true cr)

  pub first_line_from_other :
      (b : ℕ)
      → (b == b' ') ≡ false
      → (b == b'\r') ≡ false
      → (b == b'\n') ≡ false
      → first_line_from i ws w cr (b ∷ received)
        ≡ first_line_from (i + 1) ws (w ++ b ∷ []) cr received
  first_line_from_other b space carriage newline =
      let e : i + suc (length (line_of received)) + 1 ≡ i + 1 + length (line_of received) + 1 =
        omega arith in
      rw (newline, space, carriage, e)
