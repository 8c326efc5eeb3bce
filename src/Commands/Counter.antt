-- ===== src/Commands/Counter.antt =====
-- `try_parse_signed_integer` and `try_modify_counter` of src/include/commands.c. An `int64_t` is the
-- word of its bits.
pub mod RoundTrip
pub mod Sum
use ghetto_redis.Prelude.{
  ℕ, ◌+◌, ◌-◌, ◌*◌, ◌%◌, ◌^◌, ◌==◌, leb, if◌then◌else◌, List, [], ◌∷◌, Bool, true, false, ◌&&◌,
  ◌||◌, Option, none, some,
}
use ghetto_redis.Prelude.Words.{Bytes}
use ghetto_redis.Prelude.Int64.{negate, add_int64, decimal_int64}
use ghetto_redis.HashMap.{HashMap}
use ghetto_redis.Kv.{Entry}

abbrev pub is_digit : ℕ → Bool
is_digit b = leb b'0' b && leb b b'9'

-- The `while` loop from `res`, and the test `pos != len` behind it: all bytes must be digits.
unfoldable pub parse_digits : ℕ → Bytes → Option ℕ
parse_digits res [] = some res
parse_digits res (b ∷ bs) =
    let rest = parse_digits (add_int64 (res * 10 % 2 ^ 64) (b - b'0')) bs in
    if is_digit b then rest else none

-- What goes through `result`, if the return value is true. Of empty text the code reads the byte
-- behind it, which is the CR of the request; the model takes that it is no sign.
unfoldable pub try_parse_signed_integer : Bytes → Option ℕ
unfolding parse_digits
try_parse_signed_integer [] = some 0
try_parse_signed_integer (b ∷ bs) =
    if b == b'-' || b == b'+'
    then elim (parse_digits 0 bs) [
      | none ↦ none
      | some r ↦ some (if b == b'-' then negate r else r)
    ]
    else parse_digits 0 (b ∷ bs)

module _ (h : HashMap Entry (λ e. e.key)) where
  open h use {Map, get_with_hash, set_with_hash}

  -- The value that the counter starts from; `none` if the stored text is no integer.
  unfoldable pub counter_value : Option Entry → Option ℕ
  unfolding try_parse_signed_integer
  counter_value none = some 0
  counter_value (some e) = try_parse_signed_integer e.val

  -- The database, with what goes through `res` if the return value is true.
  unfoldable pub try_modify_counter : Map → (key : Bytes) → (hash delta : ℕ) → Map × Option ℕ
  unfolding counter_value
  try_modify_counter db key hash delta = elim (counter_value (get_with_hash db key hash)) [
    | none ↦ (db, none)
    | some val ↦
        let sum = add_int64 val delta in
        ((set_with_hash db (record { key = key; val = decimal_int64 sum }) hash).0, some sum)
  ]
