-- ===== src/Prelude/Int64.antt =====
-- `int64_t` as the word of its bits. Signed overflow is undefined in C: the words wrap, as the
-- compiled code does on the program's target.
use ghetto_redis.Prelude.Tests.{ltb, if◌then◌else◌}
use Prim.Native.Nat.{ℕ, ◌+◌, ◌-◌, ◌%◌, ◌^◌}
use mathlib.Core.List.{◌∷◌}
use mathlib.Core.Bool.{Bool}
use ghetto_redis.Prelude.Words.{Bytes}
use ghetto_redis.Prelude.Decimal.{decimal}

abbrev pub is_negative : ℕ → Bool
is_negative w = if ltb w (2 ^ 63) then Bool.false else Bool.true

abbrev pub negate : ℕ → ℕ
negate w = (2 ^ 64 - w) % 2 ^ 64

abbrev pub add_int64 : ℕ → ℕ → ℕ
add_int64 a b = (a + b) % 2 ^ 64

-- What `%ld` prints.
unfoldable pub decimal_int64 : ℕ → Bytes
decimal_int64 w = if is_negative w then b'-' ∷ decimal (2 ^ 64 - w) else decimal w
