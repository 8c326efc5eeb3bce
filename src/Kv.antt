-- ===== src/Kv.antt =====
-- Keys and values: src/include/kv.c and src/include/kv.h. A byte string stands for a pointer with
-- its length; `malloc`, `free` and `entry_free` change no value and are left out.
pub mod Compare
use ghetto_redis.Prelude.{
  ℕ, zero, suc, ◌+◌, ◌-◌, ◌*◌, ◌%◌, ◌^◌, ◌==◌, ltb, if◌then◌else◌, List, [], ◌∷◌, length,
}
use ghetto_redis.Prelude.Words.{Bytes}

pub record Entry : Type 0 where
  pub key : Bytes
  pub val : Bytes

-- `memcmp` over the first `n` bytes: 0 if they agree, or the sign at the first difference, as
-- a 32-bit word (2^32 - 1 is -1).
abbrev pub memcmp : Bytes → Bytes → ℕ → ℕ
memcmp (x ∷ xs) (y ∷ ys) (suc n) =
    let rest = memcmp xs ys n in if x == y then rest else if ltb x y then 2 ^ 32 - 1 else 1
memcmp _ _ _ = 0

-- The returned `int` is the low 32 bits of the difference of the lengths.
unfoldable pub entry_compare : Entry → Entry → ℕ
entry_compare a b =
    if length a.key == length b.key
    then memcmp a.key b.key (length a.key)
    else (length a.key + 2 ^ 64 - length b.key) % 2 ^ 32

-- The `for` loop of `entry_hash`.
abbrev pub hash_loop : ℕ → Bytes → ℕ
hash_loop hash [] = hash
hash_loop hash (b ∷ bs) = hash_loop ((hash * 31 + b) % 2 ^ 64) bs

unfoldable pub entry_hash : Entry → ℕ
entry_hash a = hash_loop 0 a.key
