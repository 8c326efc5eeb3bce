-- ===== src/Kv/Compare.antt =====
-- What the comparison and the hash of entries decide.
use ghetto_redis.Prelude.{
  ℕ, ◌+◌, ◌*◌, ◌%◌, ◌^◌, ◌<◌, ◌≡◌, ◌↔◌, ◌≢◌, [], ◌∷◌, length, arith, ==_iff, ◌==◌, Bool-cases, inl,
  inr, ap, ◌∙◌,
}
use ghetto_redis.Prelude.Words.{Bytes}
use ghetto_redis.Kv.{Entry, memcmp, entry_compare, hash_loop, entry_hash}

memcmp_iff : (xs ys : Bytes) → length xs ≡ length ys → (memcmp xs ys (length xs) ≡ 0) ↔ (xs ≡ ys)
memcmp_iff [] [] h = ground arith
memcmp_iff (x ∷ xs) (y ∷ ys) h = ground (arith, memcmp_iff xs ys)
memcmp_iff [] (y ∷ ys) h = absurd (omega arith)
memcmp_iff (x ∷ xs) [] h = absurd (omega arith)

-- For keys shorter than 2^32 bytes `entry_compare` returns 0 exactly on entries with the same key.
pub entry_compare_iff :
    (a b : Entry)
    → length a.key < 2 ^ 32
    → length b.key < 2 ^ 32
    → (entry_compare a b ≡ 0) ↔ (a.key ≡ b.key)
unfolding entry_compare
entry_compare_iff a b ha hb = elim (Bool-cases (length a.key == length b.key)) [
  | inl same ↦ rw same (memcmp_iff a.key b.key ((==_iff _ _).0 same))
  | inr differ ↦
      let ne : length a.key ≢ length b.key = ground arith in
      rw differ (λ z. absurd (omega (arith, ne)), λ e. absurd (ne (ap length e)))
]

-- The base-31 number with the bytes as digits, read onto `hash`.
abbrev pub polynomial : ℕ → Bytes → ℕ
polynomial hash [] = hash
polynomial hash (b ∷ bs) = polynomial (hash * 31 + b) bs

polynomial-mod :
    (h g : ℕ) (bs : Bytes)
    → h % 2 ^ 64 ≡ g % 2 ^ 64
    → polynomial h bs % 2 ^ 64 ≡ polynomial g bs % 2 ^ 64
polynomial-mod h g [] e = e
polynomial-mod h g (b ∷ bs) e = polynomial-mod (h * 31 + b) (g * 31 + b) bs (omega arith)

hash_loop-polynomial :
    (hash : ℕ) (bs : Bytes) → hash < 2 ^ 64 → hash_loop hash bs ≡ polynomial hash bs % 2 ^ 64
hash_loop-polynomial hash [] h = omega arith
hash_loop-polynomial hash (b ∷ bs) h =
    hash_loop-polynomial ((hash * 31 + b) % 2 ^ 64) bs (omega arith)
    ∙ polynomial-mod ((hash * 31 + b) % 2 ^ 64) (hash * 31 + b) bs (omega arith)

-- `entry_hash` is the base-31 number of the key's bytes, modulo 2^64: the wrapping of each round
-- loses nothing else.
pub entry_hash-polynomial : (a : Entry) → entry_hash a ≡ polynomial 0 a.key % 2 ^ 64
unfolding entry_hash
entry_hash-polynomial a = hash_loop-polynomial 0 a.key (omega arith)
