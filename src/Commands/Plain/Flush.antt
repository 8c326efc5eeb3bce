-- ===== src/Commands/Plain/Flush.antt =====
-- What FLUSHALL leaves in the databases.
use ghetto_redis.Prelude.{
  ℕ, zero, suc, ◌+◌, ◌≤◌, ◌<◌, ◌≡◌, refl, ◌∙◌, ap, ◌==◌, ==_self, ==_iff, ◌&&◌, false, Bool-cases,
  inl, inr, none, arith,
}
use ghetto_redis.Prelude.Words.{Bytes}
use ghetto_redis.HashMap.{HashMap}
use ghetto_redis.Kv.{Entry}
use ghetto_redis.Commands.State.{World, set_db}
use ghetto_redis.Commands.Plain.{flush_dbs, flush_shards, cmd_flushall}

module _ (h : HashMap Entry (λ e. e.key)) where
  open h use {Map, hash, clear, get_with_hash, get-clear}

  dbs-set_db_self : (i j : ℕ) (m : Map) (w : World Map) → ((set_db i j m w).shards i).dbs j ≡ m
  dbs-set_db_self i j m w = rw (==_self i, ==_self j)

  dbs-set_db_ne :
      (i j a b : ℕ) (m : Map) (w : World Map)
      → (a == i && b == j) ≡ false
      → ((set_db i j m w).shards a).dbs b ≡ (w.shards a).dbs b
  dbs-set_db_ne i j a b m w other = ground arith

  module _ (k : Bytes) (a b : ℕ) where
    -- The key is not in database `b` of shard `a`.
    abbrev Cleared : World Map → Type 0
    Cleared w = get_with_hash ((w.shards a).dbs b) k (hash k) ≡ none

    clear_db : (i j : ℕ) (w : World Map) → World Map
    clear_db i j w = set_db i j (clear ((w.shards i).dbs j)) w

    clear_db-here : (w : World Map) → Cleared (clear_db a b w)
    unfolding clear_db
    clear_db-here w =
        ap (λ m. get_with_hash m k (hash k)) (dbs-set_db_self a b (clear ((w.shards a).dbs b)) w)
        ∙ get-clear ((w.shards a).dbs b) k

    clear_db-keeps : (i j : ℕ) (w : World Map) → Cleared w → Cleared (clear_db i j w)
    unfolding clear_db
    clear_db-keeps i j w cleared = elim (Bool-cases (a == i && b == j)) [
      | inl here ↦
          let e₁ : i ≡ a = ground (arith, here) in
          let e₂ : j ≡ b = ground (arith, here) in rw (e₁, e₂) (clear_db-here w)
      | inr other ↦
          ap (λ m. get_with_hash m k (hash k))
            (dbs-set_db_ne i j a b (clear ((w.shards i).dbs j)) w other)
          ∙ cleared
    ]

    flush_dbs-keeps : (n i j : ℕ) (w : World Map) → Cleared w → Cleared (flush_dbs h n i j w)
    unfolding flush_dbs clear_db
    flush_dbs-keeps zero i j w cleared = cleared
    flush_dbs-keeps (suc n) i j w cleared =
        flush_dbs-keeps n i (j + 1) (clear_db i j w) (clear_db-keeps i j w cleared)

    flush_dbs-reaches :
        (n j : ℕ) (w : World Map) → j ≤ b → b < j + n → Cleared (flush_dbs h n a j w)
    unfolding flush_dbs clear_db
    flush_dbs-reaches zero j w from to = absurd (omega arith)
    flush_dbs-reaches (suc n) j w from to = elim (Bool-cases (j == b)) [
      | inl here ↦
          flush_dbs-keeps n a (j + 1) (clear_db a j w) (rw ((==_iff j b).0 here) (clear_db-here w))
      | inr later ↦
          flush_dbs-reaches n (j + 1) (clear_db a j w) (ground (arith, later)) (omega arith)
    ]

    flush_dbs-num_dbs : (n i j : ℕ) (w : World Map) → (flush_dbs h n i j w).num_dbs ≡ w.num_dbs
    unfolding flush_dbs
    flush_dbs-num_dbs zero i j w = refl
    flush_dbs-num_dbs (suc n) i j w =
        flush_dbs-num_dbs n i (j + 1) (set_db i j (clear ((w.shards i).dbs j)) w)

    flush_shards-keeps : (n i : ℕ) (w : World Map) → Cleared w → Cleared (flush_shards h n i w)
    unfolding flush_shards
    flush_shards-keeps zero i w cleared = cleared
    flush_shards-keeps (suc n) i w cleared =
        flush_shards-keeps n (i + 1) (flush_dbs h w.num_dbs i 0 w)
          (flush_dbs-keeps w.num_dbs i 0 w cleared)

    flush_shards-reaches :
        (n i : ℕ) (w : World Map)
        → i ≤ a
        → a < i + n
        → b < w.num_dbs
        → Cleared (flush_shards h n i w)
    unfolding flush_shards
    flush_shards-reaches zero i w from to inside = absurd (omega arith)
    flush_shards-reaches (suc n) i w from to inside = elim (Bool-cases (i == a)) [
      | inl here ↦
          flush_shards-keeps n (i + 1) (flush_dbs h w.num_dbs i 0 w)
            (rw ((==_iff i a).0 here) (flush_dbs-reaches w.num_dbs 0 w (omega arith) (omega arith)))
      | inr later ↦
          let same = flush_dbs-num_dbs w.num_dbs i 0 w in
          flush_shards-reaches n (i + 1) (flush_dbs h w.num_dbs i 0 w) (ground (arith, later))
            (omega arith) (rw same inside)
    ]

  -- After FLUSHALL no database of any shard holds any key.
  pub cmd_flushall-Cleared :
      (c : ℕ) (w : World Map) (a b : ℕ) (k : Bytes)
      → a < w.size
      → b < w.num_dbs
      → get_with_hash (((cmd_flushall h c w).shards a).dbs b) k (hash k) ≡ none
  unfolding cmd_flushall
  cmd_flushall-Cleared c w a b k shard_inside db_inside =
      flush_shards-reaches k a b w.size 0 w (omega arith) (omega arith) db_inside
