-- ===== src/Mpmcq/Threads/Claims.antt =====
-- The claims of the threads when one of them goes on.
use ghetto_redis.Prelude.{
  ℕ, ◌≡◌, ◌⊎◌, refl, ◌==◌, ==_iff, ==_self, if◌then◌else◌, true, false, Option, some, Bool-cases,
  inl, inr, arith,
}
use ghetto_redis.Commands.State.{update}
use ghetto_redis.Mpmcq.Threads.{Phase}

-- No two threads claim the same position.
abbrev pub Unique : (Phase → Option ℕ) → (ℕ → Phase) → Type 0
Unique claim phase = (i j p : ℕ) → claim (phase i) ≡ some p → claim (phase j) ≡ some p → i ≡ j

abbrev pub Claimed : (Phase → Option ℕ) → (ℕ → Phase) → ℕ → Type 0
Claimed claim phase p = (i : ℕ) × (claim (phase i) ≡ some p)

module _ (claim : Phase → Option ℕ) (phase : ℕ → Phase) (i : ℕ) (next : Phase) where
  claim-update :
      (j : ℕ) → claim (update phase i next j) ≡ (if j == i then claim next else claim (phase j))
  claim-update j = elim (Bool-cases (j == i)) [ inl e ↦ rw e refl | inr e ↦ rw e refl ]

  -- What is claimed after the step was claimed before it, if the thread's own claim was.
  before :
      (j p : ℕ)
      → (claim next ≡ some p → claim (phase i) ≡ some p)
      → claim (update phase i next j) ≡ some p
      → claim (phase j) ≡ some p
  before j p own e = elim (Bool-cases (j == i)) [
    | inl here ↦
        let same = (==_iff j i).0 here in
        let e' : claim next ≡ some p = rw here at e in rw same (own e')
    | inr other ↦ rw other at e
  ]

  pub Unique-kept :
      ((p : ℕ) → claim next ≡ some p → claim (phase i) ≡ some p)
      → Unique claim phase
      → Unique claim (update phase i next)
  Unique-kept own unique j k p ej ek = unique j k p (before j p (own p) ej) (before k p (own p) ek)

  pub Unique-more :
      (q : ℕ)
      → claim next ≡ some q
      → (Claimed claim phase q → ⊥)
      → Unique claim phase
      → Unique claim (update phase i next)
  Unique-more q more new unique j k p ej ek = by_cases (Bool-cases (j == i)) (Bool-cases (k == i))
    where
      other_ne : (l : ℕ) → (l == i) ≡ false → claim (phase l) ≡ some q → ⊥
      other_ne l e h = new (l, h)

      by_cases : (j == i) ≡ true ⊎ (j == i) ≡ false → (k == i) ≡ true ⊎ (k == i) ≡ false → j ≡ k
      by_cases (inl a) (inl b) = ground (arith, a, b)
      by_cases (inl a) (inr b) =
          ground (arith, claim-update j, claim-update k, ej, ek, more, a, b, other_ne k b)
      by_cases (inr a) (inl b) =
          ground (arith, claim-update j, claim-update k, ej, ek, more, a, b, other_ne j a)
      by_cases (inr a) (inr b) = unique j k p (rw a at ej) (rw b at ek)

  -- A claim stays, unless it was the thread's own and is given up.
  pub Claimed-keep :
      (p : ℕ)
      → (claim (phase i) ≡ some p → claim next ≡ some p)
      → Claimed claim phase p
      → Claimed claim (update phase i next) p
  Claimed-keep p own (j, e) = elim (Bool-cases (j == i)) [
    | inl here ↦
        let same = (==_iff j i).0 here in
        let e' : claim (phase i) ≡ some p = rw same at e in (j, rw here (own e'))
    | inr other ↦ (j, rw other e)
  ]

  pub Claimed-new : (p : ℕ) → claim next ≡ some p → Claimed claim (update phase i next) p
  Claimed-new p e = (i, rw (==_self i) e)
