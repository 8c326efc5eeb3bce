-- ===== src/Mpmcq/Threads/Enqueue.antt =====
-- The accesses of `mpmcq_enqueue` that change memory.
use ghetto_redis.Prelude.{
  ℕ, suc, ◌+◌, ◌%◌, ◌≡◌, refl, sym, ap, ◌∙◌, ◌==◌, ==_iff, ==_self, false, none, some, Bool-cases,
  inl, inr, arith,
}
use ghetto_redis.Commands.State.{update}
use ghetto_redis.Mpmcq.{Mpmcq}
use ghetto_redis.Mpmcq.Threads.{Phase, Shared}
use ghetto_redis.Mpmcq.Threads.Inv.{claim_in, claim_out, Filling, Knows, Cells, ThreadsKnow}
use ghetto_redis.Mpmcq.Threads.Stable.{
  get_elem?-last, claimed_in, with_item, with_seq, Knows-claimed_in, Knows-with_item,
  Knows-published,
}
use ghetto_redis.Mpmcq.Threads.Claims.{Unique-kept, Unique-more, Claimed-keep, Claimed-new}
use ghetto_redis.Mpmcq.Threads.Kept.{claim_in-Filling, Knows-update, in_apart}

module _ (n : ℕ) (m : Shared) (phase : ℕ → Phase) (c : Cells (suc n) m) (t : ThreadsKnow m phase)
    (i : ℕ) where
  abbrev q : Mpmcq
  q = m.queue

  -- The position is claimed.
  pub ThreadsKnow-claimed_in :
      (obj : ℕ)
      → claim_in (phase i) ≡ none
      → claim_out (phase i) ≡ none
      → q.seq (q.enqueue_pos % 8192) ≡ q.enqueue_pos
      → ThreadsKnow (claimed_in m obj) (update phase i (Phase.store_item obj q.enqueue_pos))
  ThreadsKnow-claimed_in obj no_in no_out at = record {
    knows =
        Knows-update (claimed_in m obj) phase i next
          (c.order, omega arith, at, rw (← c.counted) (get_elem?-last m.sent obj))
          (λ j other. Knows-claimed_in m obj (phase j) at (t.knows j));
    unique_in =
        Unique-more claim_in phase i next q.enqueue_pos refl
          (λ (j, e).
            absurd (omega (arith, (claim_in-Filling m (phase j) q.enqueue_pos (t.knows j) e).0)))
          t.unique_in;
    unique_out = Unique-kept claim_out phase i next (λ p e. cc) t.unique_out;
    published = λ p after below. elim (Bool-cases (p == q.enqueue_pos)) [
      | inl here ↦
          let same = (==_iff p q.enqueue_pos).0 here in
          inr (Claimed-new claim_in phase i next p (ap some (sym same)))
      | inr other ↦ elim (t.published p after (ground (arith, below, other))) [
        | inl s ↦ inl s
        | inr held ↦ inr (Claimed-keep claim_in phase i next p (λ e. cc) held)
      ]
    ];
    released = λ p after below. elim (t.released p (omega (arith, after)) below) [
      | inl s ↦ inl s
      | inr (j, k, held, at') ↦
          let (j', held') = Claimed-keep claim_out phase i next k (λ e. cc) (j, held) in
          inr (j', k, held', at')
    ];
    covered = λ p below. elim (t.covered p below) [
      | inl r ↦ inl r
      | inr held ↦ inr (Claimed-keep claim_out phase i next p (λ e. cc) held)
    ];
  }
    where
      next : Phase
      next = Phase.store_item obj q.enqueue_pos

  -- The object is stored.
  pub ThreadsKnow-with_item :
      (obj pos : ℕ)
      → phase i ≡ Phase.store_item obj pos
      → ThreadsKnow (with_item m obj pos) (update phase i (Phase.store_filled_seq obj pos))
  ThreadsKnow-with_item obj pos e =
      let f : Filling m obj pos = rw e at (t.knows i) in
      let own : claim_in (phase i) ≡ some pos = rw e refl in
      let none_out : claim_out (phase i) ≡ none = rw e refl in
      let next : Phase = Phase.store_filled_seq obj pos in
      record {
        knows =
            Knows-update (with_item m obj pos) phase i next (f, rw (==_self (pos % 8192)) refl)
              (λ j other.
                Knows-with_item m obj pos (phase j) f.2 (in_apart n m phase c t i j pos own other)
                  (t.knows j));
        unique_in = Unique-kept claim_in phase i next (λ p h. own ∙ h) t.unique_in;
        unique_out = Unique-kept claim_out phase i next (λ p h. cc) t.unique_out;
        published = λ p after below. elim (t.published p after below) [
          | inl s ↦ inl s
          | inr held ↦ inr (Claimed-keep claim_in phase i next p (λ h. sym own ∙ h) held)
        ];
        released = λ p after below. elim (t.released p after below) [
          | inl s ↦ inl s
          | inr (j, k, held, at') ↦
              let (j', held') = Claimed-keep claim_out phase i next k (λ h. cc) (j, held) in
              inr (j', k, held', at')
        ];
        covered = λ p below. elim (t.covered p below) [
          | inl r ↦ inl r
          | inr held ↦ inr (Claimed-keep claim_out phase i next p (λ h. cc) held)
        ];
      }

  -- The cell is marked as filled.
  pub ThreadsKnow-published :
      (obj pos : ℕ)
      → phase i ≡ Phase.store_filled_seq obj pos
      → ThreadsKnow (with_seq m pos (pos + 1) m.received) (update phase i Phase.idle)
  ThreadsKnow-published obj pos e =
      let known : Knows m (Phase.store_filled_seq obj pos) = rw e at (t.knows i) in
      let f = known.0 in
      let own : claim_in (phase i) ≡ some pos = rw e refl in
      let none_out : claim_out (phase i) ≡ none = rw e refl in
      let next : Phase = Phase.idle in
      record {
        knows = Knows-update (with_seq m pos (pos + 1) m.received) phase i next tt (λ j other.
            Knows-published m obj pos (phase j) f (in_apart n m phase c t i j pos own other)
              (t.knows j));
        unique_in = Unique-kept claim_in phase i next (λ p h. cc) t.unique_in;
        unique_out = Unique-kept claim_out phase i next (λ p h. cc) t.unique_out;
        published = λ p after below. elim (Bool-cases (p == pos)) [
          | inl here ↦
              let same = (==_iff p pos).0 here in inl (rw (same, ==_self (pos % 8192)) refl)
          | inr other ↦
              let cell : (p % 8192 == pos % 8192) ≡ false =
                ground (arith, f.0, f.1, c.bounded, after, below, other) in
              elim (t.published p after below) [
                | inl s ↦ inl (rw cell s)
                | inr held ↦
                    inr (
                      Claimed-keep claim_in phase i next p (λ h. ground (arith, own, h, other))
                        held)
              ]
        ];
        released = λ p after below.
            let cell : (p % 8192 == pos % 8192) ≡ false = ground (arith, f.0, f.1, after, below) in
            elim (t.released p after below) [
              | inl s ↦ inl (rw cell s)
              | inr (j, k, held, at') ↦
                  let (j', held') = Claimed-keep claim_out phase i next k (λ h. cc) (j, held) in
                  inr (j', k, held', at')
            ];
        covered = λ p below. elim (t.covered p below) [
          | inl r ↦ inl r
          | inr held ↦ inr (Claimed-keep claim_out phase i next p (λ h. cc) held)
        ];
      }
