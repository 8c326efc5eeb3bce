-- ===== src/Mpmcq/Threads/Dequeue.antt =====
-- The accesses of `mpmcq_dequeue` that change memory.
use ghetto_redis.Prelude.{
  ℕ, suc, ◌+◌, ◌%◌, ◌≡◌, refl, sym, ap, ◌∙◌, ◌==◌, ==_iff, [], ◌∷◌, ◌++◌, true, false, none, some,
  Bool-cases, inl, inr, arith,
}
use ghetto_redis.Commands.State.{update}
use ghetto_redis.Mpmcq.{Mpmcq}
use ghetto_redis.Mpmcq.Threads.{Phase, Shared}
use ghetto_redis.Mpmcq.Threads.Inv.{claim_in, claim_out, Knows, Cells, ThreadsKnow}
use ghetto_redis.Mpmcq.Threads.Stable.{
  returned_at-concat, with_seq, claimed_out, Knows-claimed_out, Knows-released,
}
use ghetto_redis.Mpmcq.Threads.Claims.{Unique-kept, Unique-more, Claimed-keep, Claimed-new}
use ghetto_redis.Mpmcq.Threads.Memory.{returned_at-later}
use ghetto_redis.Mpmcq.Threads.Kept.{claim_out-Emptying, Knows-update, out_apart}

module _ (n : ℕ) (m : Shared) (phase : ℕ → Phase) (c : Cells (suc n) m) (t : ThreadsKnow m phase)
    (i : ℕ) where
  abbrev q : Mpmcq
  q = m.queue

  -- The position is claimed.
  pub ThreadsKnow-claimed_out :
      claim_in (phase i) ≡ none
      → claim_out (phase i) ≡ none
      → q.seq (q.dequeue_pos % 8192) ≡ q.dequeue_pos + 1
      → ThreadsKnow (claimed_out m) (update phase i (Phase.load_item q.dequeue_pos))
  ThreadsKnow-claimed_out no_in no_out at = record {
    knows =
        Knows-update (claimed_out m) phase i next
          (
            omega arith,
            c.bounded,
            at,
            returned_at-later q.dequeue_pos q.dequeue_pos m.sent m.received c.returned_sent
                (omega arith),
          )
          (λ j other. Knows-claimed_out m (phase j) at (t.knows j));
    unique_in = Unique-kept claim_in phase i next (λ p e. cc) t.unique_in;
    unique_out =
        Unique-more claim_out phase i next q.dequeue_pos refl
          (λ (j, e).
            absurd (omega (arith, claim_out-Emptying m (phase j) q.dequeue_pos (t.knows j) e)))
          t.unique_out;
    published = λ p after below. elim (t.published p (omega (arith, after)) below) [
      | inl s ↦ inl s
      | inr held ↦ inr (Claimed-keep claim_in phase i next p (λ e. cc) held)
    ];
    released = λ p after below. elim (Bool-cases (p == q.dequeue_pos + 8192)) [
      | inl here ↦
          let (j, held) = Claimed-new claim_out phase i next q.dequeue_pos refl in
          inr (j, q.dequeue_pos, held, (==_iff p (q.dequeue_pos + 8192)).0 here)
      | inr other ↦ elim (t.released p after (ground (arith, below, other))) [
        | inl s ↦ inl s
        | inr (j, k, held, at') ↦
            let (j', held') = Claimed-keep claim_out phase i next k (λ e. cc) (j, held) in
            inr (j', k, held', at')
      ]
    ];
    covered = λ p below. elim (Bool-cases (p == q.dequeue_pos)) [
      | inl here ↦
          let same = (==_iff p q.dequeue_pos).0 here in
          inr (Claimed-new claim_out phase i next p (ap some (sym same)))
      | inr other ↦ elim (t.covered p (ground (arith, below, other))) [
        | inl r ↦ inl r
        | inr held ↦ inr (Claimed-keep claim_out phase i next p (λ e. cc) held)
      ]
    ];
  }
    where
      next : Phase
      next = Phase.load_item q.dequeue_pos

  -- The cell is marked as free for its next position, and the object is returned.
  pub ThreadsKnow-released :
      (obj pos : ℕ)
      → phase i ≡ Phase.store_free_seq obj pos
      → ThreadsKnow
          (with_seq m pos (pos + 8192) (m.received ++ (pos, obj) ∷ []))
          (update phase i Phase.idle)
  ThreadsKnow-released obj pos e =
      let known : Knows m (Phase.store_free_seq obj pos) = rw e at (t.knows i) in
      let f = known.0 in
      let own : claim_out (phase i) ≡ some pos = rw e refl in
      let none_in : claim_in (phase i) ≡ none = rw e refl in
      let next : Phase = Phase.idle in
      record {
        knows =
            Knows-update (with_seq m pos (pos + 8192) (m.received ++ (pos, obj) ∷ [])) phase i next
              tt
              (λ j other.
                Knows-released m obj pos (phase j) f (out_apart n m phase c t i j pos own other)
                  (t.knows j));
        unique_in = Unique-kept claim_in phase i next (λ p h. cc) t.unique_in;
        unique_out = Unique-kept claim_out phase i next (λ p h. cc) t.unique_out;
        published = λ p after below.
            let cell : (p % 8192 == pos % 8192) ≡ false = ground (arith, f.0, f.1, after, below) in
            elim (t.published p after below) [
              | inl s ↦ inl (rw cell s)
              | inr held ↦ inr (Claimed-keep claim_in phase i next p (λ h. cc) held)
            ];
        released = λ p after below. elim (Bool-cases (p == pos + 8192)) [
          | inl here ↦
              let same = (==_iff p (pos + 8192)).0 here in
              let cell : (p % 8192 == pos % 8192) ≡ true = ground (arith, same) in
              inl (rw cell (sym same))
          | inr other ↦
              let cell : (p % 8192 == pos % 8192) ≡ false =
                ground (arith, f.0, f.1, c.order, after, below, other) in
              elim (t.released p after below) [
                | inl s ↦ inl (rw cell s)
                | inr (j, k, held, at') ↦
                    let (j', held') =
                      Claimed-keep claim_out phase i next k
                        (λ h. ground (arith, own, h, other, at')) (j, held) in
                    inr (j', k, held', at')
              ]
        ];
        covered = λ p below. elim (Bool-cases (pos == p)) [
          | inl here ↦ inl (returned_at-concat m.received pos obj p ∙ rw here refl)
          | inr other ↦ elim (t.covered p below) [
            | inl r ↦ inl (returned_at-concat m.received pos obj p ∙ rw other r)
            | inr held ↦
                inr
                  (Claimed-keep claim_out phase i next p (λ h. ground (arith, own, h, other)) held)
          ]
        ];
      }
