-- ===== src/Mpmcq/Threads/Kept.antt =====
-- What each access does to the other threads' knowledge and to the claims.
use ghetto_redis.Prelude.{
  ℕ, suc, ◌%◌, ◌<◌, ◌≡◌, sym, ◌∙◌, ◌==◌, false, some, Bool-cases, inl, inr, arith,
}
use ghetto_redis.Commands.State.{update}
use ghetto_redis.Mpmcq.Threads.{Phase, Shared}
use ghetto_redis.Mpmcq.Threads.Inv.{claim_in, claim_out, Knows, Cells, ThreadsKnow}
use ghetto_redis.Mpmcq.Threads.Claims.{Unique-kept, Claimed-keep}

pub claim_in-Filling :
    (m : Shared) (p : Phase) (pos : ℕ)
    → Knows m p
    → claim_in p ≡ some pos
    → (pos < m.queue.enqueue_pos) × (m.queue.seq (pos % 8192) ≡ pos)
claim_in-Filling m Phase.idle pos k e = cc
claim_in-Filling m (Phase.load_enqueue_pos _) pos k e = cc
claim_in-Filling m (Phase.load_free_seq _ _) pos k e = cc
claim_in-Filling m (Phase.claim_enqueue _ _) pos k e = cc
claim_in-Filling m (Phase.store_item o q) pos (a, b, c, d) e = ground (arith, a, b, c, e)
claim_in-Filling m (Phase.store_filled_seq o q) pos ((a, b, c, d), _) e = ground (arith, a, b, c, e)
claim_in-Filling m Phase.load_dequeue_pos pos k e = cc
claim_in-Filling m (Phase.load_filled_seq _) pos k e = cc
claim_in-Filling m (Phase.claim_dequeue _) pos k e = cc
claim_in-Filling m (Phase.load_item _) pos k e = cc
claim_in-Filling m (Phase.store_free_seq _ _) pos k e = cc

pub claim_out-Emptying :
    (m : Shared) (p : Phase) (pos : ℕ)
    → Knows m p
    → claim_out p ≡ some pos
    → pos < m.queue.dequeue_pos
claim_out-Emptying m Phase.idle pos k e = cc
claim_out-Emptying m (Phase.load_enqueue_pos _) pos k e = cc
claim_out-Emptying m (Phase.load_free_seq _ _) pos k e = cc
claim_out-Emptying m (Phase.claim_enqueue _ _) pos k e = cc
claim_out-Emptying m (Phase.store_item o q) pos k e = cc
claim_out-Emptying m (Phase.store_filled_seq o q) pos k e = cc
claim_out-Emptying m Phase.load_dequeue_pos pos k e = cc
claim_out-Emptying m (Phase.load_filled_seq _) pos k e = cc
claim_out-Emptying m (Phase.claim_dequeue _) pos k e = cc
claim_out-Emptying m (Phase.load_item _) pos (a, b, c, d) e = ground (arith, a, e)
claim_out-Emptying m (Phase.store_free_seq _ _) pos ((a, b, c, d), _) e = ground (arith, a, e)

pub Knows-update :
    (m : Shared) (phase : ℕ → Phase) (i : ℕ) (next : Phase)
    → Knows m next
    → ((j : ℕ) → (j == i) ≡ false → Knows m (phase j))
    → (j : ℕ) → Knows m (update phase i next j)
Knows-update m phase i next own others j = elim (Bool-cases (j == i)) [
  | inl here ↦ rw here own
  | inr other ↦ rw other (others j other)
]

module _ (n : ℕ) (m : Shared) (phase : ℕ → Phase) (c : Cells (suc n) m) (t : ThreadsKnow m phase)
    (i : ℕ) where
  -- A claim of another thread is another position.
  pub in_apart :
      (j pos : ℕ)
      → claim_in (phase i) ≡ some pos
      → (j == i) ≡ false
      → claim_in (phase j) ≡ some pos
      → ⊥
  in_apart j pos own other e = ground (arith, t.unique_in j i pos e own, other)

  pub out_apart :
      (j pos : ℕ)
      → claim_out (phase i) ≡ some pos
      → (j == i) ≡ false
      → claim_out (phase j) ≡ some pos
      → ⊥
  out_apart j pos own other e = ground (arith, t.unique_out j i pos e own, other)

  pub ThreadsKnow-same :
      (next : Phase)
      → claim_in next ≡ claim_in (phase i)
      → claim_out next ≡ claim_out (phase i)
      → Knows m next
      → ThreadsKnow m (update phase i next)
  ThreadsKnow-same next same_in same_out own = record {
    knows = Knows-update m phase i next own (λ j other. t.knows j);
    unique_in = Unique-kept claim_in phase i next (λ p e. sym same_in ∙ e) t.unique_in;
    unique_out = Unique-kept claim_out phase i next (λ p e. sym same_out ∙ e) t.unique_out;
    published = λ p after below. elim (t.published p after below) [
      | inl s ↦ inl s
      | inr held ↦ inr (Claimed-keep claim_in phase i next p (λ e. same_in ∙ e) held)
    ];
    released = λ p after below. elim (t.released p after below) [
      | inl s ↦ inl s
      | inr (j, k, held, at) ↦
          let (j', held') = Claimed-keep claim_out phase i next k (λ e. same_out ∙ e) (j, held) in
          inr (j', k, held', at)
    ];
    covered = λ p below. elim (t.covered p below) [
      | inl r ↦ inl r
      | inr held ↦ inr (Claimed-keep claim_out phase i next p (λ e. same_out ∙ e) held)
    ];
  }
