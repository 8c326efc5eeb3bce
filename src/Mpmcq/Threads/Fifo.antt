-- ===== src/Mpmcq/Threads/Fifo.antt =====
-- Whatever the order in which threads go on, each object comes out once, at its position.
use ghetto_redis.Prelude.{
  ℕ, suc, ◌+◌, ◌%◌, ◌^◌, ◌≤◌, ◌<◌, ◌≡◌, refl, ◌==◌, ==_iff, ltb, leb, List, [], ◌∷◌, Bool, false,
  not, ◌&&◌, none, some, All, length, get_elem?, Bool-cases, inl, inr, arith,
}
use ghetto_redis.Prelude.Words.{add_size, sub_size}
use ghetto_redis.Commands.State.{update}
use ghetto_redis.Mpmcq.Mask.{bit_and-mask}
use ghetto_redis.Mpmcq.Threads.{
  Phase, Shared, State, cell_of, access, Event, call_enqueue, call_dequeue, go, called, step, run,
  created,
}
use ghetto_redis.Mpmcq.Threads.Inv.{claim_in, claim_out, Once, Knows, Cells, Inv}
use ghetto_redis.Mpmcq.Threads.Memory.{
  All-weaken, Cells-same, Cells-claimed_in, Cells-with_item, Cells-published, Cells-claimed_out,
  Cells-released,
}
use ghetto_redis.Mpmcq.Threads.Kept.{ThreadsKnow-same}
use ghetto_redis.Mpmcq.Threads.Enqueue.{
  ThreadsKnow-claimed_in, ThreadsKnow-with_item, ThreadsKnow-published,
}
use ghetto_redis.Mpmcq.Threads.Dequeue.{ThreadsKnow-claimed_out, ThreadsKnow-released}

-- A claim in phase `p` is kept where the thread goes on to `next`.
abbrev SameClaims : (p next : Phase) → Type 0
SameClaims p next = (claim_in next ≡ claim_in p) × (claim_out next ≡ claim_out p)

module _ (n : ℕ) (s : State) (inv : Inv (suc n) s) (i : ℕ) where
  abbrev m : Shared
  m = s.shared

  abbrev c : Cells (suc n) m
  c = inv.cells

  -- The thread goes on to `next` and leaves the memory as it is.
  quiet :
      (p next : Phase)
      → s.phase i ≡ p
      → SameClaims p next
      → Knows m next
      → Inv n (record s { phase = update s.phase i next })
  quiet p next e (same_in, same_out) own = record {
    cells = Cells-same n m c;
    threads = ThreadsKnow-same n m s.phase c inv.threads i next (rw e same_in) (rw e same_out) own;
  }

  -- After the thread's access.
  abbrev After : Phase × Shared → Type 0
  After r = Inv n (record { shared = r.1; phase = update s.phase i r.0 })

  cell : (pos : ℕ) → cell_of m.queue pos ≡ pos % 8192
  cell pos = rw c.mask_is (bit_and-mask pos)

  access-Inv : (weak : Bool) (p : Phase) → s.phase i ≡ p → Knows m p → After (access weak p m)
  unfolding access
  access-Inv weak Phase.idle e k = quiet Phase.idle Phase.idle e (refl, refl) tt
  access-Inv weak (Phase.load_enqueue_pos obj) e k =
      quiet (Phase.load_enqueue_pos obj) _ e (refl, refl) (omega arith)
  access-Inv weak (Phase.load_free_seq obj pos) e k =
      elim (Bool-cases (m.queue.seq (pos % 8192) == pos)) [
        | inl free ↦
            let at = (==_iff (m.queue.seq (pos % 8192)) pos).0 free in
            let same : sub_size (m.queue.seq (pos % 8192)) pos ≡ 0 = omega (arith, at) in
            rw (cell pos, same)
              (quiet (Phase.load_free_seq obj pos) (Phase.claim_enqueue obj pos) e (refl, refl)
                (k, λ _. at))
        | inr other ↦
            let positive : (sub_size (m.queue.seq (pos % 8192)) pos == 0) ≡ false =
              ground (arith, other, c.small pos, c.low, k) in
            let never : ltb (sub_size (m.queue.seq (pos % 8192)) pos) 0 ≡ false = ground arith in
            rw (cell pos, positive, never)
              (quiet (Phase.load_free_seq obj pos) (Phase.load_enqueue_pos obj) e (refl, refl) tt)
      ]
  access-Inv weak (Phase.claim_enqueue obj pos) e (k, at) =
      elim (Bool-cases ((m.queue.enqueue_pos == pos) && not weak)) [
        | inl swaps ↦
            let same : pos ≡ m.queue.enqueue_pos = ground (arith, swaps) in
            let next : add_size pos 1 ≡ m.queue.enqueue_pos + 1 = omega (arith, same, c.low) in
            let free : m.queue.seq (m.queue.enqueue_pos % 8192) ≡ m.queue.enqueue_pos =
              rw (← same) (at same) in
            rw (swaps, next, same)
              (record {
                cells = Cells-claimed_in n m c obj free;
                threads =
                    ThreadsKnow-claimed_in n m s.phase c inv.threads i obj (rw e refl) (rw e refl)
                      free;
              })
        | inr fails ↦ rw fails (quiet (Phase.claim_enqueue obj pos) _ e (refl, refl) (omega arith))
      ]
  access-Inv weak (Phase.store_item obj pos) e k = rw (cell pos) (record {
    cells = Cells-with_item n m c obj pos k.2;
    threads = ThreadsKnow-with_item n m s.phase c inv.threads i obj pos e;
  })
  access-Inv weak (Phase.store_filled_seq obj pos) e (f, stored) =
      let next : add_size pos 1 ≡ pos + 1 = omega (arith, f.1, c.low) in
      rw (cell pos, next)
        (record {
          cells = Cells-published n m c obj pos f stored;
          threads = ThreadsKnow-published n m s.phase c inv.threads i obj pos e;
        })
  access-Inv weak Phase.load_dequeue_pos e k =
      quiet Phase.load_dequeue_pos _ e (refl, refl) (omega arith)
  access-Inv weak (Phase.load_filled_seq pos) e k =
      let next : add_size pos 1 ≡ pos + 1 = omega (arith, k, c.order, c.low) in
      let seq = m.queue.seq (pos % 8192) in
      elim (Bool-cases (seq == pos + 1)) [
        | inl filled ↦
            let at = (==_iff seq (pos + 1)).0 filled in
            let same : sub_size seq (pos + 1) ≡ 0 = omega (arith, at) in
            rw (cell pos, next, same)
              (quiet (Phase.load_filled_seq pos) (Phase.claim_dequeue pos) e (refl, refl)
                (k, λ _. at))
        | inr other ↦
            let positive : (sub_size seq (pos + 1) == 0) ≡ false =
              ground (arith, other, c.small pos, c.low, c.order, k) in
            elim (Bool-cases (leb (2 ^ 63) (sub_size seq (pos + 1)))) [
              | inl empty ↦
                  rw (cell pos, next, positive, empty)
                    (quiet (Phase.load_filled_seq pos) Phase.idle e (refl, refl) tt)
              | inr late ↦
                  rw (cell pos, next, positive, late)
                    (quiet (Phase.load_filled_seq pos) Phase.load_dequeue_pos e (refl, refl) tt)
            ]
      ]
  access-Inv weak (Phase.claim_dequeue pos) e (k, at) =
      elim (Bool-cases ((m.queue.dequeue_pos == pos) && not weak)) [
        | inl swaps ↦
            let same : pos ≡ m.queue.dequeue_pos = ground (arith, swaps) in
            let next : add_size pos 1 ≡ m.queue.dequeue_pos + 1 =
              omega (arith, same, c.order, c.low) in
            let filled : m.queue.seq (m.queue.dequeue_pos % 8192) ≡ m.queue.dequeue_pos + 1 =
              rw (← same) (at same) in
            rw (swaps, next, same)
              (record {
                cells = Cells-claimed_out n m c filled;
                threads =
                    ThreadsKnow-claimed_out n m s.phase c inv.threads i (rw e refl) (rw e refl)
                      filled;
              })
        | inr fails ↦ rw fails (quiet (Phase.claim_dequeue pos) _ e (refl, refl) (omega arith))
      ]
  access-Inv weak (Phase.load_item pos) e k = rw (cell pos) (
      quiet (Phase.load_item pos) (Phase.store_free_seq (m.queue.items (pos % 8192)) pos) e
        (refl, refl) (k, (c.filled pos k.2).1))
  access-Inv weak (Phase.store_free_seq obj pos) e (f, item) =
      let next : add_size (add_size pos m.queue.buffer_mask) 1 ≡ pos + 8192 =
        omega (arith, f.0, c.order, c.low, c.mask_is) in
      rw (cell pos, next)
        (record {
          cells = Cells-released n m c obj pos f item;
          threads = ThreadsKnow-released n m s.phase c inv.threads i obj pos e;
        })

-- A call begins only where the last one has returned.
called-Inv :
    (n : ℕ) (s : State) (inv : Inv (suc n) s) (i : ℕ) (first p : Phase)
    → claim_in first ≡ none
    → claim_out first ≡ none
    → Knows s.shared first
    → s.phase i ≡ p
    → Knows s.shared p
    → Inv n (record s { phase = update s.phase i (called first p) })
called-Inv n s inv i first Phase.idle no_in no_out k e known =
    quiet n s inv i Phase.idle first e (no_in, no_out) k
called-Inv n s inv i first (Phase.load_enqueue_pos o) no_in no_out k e known =
    quiet n s inv i _ _ e (refl, refl) known
called-Inv n s inv i first (Phase.load_free_seq o p) no_in no_out k e known =
    quiet n s inv i _ (Phase.load_free_seq o p) e (refl, refl) known
called-Inv n s inv i first (Phase.claim_enqueue o p) no_in no_out k e known =
    quiet n s inv i _ (Phase.claim_enqueue o p) e (refl, refl) known
called-Inv n s inv i first (Phase.store_item o p) no_in no_out k e known =
    quiet n s inv i _ (Phase.store_item o p) e (refl, refl) known
called-Inv n s inv i first (Phase.store_filled_seq o p) no_in no_out k e known =
    quiet n s inv i _ (Phase.store_filled_seq o p) e (refl, refl) known
called-Inv n s inv i first Phase.load_dequeue_pos no_in no_out k e known =
    quiet n s inv i _ _ e (refl, refl) known
called-Inv n s inv i first (Phase.load_filled_seq p) no_in no_out k e known =
    quiet n s inv i _ (Phase.load_filled_seq p) e (refl, refl) known
called-Inv n s inv i first (Phase.claim_dequeue p) no_in no_out k e known =
    quiet n s inv i _ (Phase.claim_dequeue p) e (refl, refl) known
called-Inv n s inv i first (Phase.load_item p) no_in no_out k e known =
    quiet n s inv i _ (Phase.load_item p) e (refl, refl) known
called-Inv n s inv i first (Phase.store_free_seq o p) no_in no_out k e known =
    quiet n s inv i _ (Phase.store_free_seq o p) e (refl, refl) known

step-Inv : (n : ℕ) (e : Event) (s : State) → Inv (suc n) s → Inv n (step e s)
unfolding step
step-Inv n (call_enqueue i obj) s inv =
    called-Inv n s inv i (Phase.load_enqueue_pos obj) (s.phase i) refl refl tt refl
      (inv.threads.knows i)
step-Inv n (call_dequeue i) s inv =
    called-Inv n s inv i Phase.load_dequeue_pos (s.phase i) refl refl tt refl (inv.threads.knows i)
step-Inv n (go i weak) s inv = access-Inv n s inv i weak (s.phase i) refl (inv.threads.knows i)

run-Inv : (es : List Event) (s : State) → Inv (length es) s → Inv 0 (run es s)
unfolding run
run-Inv [] s inv = inv
run-Inv (e ∷ es) s inv = run-Inv es (step e s) (step-Inv (length es) e s inv)

-- What holds after a schedule on a new queue.
pub created-Inv : (es : List Event) → length es + 16384 < 2 ^ 63 → Inv 0 (run es created)
created-Inv es short = run-Inv es created (record {
  cells = record {
    mask_is = refl;
    low = omega (arith, short);
    small = λ p. omega arith;
    order = omega arith;
    bounded = omega arith;
    counted = refl;
    filled = λ p h. absurd (omega (arith, h));
    free = λ p h. omega (arith, h);
    returned_sent = tt;
    once = tt;
  };
  threads = record {
    knows = λ i. tt;
    unique_in = λ i j p e. cc;
    unique_out = λ i j p e. cc;
    published = λ p after below. absurd (omega (arith, below));
    released = λ p after below. inl (omega (arith, below));
    covered = λ p below. absurd (omega (arith, below));
  };
})

-- For every schedule of any number of threads that call `mpmcq_enqueue` and `mpmcq_dequeue` on a new
-- queue of 8192 cells, of fewer than 2^62 steps: what a call of `mpmcq_dequeue` returned from a
-- position is the object whose call of `mpmcq_enqueue` claimed that position; no position is
-- returned from twice; and at most 8192 objects are sent more than positions are claimed for taking
-- out, so that no object is overwritten.
pub run-Once :
    (es : List Event)
    → length es < 2 ^ 62
    → let m = (run es created).shared in
      All (λ (r : ℕ × ℕ). get_elem? m.sent r.0 ≡ some r.1) m.received
      × Once m.received
      × (length m.sent ≤ m.queue.dequeue_pos + 8192)
run-Once es short =
    let c = (created-Inv es (omega (arith, short))).cells in
    let m = (run es created).shared in
    (
      All-weaken _ _ m.received (λ r (below, item). item) c.returned_sent,
      c.once,
      omega (arith, c.counted, c.bounded),
    )
