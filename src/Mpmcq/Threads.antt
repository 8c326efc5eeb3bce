-- ===== src/Mpmcq/Threads.antt =====
-- Any number of threads in `mpmcq_enqueue` and `mpmcq_dequeue` of src/include/mpmcq.c at once. Each
-- access to shared memory is a step, and the threads interleave freely.
pub mod Inv
pub mod Stable
pub mod Claims
pub mod Memory
pub mod Kept
pub mod Enqueue
pub mod Dequeue
pub mod Fifo
pub mod Quiet
use Prim.Native.Nat.{bit_and}
use ghetto_redis.Prelude.{
  ℕ, ◌-◌, ◌^◌, ◌==◌, ltb, leb, if◌then◌else◌, List, [], ◌∷◌, ◌++◌, Bool, true, false, ◌&&◌, not,
}
use ghetto_redis.Prelude.Words.{add_size, sub_size}
use ghetto_redis.Commands.State.{update}
use ghetto_redis.Mpmcq.{Mpmcq, mpmcq_init, store_cell}

-- Where a thread stands in its call: the access that comes next, with the local variables.
pub data Phase : Type 0 where
  idle : Phase
  load_enqueue_pos : (obj : ℕ) → Phase
  load_free_seq : (obj pos : ℕ) → Phase
  claim_enqueue : (obj pos : ℕ) → Phase
  store_item : (obj pos : ℕ) → Phase
  store_filled_seq : (obj pos : ℕ) → Phase
  load_dequeue_pos : Phase
  load_filled_seq : (pos : ℕ) → Phase
  claim_dequeue : (pos : ℕ) → Phase
  load_item : (pos : ℕ) → Phase
  store_free_seq : (obj pos : ℕ) → Phase

-- `sent` holds the objects in the order in which their positions were claimed. `received` holds what
-- `mpmcq_dequeue` returned, but for NULL, with the positions.
pub record Shared : Type 0 where
  pub queue : Mpmcq
  pub sent : List ℕ
  pub received : List (ℕ × ℕ)

abbrev pub cell_of : Mpmcq → (pos : ℕ) → ℕ
cell_of q pos = bit_and pos q.buffer_mask

-- A thread's next access, and where it stands then. `weak` is whether a compare-and-exchange fails
-- for no reason.
unfoldable pub access : (weak : Bool) → Phase → Shared → Phase × Shared
access weak Phase.idle m = (Phase.idle, m)
access weak (Phase.load_enqueue_pos obj) m = (Phase.load_free_seq obj m.queue.enqueue_pos, m)
access weak (Phase.load_free_seq obj pos) m =
    let diff = sub_size (m.queue.seq (cell_of m.queue pos)) pos in
    (
      if diff == 0
          then Phase.claim_enqueue obj pos
          else if ltb diff 0
          then Phase.idle
          else Phase.load_enqueue_pos obj,
      m,
    )
access weak (Phase.claim_enqueue obj pos) m =
    if (m.queue.enqueue_pos == pos) && not weak
    then (
      Phase.store_item obj pos,
      record m {
        queue = record m.queue { enqueue_pos = add_size pos 1 };
        sent = m.sent ++ (obj ∷ []);
      },
    )
    else (Phase.load_free_seq obj m.queue.enqueue_pos, m)
access weak (Phase.store_item obj pos) m = (
  Phase.store_filled_seq obj pos,
  record m {
    queue = record m.queue { items = store_cell m.queue.items (cell_of m.queue pos) obj };
  },
)
access weak (Phase.store_filled_seq obj pos) m = (
  Phase.idle,
  record m {
    queue = record m.queue { seq = store_cell m.queue.seq (cell_of m.queue pos) (add_size pos 1) };
  },
)
access weak Phase.load_dequeue_pos m = (Phase.load_filled_seq m.queue.dequeue_pos, m)
access weak (Phase.load_filled_seq pos) m =
    let diff = sub_size (m.queue.seq (cell_of m.queue pos)) (add_size pos 1) in
    (
      if diff == 0
          then Phase.claim_dequeue pos
          else if leb (2 ^ 63) diff
          then Phase.idle
          else Phase.load_dequeue_pos,
      m,
    )
access weak (Phase.claim_dequeue pos) m =
    if (m.queue.dequeue_pos == pos) && not weak
    then (Phase.load_item pos, record m { queue = record m.queue { dequeue_pos = add_size pos 1 } })
    else (Phase.load_filled_seq m.queue.dequeue_pos, m)
access weak (Phase.load_item pos) m =
    (Phase.store_free_seq (m.queue.items (cell_of m.queue pos)) pos, m)
access weak (Phase.store_free_seq obj pos) m = (
  Phase.idle,
  record m {
    queue = record m.queue {
      seq =
          store_cell m.queue.seq (cell_of m.queue pos)
            (add_size (add_size pos m.queue.buffer_mask) 1);
    };
    received = m.received ++ ((pos, obj) ∷ []);
  },
)

pub record State : Type 0 where
  pub shared : Shared
  pub phase : ℕ → Phase

-- What happens next: a thread calls, which is nothing while its last call runs, or goes on.
pub data Event : Type 0 where
  call_enqueue : (thread obj : ℕ) → Event
  call_dequeue : (thread : ℕ) → Event
  go : (thread : ℕ) (weak : Bool) → Event

abbrev pub called : (first : Phase) → Phase → Phase
called first Phase.idle = first
called first p = p

unfoldable pub step : Event → State → State
unfolding access
step (call_enqueue i obj) s = record s {
  phase = update s.phase i (called (Phase.load_enqueue_pos obj) (s.phase i));
}
step (call_dequeue i) s = record s {
  phase = update s.phase i (called Phase.load_dequeue_pos (s.phase i));
}
step (go i weak) s =
    let (p, m) = access weak (s.phase i) s.shared in
    record { shared = m; phase = update s.phase i p }

-- A schedule of the threads.
unfoldable pub run : List Event → State → State
unfolding step
run [] s = s
run (e ∷ es) s = run es (step e s)

-- A new queue of the size that the reactors use, and no thread in it.
abbrev pub created : State
created = record {
  shared = record { queue = mpmcq_init 8192; sent = []; received = [] };
  phase = λ _. Phase.idle;
}
