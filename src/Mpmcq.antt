-- ===== src/Mpmcq.antt =====
-- The queue of messages between shards: src/include/mpmcq.c and src/include/mpmcq.h, as one thread
-- runs it while no other uses the queue. Objects are pointers.
pub mod Mask
pub mod Contents
pub mod Full
pub mod Threads
use Prim.Native.Nat.{bit_and}
use ghetto_redis.Prelude.{
  ℕ, zero, suc, ◌-◌, ◌^◌, ◌==◌, ltb, leb, if◌then◌else◌, Bool, true, false, Option, none, some,
}
use ghetto_redis.Prelude.Words.{add_size, sub_size}

-- `mpmcq`, with `seq` and `data` (`items` here) of each cell of `buffer`.
pub record Mpmcq : Type 0 where
  pub buffer_mask : ℕ
  pub enqueue_pos : ℕ
  pub dequeue_pos : ℕ
  pub seq : ℕ → ℕ
  pub items : ℕ → ℕ

abbrev pub mpmcq_init : (size : ℕ) → Mpmcq
mpmcq_init size = record {
  buffer_mask = sub_size size 1;
  enqueue_pos = 0;
  dequeue_pos = 0;
  seq = λ i. i;
  items = λ _. 0;
}

abbrev pub store_cell : (ℕ → ℕ) → ℕ → ℕ → ℕ → ℕ
store_cell cells i v j = if j == i then v else cells j

-- The `while` loop of `mpmcq_enqueue` with fuel for its rounds, and what follows it. `diff` is a
-- `size_t`, so that `diff < 0` is a comparison of natural numbers.
unfoldable pub enqueue_loop : ℕ → Mpmcq → (pos obj : ℕ) → Option (Bool × Mpmcq)
enqueue_loop zero q pos obj = none
enqueue_loop (suc fuel) q pos obj =
    let cell = bit_and pos q.buffer_mask in
    let diff = sub_size (q.seq cell) pos in
    let again = enqueue_loop fuel q q.enqueue_pos obj in
    if diff == 0
    then (if q.enqueue_pos == pos
        then some (
          true,
          record q {
            enqueue_pos = add_size pos 1;
            items = store_cell q.items cell obj;
            seq = store_cell q.seq cell (add_size pos 1);
          },
        )
        else again)
    else if ltb diff 0
    then some (false, q)
    else again

unfoldable pub mpmcq_enqueue : (fuel : ℕ) → Mpmcq → (obj : ℕ) → Option (Bool × Mpmcq)
unfolding enqueue_loop
mpmcq_enqueue fuel q obj = enqueue_loop fuel q q.enqueue_pos obj

-- The `while` loop of `mpmcq_dequeue`, where `diff` is an `ssize_t`. The inner `none` is NULL.
unfoldable pub dequeue_loop : ℕ → Mpmcq → (pos : ℕ) → Option (Option ℕ × Mpmcq)
dequeue_loop zero q pos = none
dequeue_loop (suc fuel) q pos =
    let cell = bit_and pos q.buffer_mask in
    let diff = sub_size (q.seq cell) (add_size pos 1) in
    let again = dequeue_loop fuel q q.dequeue_pos in
    if diff == 0
    then (if q.dequeue_pos == pos
        then some (
          some (q.items cell),
          record q {
            dequeue_pos = add_size pos 1;
            seq = store_cell q.seq cell (add_size (add_size pos q.buffer_mask) 1);
          },
        )
        else again)
    else if leb (2 ^ 63) diff
    then some (none, q)
    else again

unfoldable pub mpmcq_dequeue : (fuel : ℕ) → Mpmcq → Option (Option ℕ × Mpmcq)
unfolding dequeue_loop
mpmcq_dequeue fuel q = dequeue_loop fuel q q.dequeue_pos

abbrev pub mpmcq_count : Mpmcq → ℕ
mpmcq_count q = sub_size q.enqueue_pos q.dequeue_pos
