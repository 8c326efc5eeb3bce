-- ===== src/Mpmcq/Full.antt =====
-- `mpmcq_enqueue` on a full queue.
use Prim.Native.Nat.{bit_and}
use ghetto_redis.Prelude.{
  ℕ, zero, suc, ◌+◌, ◌-◌, ◌%◌, ◌^◌, ◌≡◌, refl, List, [], ◌∷◌, none, length, arith,
}
use ghetto_redis.Prelude.Words.{sub_size}
use ghetto_redis.Mpmcq.{Mpmcq, enqueue_loop, mpmcq_enqueue}
use ghetto_redis.Mpmcq.Mask.{bit_and-mask}
use ghetto_redis.Mpmcq.Contents.{Contents}

-- On a full queue of 8192 cells `mpmcq_enqueue` never returns while no other thread takes a message
-- out, whatever the fuel: its test for a full queue does not succeed.
pub mpmcq_enqueue_full :
    (fuel obj : ℕ) (q : Mpmcq) (xs : List ℕ)
    → Contents q xs
    → length xs ≡ 8192
    → mpmcq_enqueue fuel q obj ≡ none
unfolding mpmcq_enqueue enqueue_loop
mpmcq_enqueue_full zero obj q xs c full = refl
mpmcq_enqueue_full (suc fuel) obj q [] c full = absurd (omega arith)
mpmcq_enqueue_full (suc fuel) obj q (x ∷ xs) c full =
    let e = q.enqueue_pos in
    let d = q.dequeue_pos in
    let cell : bit_and e q.buffer_mask ≡ e % 8192 = rw c.mask_is (bit_and-mask e) in
    let first : e % 8192 ≡ d % 8192 = omega (arith, c.end_is) in
    let behind : sub_size (d + 1) e ≡ 2 ^ 64 - 8191 = omega (arith, c.end_is, c.low) in
    rw (cell, first, c.filled.0, behind) (mpmcq_enqueue_full fuel obj q (x ∷ xs) c full)
