-- ===== src/Examples/Queues.antt =====
-- The theorems on the queues at concrete schedules.
use ghetto_redis.Prelude.{
  ℕ, zero, suc, ◌+◌, ◌<◌, ◌≤◌, ◌≡◌, refl, ap, ◌==◌, if◌then◌else◌, List, [], ◌∷◌, ◌++◌, true, none,
  some, length, arith,
}
use ghetto_redis.Spscq.{
  Producer, Event, call_enqueue, enqueue_step, call_dequeue, dequeue_step, step, run, created,
  enqueue_access, dequeue_access,
}
use ghetto_redis.Spscq.Fifo.{run-created}
use ghetto_redis.Spscq.Calls.{enqueue_call, run-enqueue_call}
use ghetto_redis.Mpmcq.{Mpmcq, mpmcq_init, store_cell, mpmcq_enqueue, mpmcq_dequeue}
use ghetto_redis.Mpmcq.Contents.{
  Filled, Contents, mpmcq_enqueue-Contents, mpmcq_dequeue-Contents, mpmcq_init-Contents,
}
use ghetto_redis.Mpmcq.Full.{mpmcq_enqueue_full}

-- Two calls of the producer, the second of which is interleaved with one of the consumer.
abbrev schedule : List Event
schedule =
    enqueue_call 5
    ++ (call_enqueue 6
        ∷ enqueue_step
        ∷ call_dequeue
        ∷ dequeue_step
        ∷ enqueue_step
        ∷ dequeue_step
        ∷ enqueue_step
        ∷ dequeue_step
        ∷ enqueue_step
        ∷ dequeue_step
        ∷ [])

run-created_example :
    (rest : List ℕ) × ((run schedule (created 3)).sent
      ≡ (run schedule (created 3)).received ++ rest)
    × (length rest < (run schedule (created 3)).queue.size)
run-created_example = run-created 3 schedule (omega arith)

run-enqueue_call_example :
    let s = run schedule (created 3) in
    (rest : List ℕ) × (s.sent ≡ s.received ++ rest)
    × ((run (enqueue_call 7) s).producer ≡ Producer.returned)
    × ((run (enqueue_call 7) s).sent
        ≡ (if length rest + 1 == s.queue.size then s.sent else s.sent ++ 7 ∷ []))
unfolding run step enqueue_access dequeue_access
run-enqueue_call_example = run-enqueue_call 3 schedule 7 (omega arith) refl

mpmcq_enqueue-Contents_example :
    (q' : Mpmcq) × (mpmcq_enqueue 1 (mpmcq_init 8192) 5 ≡ some (true, q')) × Contents q' (5 ∷ [])
mpmcq_enqueue-Contents_example =
    mpmcq_enqueue-Contents 0 5 (mpmcq_init 8192) [] mpmcq_init-Contents (omega arith) (omega arith)

-- A queue with one message, 5.
abbrev one_message : Mpmcq
one_message = record {
  buffer_mask = 8191;
  enqueue_pos = 1;
  dequeue_pos = 0;
  seq = store_cell (λ i. i) 0 1;
  items = store_cell (λ _. 0) 0 5;
}

one_message-Contents : Contents one_message (5 ∷ [])
one_message-Contents = record {
  mask_is = refl;
  low = omega arith;
  room = omega arith;
  end_is = refl;
  filled = (refl, refl, tt);
  free = λ p after before. ground arith;
}

mpmcq_dequeue-Contents_example :
    (q' : Mpmcq) × (mpmcq_dequeue 1 one_message ≡ some (some 5, q')) × Contents q' []
mpmcq_dequeue-Contents_example = mpmcq_dequeue-Contents 0 one_message (5 ∷ []) one_message-Contents

-- A queue with 8192 messages.
abbrev full_queue : Mpmcq
full_queue = record {
  buffer_mask = 8191;
  enqueue_pos = 8192;
  dequeue_pos = 0;
  seq = λ i. i + 1;
  items = λ _. 5;
}

abbrev fives : ℕ → List ℕ
fives zero = []
fives (suc n) = 5 ∷ fives n

length-fives : (n : ℕ) → length (fives n) ≡ n
length-fives zero = refl
length-fives (suc n) = ap suc (length-fives n)

fives-Filled : (n p : ℕ) → p + n ≤ 8192 → Filled full_queue.seq full_queue.items p (fives n)
fives-Filled zero p h = tt
fives-Filled (suc n) p h = (omega arith, refl, fives-Filled n (p + 1) (omega arith))

full_queue-Contents : Contents full_queue (fives 8192)
full_queue-Contents = record {
  mask_is = refl;
  low = omega arith;
  room = omega (arith, length-fives 8192);
  end_is = omega (arith, length-fives 8192);
  filled = fives-Filled 8192 0 (omega arith);
  free = λ p after before. absurd (omega arith);
}

mpmcq_enqueue_full_example : mpmcq_enqueue 3 full_queue 6 ≡ none
mpmcq_enqueue_full_example =
    mpmcq_enqueue_full 3 6 full_queue (fives 8192) full_queue-Contents (length-fives 8192)
