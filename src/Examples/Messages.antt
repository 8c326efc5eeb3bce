-- ===== src/Examples/Messages.antt =====
-- The theorems on the queue of many threads at a concrete schedule.
use ghetto_redis.Prelude.{
  ℕ, ◌+◌, ◌<◌, ◌≤◌, ◌≡◌, refl, List, [], ◌∷◌, true, false, some, length, All, get_elem?, drop,
  arith,
}
use ghetto_redis.Mpmcq.Contents.{Contents}
use ghetto_redis.Mpmcq.Threads.{
  Phase, Event, call_enqueue, call_dequeue, go, step, run, created, access,
}
use ghetto_redis.Mpmcq.Threads.Inv.{returned_at, Once}
use ghetto_redis.Mpmcq.Threads.Fifo.{run-Once}
use ghetto_redis.Mpmcq.Threads.Quiet.{run-Contents}

-- Threads 0 and 1 send 11 and 22, and thread 1 loses the first position to thread 0; thread 2 takes
-- one object out after a compare-and-exchange that fails for no reason.
abbrev race : List Event
race =
    call_enqueue 0 11
    ∷ call_enqueue 1 22
    ∷ go 0 false
    ∷ go 1 false
    ∷ go 0 false
    ∷ go 1 false
    ∷ go 0 false
    ∷ go 1 false
    ∷ go 0 false
    ∷ go 1 false
    ∷ go 1 false
    ∷ go 1 false
    ∷ go 0 false
    ∷ go 1 false
    ∷ go 1 false
    ∷ go 1 false
    ∷ call_dequeue 2
    ∷ go 2 false
    ∷ go 2 false
    ∷ go 2 true
    ∷ go 2 false
    ∷ go 2 false
    ∷ go 2 false
    ∷ go 2 false
    ∷ []

race_sent : (run race created).shared.sent ≡ 11 ∷ 22 ∷ []
unfolding run step access
race_sent = refl

race_received : (run race created).shared.received ≡ (0, 11) ∷ []
unfolding run step access
race_received = refl

run-Once_example :
    let m = (run race created).shared in
    All (λ (r : ℕ × ℕ). get_elem? (11 ∷ 22 ∷ []) r.0 ≡ some r.1) m.received
    × Once m.received
    × (length m.sent ≤ m.queue.dequeue_pos + 8192)
unfolding run step access
run-Once_example = run-Once race (omega arith)

race_quiet : (i : ℕ) → (run race created).phase i ≡ Phase.idle
unfolding run step access
race_quiet i = ground arith

run-Contents_example :
    let m = (run race created).shared in
    Contents m.queue (drop m.queue.dequeue_pos m.sent)
    × ((p : ℕ) → p < m.queue.dequeue_pos → returned_at m.received p ≡ true)
run-Contents_example = run-Contents race (omega arith) race_quiet
