-- ===== src/Examples/Threads.antt =====
-- The theorem on wake-ups at a concrete schedule of two threads.
use ghetto_redis.Prelude.{refl, List, [], ◌∷◌, arith}
use ghetto_redis.Wakeup.{advance, Event, go, send, socket_event, step, run, started}
use ghetto_redis.Wakeup.Inv.{OnWay}
use ghetto_redis.Wakeup.Run.{run-OnWay}

-- Thread 1 falls asleep; thread 0 does too, is woken by a socket, and sends thread 1 a message.
abbrev schedule : List Event
schedule =
    go 1
    ∷ go 1
    ∷ go 1
    ∷ go 1
    ∷ go 1
    ∷ go 1
    ∷ go 0
    ∷ go 0
    ∷ go 0
    ∷ go 0
    ∷ go 0
    ∷ go 0
    ∷ socket_event 0
    ∷ go 0
    ∷ send 0 1
    ∷ []

run-OnWay_example : OnWay (run schedule (started 2)) 1
unfolding run step advance
run-OnWay_example = run-OnWay 2 schedule 1 refl (omega arith) refl
