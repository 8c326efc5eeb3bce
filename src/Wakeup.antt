-- ===== src/Wakeup.antt =====
-- How the threads of the reactors wake each other: the loop of `reactor_run` with
-- `reactor_wakeup_pending` and `reactor_poll_callbacks`, of src/include/reactor_epoll.c and
-- src/include/reactor.c, by their accesses to what the threads share. A queue is the number of its
-- messages. The bits of `soft_notify` are the thread's own: they are set in the step of the message.
-- SHUTDOWN is no event here: it clears `running` of all threads, and has a pass over the bits of its own.
pub mod Inv
pub mod Steps
pub mod Heard
pub mod Run
use ghetto_redis.Prelude.{
  ℕ, zero, suc, ◌+◌, ◌-◌, ◌==◌, ltb, leb, if◌then◌else◌, List, [], ◌∷◌, Bool, true, false, ◌&&◌,
  ◌||◌,
}
use ghetto_redis.Commands.State.{update}

-- Where a thread stands in `reactor_run`: what it does next.
pub data Phase : Type 0 where
  -- the test of bit `i` in the loop of `reactor_wakeup_pending`, or the reset of the bits behind it
  waking : (i : ℕ) → Phase
  -- the `write` to the `wakeup_fd` of reactor `i`
  notifying : (i : ℕ) → Phase
  -- `mpmcq_dequeue` in `reactor_poll_callbacks`, after `count` callbacks
  polling : (count : ℕ) → Phase
  -- the callback, `count` having run before
  calling : (count : ℕ) → Phase
  -- `atomic_store(&reactor->sleeping, true)`
  falling_asleep : Phase
  -- `reactor_has_pending_messages`
  checking : Phase
  -- `atomic_store(&reactor->sleeping, false)` before `continue`
  restarting : Phase
  -- `epoll_wait` with no timeout
  waiting : Phase
  -- `atomic_store(&reactor->sleeping, false)` behind it
  rousing : Phase
  -- the events, also those of the `epoll_wait` that does not wait
  serving : Phase
  -- behind the loop
  ended : Phase

-- `marked s r` is bit `r` of the `soft_notify` of thread `s`. `wake r` is the counter of the
-- `wakeup_fd` of reactor `r`.
pub record Threads : Type 0 where
  pub size : ℕ
  pub phase : ℕ → Phase
  pub running : ℕ → Bool
  pub marked : ℕ → ℕ → Bool
  pub queue : ℕ → ℕ
  pub sleeping : ℕ → Bool
  pub wake : ℕ → ℕ

abbrev pub at : Threads → ℕ → Phase → Threads
at st s p = record st { phase = update st.phase s p }

-- `while (reactor->running)`
abbrev pub looping : Bool → Phase
looping true = waking 0
looping false = ended

-- The next access of thread `s`, by where it stands.
unfoldable pub advance : Phase → (s : ℕ) → Threads → Threads
advance (waking i) s st =
    if i == st.size
    then at (record st { marked = update st.marked s (λ _. false) }) s (polling 0)
    else if st.marked s i && st.sleeping i
    then at (record st { sleeping = update st.sleeping i false }) s (notifying i)
    else at st s (waking (i + 1))
advance (notifying i) s st =
    at (record st { wake = update st.wake i (st.wake i + 1) }) s (waking (i + 1))
advance (polling count) s st =
    if ltb 0 (st.queue s)
    then at (record st { queue = update st.queue s (st.queue s - 1) }) s (calling count)
    else at st s (if ltb 0 count then serving else falling_asleep)
advance (calling count) s st = at st s (polling (suc count))
advance falling_asleep s st = at (record st { sleeping = update st.sleeping s true }) s checking
advance checking s st = at st s (if ltb 0 (st.queue s) then restarting else waiting)
advance restarting s st =
    at (record st { sleeping = update st.sleeping s false }) s (looping (st.running s))
advance waiting s st = at st s (if ltb 0 (st.wake s) then rousing else waiting)
advance rousing s st = at (record st { sleeping = update st.sleeping s false }) s serving
advance serving s st = at st s (looping (st.running s))
advance ended s st = st

-- Whether a thread can run a command: in a callback, or on a socket's event.
abbrev pub is_running : Phase → Bool
is_running (calling _) = true
is_running serving = true
is_running _ = false

abbrev pub is_waiting : Phase → Bool
is_waiting waiting = true
is_waiting _ = false

abbrev pub is_serving : Phase → Bool
is_serving serving = true
is_serving _ = false

-- What happens next. A command other than SHUTDOWN, which is not among the events, leaves `running` alone.
pub data Event : Type 0 where
  -- thread `s` goes on
  go : (s : ℕ) → Event
  -- a command on thread `s` sends a message to shard `r`, and marks it
  send : (s r : ℕ) → Event
  -- a socket's event ends the `epoll_wait` of thread `s`
  socket_event : (s : ℕ) → Event
  -- thread `s` reads its `wakeup_fd`, which is an event of its own
  read_wakeup : (s : ℕ) → Event

abbrev pub mark : (s r : ℕ) → Threads → Threads
mark s r st = record st {
  queue = update st.queue r (st.queue r + 1);
  marked = update st.marked s (update (st.marked s) r true);
}

-- An event that cannot happen now is skipped.
unfoldable pub step : Event → Threads → Threads
unfolding advance
step (go s) st = advance (st.phase s) s st
step (send s r) st = if is_running (st.phase s) && ltb r st.size then mark s r st else st
step (socket_event s) st = if is_waiting (st.phase s) then at st s rousing else st
step (read_wakeup s) st =
    if is_serving (st.phase s) then record st { wake = update st.wake s 0 } else st

unfoldable pub run : List Event → Threads → Threads
unfolding step
run [] st = st
run (e ∷ es) st = run es (step e st)

-- The threads when they enter `reactor_run`.
abbrev pub started : (size : ℕ) → Threads
started size = record {
  size = size;
  phase = λ _. waking 0;
  running = λ _. true;
  marked = λ _ _. false;
  queue = λ _. 0;
  sleeping = λ _. true;
  wake = λ _. 0;
}
