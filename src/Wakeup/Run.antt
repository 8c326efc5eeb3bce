-- ===== src/Wakeup/Run.antt =====
-- Every schedule of the threads keeps what they know of each other, so that no message is stranded.
use ghetto_redis.Prelude.{
  ℕ, zero, suc, ◌+◌, ◌<◌, ◌≡◌, refl, sym, ap, ◌∙◌, inl, inr, ◌==◌, ==_iff, ltb, if◌then◌else◌, List,
  [], ◌∷◌, Bool, true, false, ◌&&◌, Bool-cases, arith,
}
use ghetto_redis.Commands.State.{update}
use ghetto_redis.Wakeup.{
  Phase, waking, notifying, polling, calling, falling_asleep, checking, restarting, waiting,
  rousing, serving, ended, Threads, at, advance, is_running, is_waiting, is_serving, Event, go,
  send, socket_event, read_wakeup, step, run, started,
}
use ghetto_redis.Wakeup.Inv.{OnWay, Inv}
use ghetto_redis.Wakeup.Steps.{
  false_ne, local-Inv, falling_asleep-Inv, up-Inv, go-Inv, checking-Inv,
}
use ghetto_redis.Wakeup.Heard.{
  reset-Inv, exchange-Inv, pass-Inv, notify-Inv, dequeue-Inv, send-Inv, read_wakeup-Inv,
}

module _ (st : Threads) (s : ℕ) (inv : Inv st) where
  waking-Inv : (i : ℕ) → st.phase s ≡ waking i → Inv (advance (waking i) s st)
  unfolding advance
  waking-Inv i e = by_tests (i == st.size) refl (st.marked s i && st.sleeping i) refl
    where
      by_tests :
          (last : Bool)
          → (i == st.size) ≡ last
          → (asleep : Bool) → (st.marked s i && st.sleeping i) ≡ asleep
          → Inv (
              if last
              then at (record st { marked = update st.marked s (λ _. false) }) s (polling 0)
              else if asleep
              then at (record st { sleeping = update st.sleeping i false }) s (notifying i)
              else at st s (waking (i + 1)))
      by_tests true l asleep a = reset-Inv st s inv (e ∙ ap waking ((==_iff _ _).0 l))
      by_tests false l true a = exchange-Inv st s inv i e (ground (arith, a))
      by_tests false l false a = pass-Inv st s inv i e a

  empty-Inv :
      (count : ℕ)
      → st.phase s ≡ polling count
      → Inv (at st s (if ltb 0 count then serving else falling_asleep))
  empty-Inv zero e =
      go-Inv st s inv (polling 0) falling_asleep e (λ _. refl) refl (λ r. refl)
        (λ r h. absurd (false_ne (sym (inv.quiet s r (rw e)) ∙ h)))
  empty-Inv (suc count) e =
      let some_calls : ltb 0 (suc count) ≡ true = ground arith in
      rw some_calls
        (go-Inv st s inv (polling (suc count)) serving e (λ h. h) refl (λ r. refl) (λ r h. h))

  polling-Inv : (count : ℕ) → st.phase s ≡ polling count → Inv (advance (polling count) s st)
  unfolding advance
  polling-Inv count e = elim (Bool-cases (ltb 0 (st.queue s))) [
    | inl some_message ↦ rw some_message (dequeue-Inv st s inv count e)
    | inr none_left ↦ rw none_left (empty-Inv count e)
  ]

  rouse-Inv : st.phase s ≡ waiting → Inv (at st s rousing)
  rouse-Inv e =
      go-Inv st s inv waiting rousing e (λ _. refl) refl (λ r. refl) (λ r h. absurd (false_ne h))

  waiting-Inv : st.phase s ≡ waiting → Inv (advance waiting s st)
  unfolding advance
  waiting-Inv e = elim (Bool-cases (ltb 0 (st.wake s))) [
    | inl signalled ↦ rw signalled (rouse-Inv e)
    | inr quiet ↦ rw quiet (
        local-Inv st s waiting waiting st.sleeping inv e (λ r ne. refl) (λ _. refl)
          (λ _. inv.asleep s (rw e)) (λ r. refl) (λ _. inl refl) (λ r h. absurd (false_ne h)))
  ]

  advance-Inv : (p : Phase) → st.phase s ≡ p → Inv (advance p s st)
  unfolding advance
  advance-Inv (waking i) e = waking-Inv i e
  advance-Inv (notifying i) e = notify-Inv st s inv i e
  advance-Inv (polling count) e = polling-Inv count e
  advance-Inv (calling count) e =
      go-Inv st s inv (calling count) (polling (suc count)) e (λ h. absurd (false_ne h)) refl
        (λ r. refl) (λ r h. h)
  advance-Inv falling_asleep e = falling_asleep-Inv st s inv e
  advance-Inv checking e = checking-Inv st s inv (ltb 0 (st.queue s)) e refl
  advance-Inv ended e = inv
  advance-Inv restarting e = rw (inv.runs s) (
      up-Inv st s inv restarting (waking 0) e (λ h. absurd (false_ne h)) refl (λ r. refl)
        (λ r h. absurd (false_ne h)) false)
  advance-Inv waiting e = waiting-Inv e
  advance-Inv rousing e =
      up-Inv st s inv rousing serving e (λ h. absurd (false_ne h)) refl (λ r. refl)
        (λ r h. absurd (false_ne h)) false
  advance-Inv serving e = rw (inv.runs s) (
      go-Inv st s inv serving (waking 0) e (λ h. absurd (false_ne h)) refl (λ r. refl)
        (λ r h. ground (arith, h)))

waiting_of : (p : Phase) → is_waiting p ≡ true → p ≡ waiting
waiting_of waiting h = refl
waiting_of (waking i) h = absurd (false_ne h)
waiting_of (notifying i) h = absurd (false_ne h)
waiting_of (polling i) h = absurd (false_ne h)
waiting_of (calling i) h = absurd (false_ne h)
waiting_of falling_asleep h = absurd (false_ne h)
waiting_of checking h = absurd (false_ne h)
waiting_of restarting h = absurd (false_ne h)
waiting_of rousing h = absurd (false_ne h)
waiting_of serving h = absurd (false_ne h)
waiting_of ended h = absurd (false_ne h)

step-Inv : (e : Event) (st : Threads) → Inv st → Inv (step e st)
unfolding step
step-Inv (go s) st inv = advance-Inv st s inv (st.phase s) refl
step-Inv (send s r) st inv = elim (Bool-cases (is_running (st.phase s) && ltb r st.size)) [
  | inl can ↦ rw can (send-Inv st s inv r (ground (arith, can)) (ground (arith, can)))
  | inr cannot ↦ rw cannot inv
]
step-Inv (socket_event s) st inv = elim (Bool-cases (is_waiting (st.phase s))) [
  | inl waits ↦ rw waits (rouse-Inv st s inv (waiting_of (st.phase s) waits))
  | inr other ↦ rw other inv
]
step-Inv (read_wakeup s) st inv = elim (Bool-cases (is_serving (st.phase s))) [
  | inl serves ↦ rw serves (read_wakeup-Inv st s inv serves)
  | inr other ↦ rw other inv
]

run-Inv : (es : List Event) (st : Threads) → Inv st → Inv (run es st)
unfolding run
run-Inv [] st inv = inv
run-Inv (e ∷ es) st inv = run-Inv es (step e st) (step-Inv e st inv)

started-Inv : (size : ℕ) → Inv (started size)
started-Inv size = record {
  runs = λ s. refl;
  quiet = λ s r e. refl;
  inside = λ s r e. absurd (false_ne e);
  asleep = λ r e. absurd (false_ne e);
  heard = λ r e some_message no_wake. absurd (omega (arith, some_message));
}

-- While no SHUTDOWN is executed, no wake-up is lost: after any schedule of the threads' accesses, of
-- commands that send messages, of sockets' events and of reads of `wakeup_fd`, if a thread waits in `epoll_wait` while its queue holds a
-- message and its `wakeup_fd` is not signalled, then another thread, which does not wait, is on its
-- way to signal it: it has the thread's bit set and its next pass over the bits still to do, or it is
-- at that very `write`.
pub run-OnWay :
    (size : ℕ) (es : List Event) (r : ℕ)
    → (run es (started size)).phase r ≡ waiting
    → 0 < (run es (started size)).queue r
    → (run es (started size)).wake r ≡ 0
    → OnWay (run es (started size)) r
run-OnWay size es r waits some_message no_wake =
    (run-Inv es (started size) (started-Inv size)).heard r waits some_message no_wake
