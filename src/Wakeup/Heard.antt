-- ===== src/Wakeup/Heard.antt =====
-- No message is left to a thread that sleeps and that no other is on its way to wake.
use ghetto_redis.Prelude.{
  ℕ, ◌+◌, ◌-◌, ◌<◌, ◌≡◌, ◌≢◌, refl, sym, ap, ◌∙◌, inl, inr, ◌==◌, ==_self, ==_iff, leb, Bool, true,
  false, ◌&&◌, ◌||◌, Bool-cases, arith,
}
use ghetto_redis.Commands.State.{update}
use ghetto_redis.Wakeup.{
  Phase, waking, notifying, polling, calling, falling_asleep, checking, restarting, waiting,
  rousing, serving, ended, Threads, at, is_running, is_serving, mark,
}
use ghetto_redis.Wakeup.Inv.{on_way, is_quiet, is_down, is_notifying, Notified, OnWay, Inv}
use ghetto_redis.Wakeup.Steps.{
  update_cases, update_self, OnWay-at, Notified-at, Asleep-at, move-Inv, false_ne,
}

on_way-Notified : (p : Phase) (m : Bool) (r : ℕ) → is_notifying p r ≡ true → on_way p m r ≡ true
on_way-Notified (notifying i) m r e = ground (arith, e)
on_way-Notified (waking i) m r e = absurd (false_ne e)
on_way-Notified (polling i) m r e = absurd (false_ne e)
on_way-Notified (calling i) m r e = absurd (false_ne e)
on_way-Notified falling_asleep m r e = absurd (false_ne e)
on_way-Notified ended m r e = absurd (false_ne e)
on_way-Notified checking m r e = absurd (false_ne e)
on_way-Notified restarting m r e = absurd (false_ne e)
on_way-Notified waiting m r e = absurd (false_ne e)
on_way-Notified rousing m r e = absurd (false_ne e)
on_way-Notified serving m r e = absurd (false_ne e)

OnWay-Notified : (st : Threads) (r : ℕ) → Notified st r → OnWay st r
OnWay-Notified st r (w, e) = (w, on_way-Notified (st.phase w) (st.marked w r) r e)

-- A thread that runs a command has bits that count, and is not down.
running_lem :
    (p : Phase) (r : ℕ) → is_running p ≡ true → (is_quiet p ≡ false) × (on_way p true r ≡ true)
running_lem (calling i) r e = (refl, refl)
running_lem serving r e = (refl, refl)
running_lem (notifying i) r e = absurd (false_ne e)
running_lem (waking i) r e = absurd (false_ne e)
running_lem (polling i) r e = absurd (false_ne e)
running_lem falling_asleep r e = absurd (false_ne e)
running_lem ended r e = absurd (false_ne e)
running_lem checking r e = absurd (false_ne e)
running_lem restarting r e = absurd (false_ne e)
running_lem waiting r e = absurd (false_ne e)
running_lem rousing r e = absurd (false_ne e)

module _ (st : Threads) (s : ℕ) (inv : Inv st) where
  -- The reset behind the loop of `reactor_wakeup_pending`.
  pub reset-Inv :
      st.phase s ≡ waking st.size
      → Inv (at (record st { marked = update st.marked s (λ _. false) }) s (polling 0))
  reset-Inv e = record {
    runs = inv.runs;
    quiet = λ w r q. elim (update_cases st.phase s (polling 0) w) [
      | inl (here, _) ↦ rw (here, update_self st.marked s (λ _. false))
      | inr (ne, kept) ↦ rw (other w ne) (inv.quiet w r (rw kept at q))
    ];
    inside = λ w r m. elim (update_cases st.marked s (λ _. false) w) [
      | inl (_, now) ↦ absurd (false_ne (rw now at m))
      | inr (_, kept) ↦ inv.inside w r (rw kept at m)
    ];
    asleep = λ r down. elim (update_cases st.phase s (polling 0) r) [
      | inl (_, now) ↦ absurd (false_ne (rw now at down))
      | inr (_, kept) ↦
          Asleep-at st s (polling 0) (st.sleeping r) r (rw e) (inv.asleep r (rw kept at down))
    ];
    heard = λ r waits some_message no_wake. elim (update_cases st.phase s (polling 0) r) [
      | inl (_, now) ↦ absurd (false_ne (ap is_down (sym now ∙ waits)))
      | inr (_, kept) ↦
          let (w, way) = inv.heard r (rw kept at waits) some_message no_wake in
          elim (update_cases st.phase s (polling 0) w) [
            | inl (same, _) ↦
                let bit : (st.marked s r && leb st.size r) ≡ true = rw (same, e) at way in
                absurd (past r bit)
            | inr (ne, stays) ↦ (w, rw (stays, other w ne) way)
          ]
    ];
  }
    where
      other : (w : ℕ) → w ≢ s → update st.marked s (λ _. false) w ≡ st.marked w
      other w ne = ground (arith, ne)

      past : (r : ℕ) → (st.marked s r && leb st.size r) ≡ true → ⊥
      past r bit = let below = inv.inside s r (ground (arith, bit)) in ground (arith, bit, below)

  -- The exchange that finds reactor `i` asleep.
  pub exchange-Inv :
      (i : ℕ)
      → st.phase s ≡ waking i
      → st.marked s i ≡ true
      → Inv (at (record st { sleeping = update st.sleeping i false }) s (notifying i))
  exchange-Inv i e marked = record {
    runs = inv.runs;
    quiet = λ w r q. elim (update_cases st.phase s (notifying i) w) [
      | inl (_, now) ↦ absurd (false_ne (rw now at q))
      | inr (_, kept) ↦ inv.quiet w r (rw kept at q)
    ];
    inside = inv.inside;
    asleep = λ r down. elim (update_cases st.phase s (notifying i) r) [
      | inl (_, now) ↦ absurd (false_ne (rw now at down))
      | inr (_, kept) ↦ elim (update_cases st.sleeping i false r) [
        | inl (target, _) ↦ inr (inr (s, rw (==_self s, target) (==_self i)))
        | inr (_, still) ↦
            rw still (
              Asleep-at st s (notifying i) (st.sleeping r) r (rw e)
                (inv.asleep r (rw kept at down)))
      ]
    ];
    heard = λ r waits some_message no_wake. elim (update_cases st.phase s (notifying i) r) [
      | inl (_, now) ↦ absurd (false_ne (ap is_down (sym now ∙ waits)))
      | inr (_, kept) ↦
          OnWay-at st s (notifying i) r
            (λ h.
              let bit : (st.marked s r && leb i r) ≡ true = rw e at h in
              (s, rw (==_self s) (ground (arith, bit))))
            (inv.heard r (rw kept at waits) some_message no_wake)
    ];
  }

  -- Bit `i` is not set, or reactor `i` does not sleep.
  pub pass-Inv :
      (i : ℕ)
      → st.phase s ≡ waking i
      → (st.marked s i && st.sleeping i) ≡ false
      → Inv (at st s (waking (i + 1)))
  pass-Inv i e none_asleep =
      move-Inv st s (waking (i + 1)) st.sleeping inv (λ r ne. refl) (λ r h. absurd (false_ne h))
        (λ h. absurd (false_ne h)) (λ r. rw e) (λ h. absurd (false_ne (ap is_down h)))
        (λ r asleep some_message no_wake h.
          let bit : (st.marked s r && leb i r) ≡ true = rw e at h in
          elim (Bool-cases (r == i)) [
            | inl here ↦
                let same : r ≡ i = (==_iff r i).0 here in
                let awake : st.sleeping r ≡ false =
                  let none : (st.marked s r && st.sleeping r) ≡ false = rw same none_asleep in
                  ground (arith, bit, none) in
                elim (inv.asleep r (rw asleep)) [
                  | inl sleeps ↦ absurd (false_ne (sym awake ∙ sleeps))
                  | inr x ↦ elim x [
                    | inl woken ↦ absurd (omega (arith, woken, no_wake))
                    | inr notified ↦
                        OnWay-Notified (at st s (waking (i + 1))) r
                          (Notified-at st s (waking (i + 1)) r (rw e) notified)
                  ]
                ]
            | inr later ↦ (s, rw (==_self s) (ground (arith, bit, later)))
          ])

  -- The `write` to a `wakeup_fd`.
  pub notify-Inv :
      (i : ℕ)
      → st.phase s ≡ notifying i
      → Inv (at (record st { wake = update st.wake i (st.wake i + 1) }) s (waking (i + 1)))
  notify-Inv i e = record {
    runs = inv.runs;
    quiet = λ w r q. elim (update_cases st.phase s (waking (i + 1)) w) [
      | inl (here, now) ↦ absurd (false_ne (rw now at q))
      | inr (_, kept) ↦ inv.quiet w r (rw kept at q)
    ];
    inside = inv.inside;
    asleep = λ r down. elim (update_cases st.phase s (waking (i + 1)) r) [
      | inl (here, now) ↦ absurd (false_ne (rw now at down))
      | inr (_, kept) ↦ elim (inv.asleep r (rw kept at down)) [
        | inl sleeps ↦ inl sleeps
        | inr x ↦ elim x [
          | inl woken ↦ inr (inl (ground arith))
          | inr (w, n) ↦ elim (update_cases st.phase s (waking (i + 1)) w) [
            | inl (same, _) ↦
                let hit : (i == r) ≡ true = rw (same, e) at n in inr (inl (ground (arith, hit)))
            | inr (_, stays) ↦ inr (inr (w, rw stays n))
          ]
        ]
      ]
    ];
    heard = λ r waits some_message no_wake. elim (update_cases st.phase s (waking (i + 1)) r) [
      | inl (here, now) ↦ absurd (false_ne (ap is_down (sym now ∙ waits)))
      | inr (_, kept) ↦
          OnWay-at st s (waking (i + 1)) r
            (λ h.
              let after : (i == r || st.marked s r && leb (i + 1) r) ≡ true = rw e at h in
              (s, rw (==_self s) (ground (arith, no_wake, after))))
            (inv.heard r (rw kept at waits) some_message (ground arith))
    ];
  }

  -- `mpmcq_dequeue` takes a message.
  pub dequeue-Inv :
      (count : ℕ)
      → st.phase s ≡ polling count
      → Inv (at (record st { queue = update st.queue s (st.queue s - 1) }) s (calling count))
  dequeue-Inv count e = record {
    runs = inv.runs;
    quiet = λ w r q. elim (update_cases st.phase s (calling count) w) [
      | inl (_, now) ↦ absurd (false_ne (rw now at q))
      | inr (_, kept) ↦ inv.quiet w r (rw kept at q)
    ];
    inside = inv.inside;
    asleep = λ r down. elim (update_cases st.phase s (calling count) r) [
      | inl (_, now) ↦ absurd (false_ne (rw now at down))
      | inr (_, kept) ↦
          Asleep-at st s (calling count) (st.sleeping r) r (rw e) (inv.asleep r (rw kept at down))
    ];
    heard = λ r waits some_message no_wake. elim (update_cases st.phase s (calling count) r) [
      | inl (_, now) ↦ absurd (false_ne (ap is_down (sym now ∙ waits)))
      | inr (ne, kept) ↦
          OnWay-at st s (calling count) r (λ h. (s, rw (==_self s) (rw e at h)))
            (inv.heard r (rw kept at waits) (ground (arith, ne, some_message)) no_wake)
    ];
  }

  pub send-Inv : (r : ℕ) → is_running (st.phase s) ≡ true → r < st.size → Inv (mark s r st)
  send-Inv r running inside = record {
    runs = inv.runs;
    quiet = λ w x q. elim (update_cases st.marked s (update (st.marked s) r true) w) [
      | inl (here, _) ↦
          absurd (false_ne (sym (running_lem (st.phase s) r running).0 ∙ (rw here at q)))
      | inr (_, kept) ↦ rw kept (inv.quiet w x q)
    ];
    inside = λ w x m. elim (update_cases st.marked s (update (st.marked s) r true) w) [
      | inl (_, now) ↦ elim (update_cases (st.marked s) r true x) [
        | inl (target, _) ↦ rw target inside
        | inr (_, kept) ↦ inv.inside s x (sym kept ∙ (rw now at m))
      ]
      | inr (_, kept) ↦ inv.inside w x (rw kept at m)
    ];
    asleep = inv.asleep;
    heard = λ x waits some_message no_wake. elim (update_cases st.queue r (st.queue r + 1) x) [
      | inl (target, _) ↦
          rw target (s, rw (==_self s, ==_self r) (running_lem (st.phase s) r running).1)
      | inr (ne, same) ↦
          let (w, way) = inv.heard x waits (rw same at some_message) no_wake in
          (w, rw (other w x ne) way)
    ];
  }
    where
      other :
          (w x : ℕ) → x ≢ r → update st.marked s (update (st.marked s) r true) w x ≡ st.marked w x
      other w x ne = elim (update_cases st.marked s (update (st.marked s) r true) w) [
        | inl (here, now) ↦ ap (λ f. f x) now ∙ ground (arith, ne, here)
        | inr (_, kept) ↦ ap (λ f. f x) kept
      ]

  pub read_wakeup-Inv :
      is_serving (st.phase s) ≡ true → Inv (record st { wake = update st.wake s 0 })
  read_wakeup-Inv serves = record {
    runs = inv.runs;
    quiet = inv.quiet;
    inside = inv.inside;
    asleep = λ r down. elim (update_cases st.wake s 0 r) [
      | inl (here, _) ↦ absurd (serving_down (st.phase s) serves (rw here at down))
      | inr (_, kept) ↦ rw kept (inv.asleep r down)
    ];
    heard = λ r waits some_message no_wake. elim (update_cases st.wake s 0 r) [
      | inl (here, _) ↦ absurd (serving_down (st.phase s) serves (ap is_down (rw here at waits)))
      | inr (_, kept) ↦ inv.heard r waits some_message (sym kept ∙ no_wake)
    ];
  }
    where
      serving_down : (p : Phase) → is_serving p ≡ true → is_down p ≡ true → ⊥
      serving_down checking h d = false_ne h
      serving_down waiting h d = false_ne h
      serving_down serving h d = false_ne d
      serving_down (notifying i) h d = false_ne d
      serving_down (waking i) h d = false_ne d
      serving_down (polling i) h d = false_ne d
      serving_down (calling i) h d = false_ne d
      serving_down falling_asleep h d = false_ne d
      serving_down ended h d = false_ne d
      serving_down restarting h d = false_ne d
      serving_down rousing h d = false_ne d
