-- ===== src/Wakeup/Inv.antt =====
-- What the threads know of each other.
use ghetto_redis.Prelude.{ℕ, zero, ◌+◌, ◌<◌, ◌≡◌, ◌⊎◌, ◌==◌, leb, Bool, true, false, ◌&&◌, ◌||◌}
use ghetto_redis.Wakeup.{
  Phase, waking, notifying, polling, calling, falling_asleep, checking, restarting, waiting,
  rousing, serving, Threads,
}

-- Whether a thread that stands there, with the bit of `r` as given, is on its way to wake `r`.
abbrev pub on_way : Phase → (mark : Bool) → (r : ℕ) → Bool
on_way (waking i) mark r = mark && leb i r
on_way (notifying i) mark r = i == r || mark && leb (i + 1) r
on_way (polling _) mark r = mark
on_way (calling _) mark r = mark
on_way serving mark r = mark
on_way _ mark r = false

-- Where a thread has no bit set.
abbrev pub is_quiet : Phase → Bool
is_quiet (polling zero) = true
is_quiet falling_asleep = true
is_quiet checking = true
is_quiet restarting = true
is_quiet waiting = true
is_quiet rousing = true
is_quiet _ = false

-- Where a thread counts on being woken.
abbrev pub is_down : Phase → Bool
is_down checking = true
is_down waiting = true
is_down _ = false

abbrev pub is_notifying : Phase → ℕ → Bool
is_notifying (notifying i) r = i == r
is_notifying _ r = false

-- Some thread is about to wake reactor `r`.
abbrev pub Notified : Threads → ℕ → Type 0
Notified st r = (s : ℕ) × (is_notifying (st.phase s) r ≡ true)

abbrev pub OnWay : Threads → ℕ → Type 0
OnWay st r = (s : ℕ) × (on_way (st.phase s) (st.marked s r) r ≡ true)

pub record Inv (st : Threads) : Type 0 where
  pub runs : (s : ℕ) → st.running s ≡ true
  pub quiet : (s r : ℕ) → is_quiet (st.phase s) ≡ true → st.marked s r ≡ false
  pub inside : (s r : ℕ) → st.marked s r ≡ true → r < st.size
  pub asleep :
      (r : ℕ)
      → is_down (st.phase r) ≡ true
      → (st.sleeping r ≡ true) ⊎ (0 < st.wake r) ⊎ Notified st r
  pub heard : (r : ℕ) → st.phase r ≡ waiting → 0 < st.queue r → st.wake r ≡ 0 → OnWay st r
