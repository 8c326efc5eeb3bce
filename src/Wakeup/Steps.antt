-- ===== src/Wakeup/Steps.antt =====
-- A step of one thread keeps what the threads know of each other.
use ghetto_redis.Prelude.{
  ℕ, ◌<◌, ◌≡◌, ◌≢◌, refl, sym, ap, ◌∙◌, ◌⊎◌, inl, inr, ◌==◌, ==_self, ==_iff, ltb, if◌then◌else◌,
  Bool, true, false, Bool-cases, arith,
}
use ghetto_redis.Commands.State.{update}
use ghetto_redis.Wakeup.{Phase, falling_asleep, checking, restarting, waiting, Threads, at}
use ghetto_redis.Wakeup.Inv.{on_way, is_quiet, is_down, is_notifying, Notified, OnWay, Inv}

pub update_cases {ℓ} :
    {A : Type ℓ} (f : ℕ → A) (i : ℕ) (v : A) (j : ℕ)
    → ((j ≡ i) × (update f i v j ≡ v)) ⊎ ((j ≢ i) × (update f i v j ≡ f j))
update_cases f i v j = elim (Bool-cases (j == i)) [
  | inl e ↦ inl ((==_iff j i).0 e, rw e)
  | inr e ↦ inr (ground (arith, e), rw e)
]

pub update_self {ℓ} : {A : Type ℓ} (f : ℕ → A) (i : ℕ) (v : A) → update f i v i ≡ v
update_self f i v = rw (==_self i)

module _ (st : Threads) (s : ℕ) (p : Phase) where
  -- A thread that is on its way to `r`, or about to notify it, still is when thread `s` moves, if `s` is.
  pub OnWay-at :
      (r : ℕ)
      → (on_way (st.phase s) (st.marked s r) r ≡ true → OnWay (at st s p) r)
      → OnWay st r
      → OnWay (at st s p) r
  OnWay-at r still (w, e) = elim (update_cases st.phase s p w) [
    | inl (same, _) ↦ still (rw same at e)
    | inr (_, kept) ↦ (w, rw kept e)
  ]

  pub Notified-at :
      (r : ℕ) → is_notifying (st.phase s) r ≡ false → Notified st r → Notified (at st s p) r
  Notified-at r silent (w, e) = elim (update_cases st.phase s p w) [
    | inl (same, _) ↦ absurd (clash (sym silent ∙ (rw same at e)))
    | inr (_, kept) ↦ (w, rw kept e)
  ]
    where
      clash : false ≡ true → ⊥
      clash h = cc

  -- What a thread counts on for being woken, `b` being whether it sleeps.
  pub Asleep-at :
      (b : Bool) (r : ℕ)
      → is_notifying (st.phase s) r ≡ false
      → (b ≡ true) ⊎ (0 < st.wake r) ⊎ Notified st r
      → (b ≡ true) ⊎ (0 < st.wake r) ⊎ Notified (at st s p) r
  Asleep-at b r silent a = elim a [
    | inl x ↦ inl x
    | inr x ↦ elim x [ inl y ↦ inr (inl y) | inr y ↦ inr (inr (Notified-at r silent y)) ]
  ]

-- A step that changes where thread `s` stands and at most whether it sleeps.
pub move-Inv :
    (st : Threads) (s : ℕ) (p : Phase) (sleeping : ℕ → Bool)
    → Inv st
    → ((r : ℕ) → r ≢ s → sleeping r ≡ st.sleeping r)
    → ((r : ℕ) → is_quiet p ≡ true → st.marked s r ≡ false)
    → (is_down p ≡ true → (sleeping s ≡ true) ⊎ (0 < st.wake s) ⊎ Notified st s)
    → ((r : ℕ) → is_notifying (st.phase s) r ≡ false)
    → (p ≡ waiting → (st.phase s ≡ waiting) ⊎ (st.queue s ≡ 0))
    → ((r : ℕ)
        → st.phase r ≡ waiting
        → 0 < st.queue r
        → st.wake r ≡ 0
        → on_way (st.phase s) (st.marked s r) r ≡ true
        → OnWay (at st s p) r)
    → Inv (at (record st { sleeping = sleeping }) s p)
move-Inv st s p sleeping inv same quiet down silent waits still = record {
  runs = inv.runs;
  quiet = λ w r e. elim (update_cases st.phase s p w) [
    | inl (here, now) ↦ rw here (quiet r (rw now at e))
    | inr (_, kept) ↦ inv.quiet w r (rw kept at e)
  ];
  inside = inv.inside;
  asleep = λ r e. elim (update_cases st.phase s p r) [
    | inl (here, now) ↦ rw here (Asleep-at st s p (sleeping s) s (silent s) (down (rw now at e)))
    | inr (ne, kept) ↦
        rw (same r ne) (Asleep-at st s p (st.sleeping r) r (silent r) (inv.asleep r (rw kept at e)))
  ];
  heard = λ r e some_message no_wake. elim (update_cases st.phase s p r) [
    | inl (here, now) ↦ elim (waits (sym now ∙ e)) [
      | inl before ↦
          let old = rw here at no_wake in
          let some_old = rw here at some_message in
          rw here
            (OnWay-at st s p s (still s before some_old old) (inv.heard s before some_old old))
      | inr none_left ↦ absurd (ground (arith, none_left, here, some_message))
    ]
    | inr (_, kept) ↦
        OnWay-at st s p r (still r (rw kept at e) some_message no_wake)
          (inv.heard r (rw kept at e) some_message no_wake)
  ];
}

-- The same where the place before the step is known, and the thread stays on its way.
pub local-Inv :
    (st : Threads) (s : ℕ) (before p : Phase) (sleeping : ℕ → Bool)
    → Inv st
    → st.phase s ≡ before
    → ((r : ℕ) → r ≢ s → sleeping r ≡ st.sleeping r)
    → (is_quiet p ≡ true → is_quiet before ≡ true)
    → (is_down p ≡ true → (sleeping s ≡ true) ⊎ (0 < st.wake s) ⊎ Notified st s)
    → ((r : ℕ) → is_notifying before r ≡ false)
    → (p ≡ waiting → (before ≡ waiting) ⊎ (st.queue s ≡ 0))
    → ((r : ℕ) → on_way before (st.marked s r) r ≡ true → on_way p (st.marked s r) r ≡ true)
    → Inv (at (record st { sleeping = sleeping }) s p)
local-Inv st s before p sleeping inv here same quiet down silent waits keeps =
    move-Inv st s p sleeping inv same (λ r e. inv.quiet s r (rw here (quiet e))) down
      (λ r. rw here (silent r)) (λ e. rw here (waits e))
      (λ r _ _ _ e. (s, rw (==_self s) (keeps r (rw here at e))))

pub false_ne : false ≡ true → ⊥
false_ne h = cc

module _ (st : Threads) (s : ℕ) (inv : Inv st) where
  pub falling_asleep-Inv :
      st.phase s ≡ falling_asleep
      → Inv (at (record st { sleeping = update st.sleeping s true }) s checking)
  falling_asleep-Inv e =
      local-Inv st s falling_asleep checking (update st.sleeping s true) inv e
        (λ r ne. ground (arith, ne)) (λ _. refl) (λ _. inl (update_self st.sleeping s true))
        (λ r. refl) (λ h. cc) (λ r h. cc)

  -- Waking up where no message or bit is at stake.
  pub up-Inv :
      (before p : Phase)
      → st.phase s ≡ before
      → (is_quiet p ≡ true → is_quiet before ≡ true)
      → is_down p ≡ false
      → ((r : ℕ) → is_notifying before r ≡ false)
      → ((r : ℕ) → on_way before (st.marked s r) r ≡ true → on_way p (st.marked s r) r ≡ true)
      → (b : Bool) → Inv (at (record st { sleeping = update st.sleeping s b }) s p)
  up-Inv before p e quiet up silent keeps b =
      local-Inv st s before p (update st.sleeping s b) inv e (λ r ne. ground (arith, ne)) quiet
        (λ d. absurd (false_ne (sym up ∙ d))) silent
        (λ h. absurd (false_ne (sym up ∙ ap is_down h))) keeps

  -- A step that changes only where the thread stands, and does not make it count on being woken.
  pub go-Inv :
      (before p : Phase)
      → st.phase s ≡ before
      → (is_quiet p ≡ true → is_quiet before ≡ true)
      → is_down p ≡ false
      → ((r : ℕ) → is_notifying before r ≡ false)
      → ((r : ℕ) → on_way before (st.marked s r) r ≡ true → on_way p (st.marked s r) r ≡ true)
      → Inv (at st s p)
  go-Inv before p e quiet up silent keeps =
      local-Inv st s before p st.sleeping inv e (λ r ne. refl) quiet
        (λ d. absurd (false_ne (sym up ∙ d))) silent
        (λ h. absurd (false_ne (sym up ∙ ap is_down h))) keeps

  pub checking-Inv :
      (b : Bool)
      → st.phase s ≡ checking
      → ltb 0 (st.queue s) ≡ b
      → Inv (at st s (if b then restarting else waiting))
  checking-Inv true e some_message =
      go-Inv checking restarting e (λ _. refl) refl (λ r. refl) (λ r h. absurd (false_ne h))
  checking-Inv false e none_left =
      local-Inv st s checking waiting st.sleeping inv e (λ r ne. refl) (λ _. refl)
        (λ _. inv.asleep s (rw e)) (λ r. refl) (λ _. inr (ground (arith, none_left)))
        (λ r h. absurd (false_ne h))
