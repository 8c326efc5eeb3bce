-- ===== src/Reactor.antt =====
-- Messages between reactors: src/include/reactor.c, and `reactor_wakeup_pending` of
-- src/include/reactor_epoll.c.
pub mod Table
use ghetto_redis.Prelude.{
  ℕ, zero, suc, ◌+◌, ◌<◌, ◌≡◌, ltb, ltb-true, if◌then◌else◌, [], ◌∷◌, ◌++◌, Bool, true, false, ◌&&◌,
  Option, none, some, length,
}
use ghetto_redis.Commands.State.{Message, World, update, set_reactor}

-- `none` is a call that does not return.
infixl 5 ◌>>=◌
abbrev pub ◌>>=◌ {ℓ κ} : {A : Type ℓ} {B : Type κ} → Option A → (A → Option B) → Option B
none >>= f = none
some a >>= f = f a

-- The size that `reactor_init` gives the queue.
abbrev pub queue_size : ℕ
queue_size = 8192

module _ {Map : Type 0} where
  -- `mpmcq_enqueue` on the target's queue. On a full queue it does not return while no other thread
  -- takes a message out (Mpmcq.Full), so it never returns false.
  unfoldable pub reactor_send_message :
      (target : ℕ) → Message Map → World Map → Option (Bool × World Map)
  reactor_send_message target message w =
      let r = (w.shards target).reactor in
      if ltb (length r.cb_queue) queue_size
      then some (true, set_reactor target (record r { cb_queue = r.cb_queue ++ (message ∷ []) }) w)
      else none

  -- The queue with one more message at its end.
  abbrev pub push : (target : ℕ) → Message Map → World Map → World Map
  push target message w =
      let r = (w.shards target).reactor in
      set_reactor target (record r { cb_queue = r.cb_queue ++ (message ∷ []) }) w

  pub reactor_send_message-room :
      (target : ℕ) (message : Message Map) (w : World Map)
      → length (w.shards target).reactor.cb_queue < queue_size
      → reactor_send_message target message w ≡ some (true, push target message w)
  unfolding reactor_send_message
  reactor_send_message-room target message w room =
      rw (ltb-true (length (w.shards target).reactor.cb_queue) queue_size room)

  -- `BITSET64_SET(reactor->soft_notify, id)`. It shifts an `int`, which is a bit of its own for an id
  -- below 31; the program has 4 reactors.
  unfoldable pub notify : (self id : ℕ) → World Map → World Map
  notify self id w =
      let r = (w.shards self).reactor in
      set_reactor self (record r { soft_notify = update r.soft_notify id true }) w

  pub reactor_has_pending_messages : (self : ℕ) → World Map → Bool
  reactor_has_pending_messages self w = ltb 0 (length (w.shards self).reactor.cb_queue)

  -- The loop of `reactor_wakeup_pending` from shard `i` with `n` rounds left. It returns the
  -- number of reactors that it wakes with a write to their `wakeup_fd`.
  unfoldable pub wakeup_loop : ℕ → (self i woken : ℕ) → World Map → ℕ × World Map
  wakeup_loop zero self i woken w = (woken, w)
  wakeup_loop (suc n) self i woken w =
      let r = (w.shards i).reactor in
      let set = (w.shards self).reactor.soft_notify i in
      wakeup_loop n self (i + 1) (if set && r.sleeping then woken + 1 else woken)
        (if set then set_reactor i (record r { sleeping = false }) w else w)

  -- The returned `notifed` is whether a reactor was woken.
  unfoldable pub reactor_wakeup_pending : (self : ℕ) → World Map → ℕ × World Map
  unfolding wakeup_loop
  reactor_wakeup_pending self w =
      let (woken, w') = wakeup_loop w.size self 0 0 w in
      (woken, set_reactor self (record (w'.shards self).reactor { soft_notify = λ _. false }) w')

  -- `reactor_poll_callbacks` with fuel for that many messages: it runs the callback on each until
  -- the queue is empty, and counts them.
  unfoldable pub poll_loop :
      ((self : ℕ) → Message Map → World Map → Option (World Map))
      → ℕ
      → (self count : ℕ) → World Map
      → Option (ℕ × World Map)
  poll_loop on_cb zero self count w = none
  poll_loop on_cb (suc fuel) self count w = elim (w.shards self).reactor.cb_queue [
    | [] ↦ some (count, w)
    | message ∷ rest ↦
        on_cb self message (set_reactor self (record (w.shards self).reactor { cb_queue = rest }) w)
        >>= λ w. poll_loop on_cb fuel self (count + 1) w
  ]
