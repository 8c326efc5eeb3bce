-- ===== src/Epoll/Events.antt =====
-- One event in the loop of `reactor_run` of src/include/reactor_epoll.c: what it does to the table of
-- connections and to the set of descriptors that epoll watches. The set is the kernel's: an
-- interface with what epoll_ctl(2) documents.
use ghetto_redis.Prelude.{
  ℕ, ◌+◌, ◌≡◌, ◌≢◌, refl, sym, ◌∙◌, ◌==◌, ◌||◌, if◌then◌else◌, Bool, true, false, not, Option, none,
  some, Bool-cases, inl, inr, arith,
}
use ghetto_redis.Vector.{Vector}
use ghetto_redis.Commands.State.{Conn}
use ghetto_redis.Reactor.Table.{
  reactor_conn_emplace, forget_conn, lookup, lookup-reactor_conn_emplace,
}
use ghetto_redis.Epoll.{Answer, done, failed, Exit, returns, aborts, ◌>>=◌}

-- EPOLL_CTL_ADD fails on a watched descriptor, the other two on one that is not watched.
pub record EpollCtl : Type 1 where
  pub Interests : Type 0
  pub watches : Interests → ℕ → Bool
  pub add : Interests → (fd events : ℕ) → Option Interests
  pub modify : Interests → (fd events : ℕ) → Option Interests
  pub del : Interests → (fd : ℕ) → Option Interests
  pub add-watches :
      (s : Interests) (fd events : ℕ)
      → watches s fd ≡ false
      → (s' : Interests) × (add s fd events ≡ some s')
        × ((j : ℕ) → watches s' j ≡ (if j == fd then true else watches s j))
  pub modify-watches :
      (s : Interests) (fd events : ℕ)
      → watches s fd ≡ true
      → (s' : Interests) × (modify s fd events ≡ some s') × ((j : ℕ) → watches s' j ≡ watches s j)
  pub del-watches :
      (s : Interests) (fd : ℕ)
      → watches s fd ≡ true
      → (s' : Interests) × (del s fd ≡ some s')
        × ((j : ℕ) → watches s' j ≡ (if j == fd then false else watches s j))

-- EPOLLIN | EPOLLERR | EPOLLRDHUP | EPOLLHUP, and these with EPOLLOUT.
abbrev pub input_events : ℕ
input_events = 1 + 8 + 8192 + 16

abbrev pub output_events : ℕ
output_events = input_events + 4

module _ (e : EpollCtl) where
  open e use {Interests, watches, add, modify, del, add-watches, modify-watches, del-watches}

  pub record Sockets : Type 0 where
    pub table : Vector
    pub interests : Interests

  -- `epoll_register`, `epoll_modify` and `epoll_unregister` panic where `epoll_ctl` fails.
  unfoldable controlled : Option Interests → Sockets → Exit Sockets
  controlled none s = aborts
  controlled (some interests) s = returns (record s { interests = interests })

  -- The listener's event; `conn` is the address of the connection that `on_accept` makes.
  unfoldable accept_event : (fresh : ℕ → ℕ) → Answer ℕ → (conn : ℕ) → Sockets → Exit Sockets
  unfolding controlled
  accept_event fresh (failed errno) conn s = aborts
  accept_event fresh (done fd) conn s =
      controlled (add s.interests fd input_events)
        (record s { table = reactor_conn_emplace fresh s.table fd conn })

  -- After `reactor_epoll_flush` has left `conn`.
  unfoldable output_event : (fd : ℕ) → Conn → Sockets → Exit Sockets
  unfolding controlled
  output_event fd conn s =
      if conn.flag_blocked then returns s else controlled (modify s.interests fd input_events) s

  -- The end of an event: the connection is closed, or watched for output too.
  unfoldable finish_event : (fd : ℕ) (hangup : Bool) → Conn → Sockets → Exit (Conn × Sockets)
  unfolding controlled
  finish_event fd hangup conn s =
      if conn.flag_end || hangup
      then controlled (del s.interests fd) s
        >>= (λ s. returns (conn, record s { table = forget_conn s.table conn.fd }))
      else if conn.flag_blocked
      then controlled (modify s.interests fd output_events) s
        >>= (λ s. returns (record conn { flag_blocked = false }, s))
      else returns (conn, s)

  -- A connection's event, where `reactor_epoll_on_epollin` and `reactor_epoll_flush` leave `conn`.
  pub conn_event : (fd : ℕ) (epollout hangup : Bool) → Conn → Sockets → Exit (Conn × Sockets)
  unfolding output_event finish_event
  conn_event fd epollout hangup conn s =
      (if epollout then output_event fd conn s else returns s)
      >>= (λ s. finish_event fd hangup conn s)

  module _ (fd_listener wakeup_fd : ℕ) where
    -- Epoll watches the listener, the reactor's `wakeup_fd`, and the descriptors that have a connection
    -- in the table, and no other.
    pub record Tracked (s : Sockets) : Type 0 where
      pub tracked :
          (fd : ℕ)
          → watches s.interests fd
            ≡ (fd == fd_listener || (fd == wakeup_fd || not (lookup s.table fd == 0)))
      pub no_listener : lookup s.table fd_listener ≡ 0
      pub no_wakeup : lookup s.table wakeup_fd ≡ 0

    -- An event of a watched descriptor finds a connection, not NULL.
    Tracked-conn :
        (s : Sockets) (fd : ℕ)
        → Tracked s
        → watches s.interests fd ≡ true
        → fd ≢ fd_listener
        → fd ≢ wakeup_fd
        → (lookup s.table fd == 0) ≡ false
    Tracked-conn s fd t w listener wakeup = ground (arith, t.tracked fd, w)

    accept_event-Tracked :
        (fresh : ℕ → ℕ) (fd conn : ℕ) (s : Sockets)
        → Tracked s
        → watches s.interests fd ≡ false
        → (conn == 0) ≡ false
        → (s' : Sockets) × (accept_event fresh (done fd) conn s ≡ returns s')
          × Tracked s'
          × (lookup s'.table fd ≡ conn)
    unfolding accept_event controlled
    accept_event-Tracked fresh fd conn s t free some_conn =
        let (interests, added, watched) = add-watches s.interests fd input_events free in
        let table = reactor_conn_emplace fresh s.table fd conn in
        let emplaced = λ (j : ℕ). (lookup-reactor_conn_emplace fresh s.table fd conn j).1 in
        (
          record { table = table; interests = interests },
          rw added refl,
          record {
            tracked = λ j. ground (arith, watched j, t.tracked j, some_conn, emplaced j);
            no_listener =
                ground (arith, emplaced fd_listener, t.tracked fd_listener, t.no_listener, free);
            no_wakeup = ground (arith, emplaced wakeup_fd, t.tracked wakeup_fd, t.no_wakeup, free);
          },
          ground (arith, emplaced fd),
        )

    Tracked-same :
        (s : Sockets) (interests : Interests)
        → ((j : ℕ) → watches interests j ≡ watches s.interests j)
        → Tracked s
        → Tracked (record s { interests = interests })
    Tracked-same s interests same t = record {
      tracked = λ j. same j ∙ t.tracked j;
      no_listener = t.no_listener;
      no_wakeup = t.no_wakeup;
    }

    output_event-Tracked :
        (fd : ℕ) (conn : Conn) (s : Sockets)
        → Tracked s
        → watches s.interests fd ≡ true
        → (s' : Sockets) × (output_event fd conn s ≡ returns s') × (s'.table ≡ s.table) × Tracked s'
    unfolding output_event controlled
    output_event-Tracked fd conn s t w = elim (Bool-cases conn.flag_blocked) [
      | inl blocked ↦ (s, rw blocked refl, refl, t)
      | inr free ↦
          let (interests, changed, same) = modify-watches s.interests fd input_events w in
          (
            record s { interests = interests },
            rw (free, changed) refl,
            refl,
            Tracked-same s interests same t,
          )
    ]

    finish_event-Tracked :
        (fd : ℕ) (hangup : Bool) (conn : Conn) (s : Sockets)
        → Tracked s
        → watches s.interests fd ≡ true
        → fd ≢ fd_listener
        → fd ≢ wakeup_fd
        → conn.fd ≡ fd
        → (conn' : Conn) × (s' : Sockets) × (finish_event fd hangup conn s ≡ returns (conn', s'))
          × Tracked s'
          × ((j : ℕ)
              → lookup s'.table j ≡ (
                  if j == fd
                  then (if conn.flag_end || hangup then 0 else lookup s.table j)
                  else lookup s.table j))
    unfolding finish_event controlled
    finish_event-Tracked fd hangup conn s t w listener wakeup place =
        elim (Bool-cases (conn.flag_end || hangup)) [
          | inl over ↦
              let (interests, changed, watched) = del-watches s.interests fd w in
              (
                conn,
                record { table = forget_conn s.table conn.fd; interests = interests },
                rw (over, changed) refl,
                record {
                  tracked = λ j. ground (arith, watched j, t.tracked j, place, listener, wakeup);
                  no_listener = ground (arith, t.no_listener, place);
                  no_wakeup = ground (arith, t.no_wakeup, place);
                },
                λ j. ground (arith, over, place),
              )
          | inr goes_on ↦ elim (Bool-cases conn.flag_blocked) [
            | inl blocked ↦
                let (interests, changed, same) = modify-watches s.interests fd output_events w in
                (
                  record conn { flag_blocked = false },
                  record s { interests = interests },
                  rw (goes_on, blocked, changed) refl,
                  Tracked-same s interests same t,
                  λ j. ground (arith, goes_on),
                )
            | inr free ↦ (conn, s, rw (goes_on, free) refl, t, λ j. ground (arith, goes_on))
          ]
        ]

    -- An event on a watched descriptor other than the listener and the reactor's `wakeup_fd`, whose
    -- connection is `conn` after reading and flushing: no call of `epoll_ctl` fails, and epoll still
    -- watches the listener, `wakeup_fd` and the descriptors that have a connection in the table, and no
    -- other. The connection leaves the table where it is to end or its peer has hung up, and stays
    -- otherwise; every other connection stays.
    pub conn_event-Tracked :
        (fd : ℕ) (epollout hangup : Bool) (conn : Conn) (s : Sockets)
        → Tracked s
        → watches s.interests fd ≡ true
        → fd ≢ fd_listener
        → fd ≢ wakeup_fd
        → conn.fd ≡ fd
        → (conn' : Conn) × (s' : Sockets) × (conn_event fd epollout hangup conn s
            ≡ returns (conn', s'))
          × Tracked s'
          × ((j : ℕ)
              → lookup s'.table j ≡ (
                  if j == fd
                  then (if conn.flag_end || hangup then 0 else lookup s.table j)
                  else lookup s.table j))
    unfolding conn_event
    conn_event-Tracked fd false hangup conn s t w listener wakeup place =
        finish_event-Tracked fd hangup conn s t w listener wakeup place
    conn_event-Tracked fd true hangup conn s t w listener wakeup place =
        let (s₁, e, same, t₁) = output_event-Tracked fd conn s t w in
        let w₁ : watches s₁.interests fd ≡ true =
          t₁.tracked fd ∙ rw same (sym (t.tracked fd) ∙ w) in
        let (conn', s', e', t', at) =
          finish_event-Tracked fd hangup conn s₁ t₁ w₁ listener wakeup place in
        (conn', s', rw e e', t', rw same at at)
