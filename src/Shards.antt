-- ===== src/Shards.antt =====
-- The shards as threads that take turns: what a thread does to the memory of the process between two
-- looks at its queue and at its sockets.
pub mod Store
pub mod Pending
pub mod Moves
pub mod Updates
pub mod Operations
pub mod Commands
pub mod Steps
pub mod Owned
pub mod Refines
pub mod Reached
pub mod Runs
pub mod Polls
use ghetto_redis.Prelude.{ℕ, ◌<◌, ◌≡◌, List, [], ◌∷◌, Bool, Option, some}
use ghetto_redis.Prelude.Words.{Bytes}
use ghetto_redis.Vector.{Vector}
use ghetto_redis.HashMap.{HashMap}
use ghetto_redis.Kv.{Entry}
use ghetto_redis.Commands.State.{Conn, Message, World, set_conn, set_reactor}
use ghetto_redis.Commands.Table.{CommandFunc}
use ghetto_redis.Commands.Dispatch.{run_callback}
use ghetto_redis.Commands.Dispatch.Transparent.{pop}
use ghetto_redis.Commands.Call.{call}
use ghetto_redis.Reactor.{reactor_wakeup_pending}

module _ (h : HashMap Entry (λ e. e.key)) where
  open h use {Map}

  -- The callback of the first message in a shard's queue, the waking of other shards, and what
  -- accepting, reading, parsing, writing and going to sleep do to a connection, to a reactor and to
  -- `errno`.
  pub data Step (w : World Map) : World Map → Type 0 where
    callback :
        (self : ℕ) (message : Message Map) (rest : List (Message Map)) {w' : World Map}
        → self < w.size
        → (w.shards self).reactor.cb_queue ≡ message ∷ rest
        → run_callback self message (pop self rest w) ≡ some w'
        → Step w w'
    wake : (self : ℕ) → Step w (reactor_wakeup_pending self w).1
    connection : (c : ℕ) (conn : Conn) → Step w (set_conn c conn w)
    reactor :
        (self : ℕ) (conns : Vector) (sleeping running : Bool)
        → Step w (
            set_reactor self
              (record (w.shards self).reactor {
                conns = conns;
                sleeping = sleeping;
                running = running;
              })
              w)
    system : (errno : ℕ → ℕ) → Step w (record w { errno = errno })

  -- What the shards can come to from `start` by such steps and by the commands `calls` of any
  -- connections, the latest first.
  pub data Reach (start : World Map) : List (CommandFunc × (ℕ → Bytes)) → World Map → Type 0 where
    begin : Reach start [] start
    command :
        {calls : List (CommandFunc × (ℕ → Bytes))} {w w' : World Map} (func : CommandFunc)
        (self c : ℕ) (arg : ℕ → Bytes)
        → Reach start calls w
        → call h func self c arg w ≡ some w'
        → Reach start ((func, arg) ∷ calls) w'
    later :
        {calls : List (CommandFunc × (ℕ → Bytes))} {w w' : World Map}
        → Reach start calls w
        → Step w w'
        → Reach start calls w'
