-- ===== src/Commands/Frame.antt =====
-- What commands leave alone: the receive buffers, and the queues but for one message.
use ghetto_redis.Prelude.{
  ℕ, zero, suc, ◌+◌, ◌%◌, ◌≤◌, ◌<◌, ◌≡◌, refl, ◌∙◌, ◌==◌, ==_iff, if◌then◌else◌, [], ◌∷◌, Bool,
  true, false, Option, some, length, length-append, Bool-cases, inl, inr, arith,
}
use ghetto_redis.Prelude.Words.{Bytes}
use ghetto_redis.Prelude.Text.{text}
use ghetto_redis.Protocol.Reply.{write_simple_generic_error, write_simple_string}
use ghetto_redis.HashMap.{HashMap}
use ghetto_redis.Kv.{Entry}
use ghetto_redis.Commands.State.{
  Conn, Message, request, Vars, Definition, Reactor, VarsResult, proceed, reject, World, update,
  set_conn, set_db, set_reactor,
}
use ghetto_redis.Commands.Table.{CommandFunc}
use ghetto_redis.Commands.Handlers.{
  get_command, set_command, del_command, dispatch_ping_command, incr_command, decr_command,
  incrby_command, decrby_command,
}
use ghetto_redis.Commands.Dispatch.{reply, exec_inline, exec_dispatch, cmd_exec, cmd}
use ghetto_redis.Commands.Plain.{
  cmd_ping, cmd_echo, cmd_quit, shutdown_loop, cmd_shutdown, cmd_select, flush_dbs, flush_shards,
  cmd_flushall,
}
use ghetto_redis.Commands.Call.{call}
use ghetto_redis.Reactor.{
  queue_size, notify, wakeup_loop, reactor_wakeup_pending, push, reactor_send_message-room,
}

-- Where a connection's receive buffer is, and what it holds.
abbrev pub buffer : Conn → ℕ × ℕ × ℕ
buffer conn = (conn.recv_buf, conn.recv_buf_size, conn.recv_buf_read)

abbrev pub queued : {Map : Type 0} → World Map → ℕ → ℕ
queued w t = length (w.shards t).reactor.cb_queue

-- A view of an array that an update does not change.
update-same {ℓ κ} :
    {A : Type ℓ} {B : Type κ} (view : A → B) (f : ℕ → A) (i : ℕ) (v : A) (j : ℕ)
    → view v ≡ view (f i)
    → view (update f i v j) ≡ view (f j)
update-same view f i v j e = elim (Bool-cases (j == i)) [
  | inl here ↦ rw (here, (==_iff j i).0 here) e
  | inr other ↦ rw other
]

-- What is to be sent has got longer, at most, and as much of it is sent as before.
abbrev pub Grown : Conn → Conn → Type 0
Grown conn conn' =
    (conn'.send_buf_sent ≡ conn.send_buf_sent) × (length conn.send_buf ≤ length conn'.send_buf)

Grown-trans : (a b c : Conn) → Grown a b → Grown b c → Grown a c
Grown-trans a b c f g = (g.0 ∙ f.0, omega (arith, f.1, g.1))

module _ {Map : Type 0} where
  -- At most `n` messages are new, the receive buffers are the same, and the send buffers have grown.
  pub record Frame (n : ℕ) (w w' : World Map) : Type 0 where
    pub buffers : (k : ℕ) → buffer (w'.conns k) ≡ buffer (w.conns k)
    pub sending : (k : ℕ) → Grown (w.conns k) (w'.conns k)
    pub queues : (t : ℕ) → queued w' t ≤ queued w t + n

  pub Frame-refl : (w : World Map) → Frame 0 w w
  Frame-refl w = record {
    buffers = λ k. refl;
    sending = λ k. (refl, omega arith);
    queues = λ t. omega arith;
  }

  Frame-trans : (m n : ℕ) {u v w : World Map} → Frame m u v → Frame n v w → Frame (m + n) u w
  Frame-trans m n {u} {v} {w} f g = record {
    buffers = λ k. g.buffers k ∙ f.buffers k;
    sending = λ k. Grown-trans (u.conns k) (v.conns k) (w.conns k) (f.sending k) (g.sending k);
    queues = λ t. omega (arith, f.queues t, g.queues t);
  }

  pub Frame-weaken : (m n : ℕ) {u v : World Map} → m ≤ n → Frame m u v → Frame n u v
  Frame-weaken m n h f = record {
    buffers = f.buffers;
    sending = f.sending;
    queues = λ t. omega (arith, f.queues t);
  }

  module _ (w : World Map) where
    pub set_conn-Frame :
        (c : ℕ) (conn : Conn)
        → buffer conn ≡ buffer (w.conns c)
        → Grown (w.conns c) conn
        → Frame 0 w (set_conn c conn w)
    set_conn-Frame c conn e grown = record {
      buffers = λ k. update-same (λ conn. buffer conn) w.conns c conn k e;
      sending = λ k. elim (Bool-cases (k == c)) [
        | inl here ↦ rw (here, (==_iff k c).0 here) grown
        | inr other ↦ rw other (refl, omega arith)
      ];
      queues = λ t. omega arith;
    }

    pub reply-Frame : (c : ℕ) (bytes : Bytes) → Frame 0 w (reply c bytes w)
    reply-Frame c bytes =
        set_conn-Frame c _ refl (refl, omega (arith, length-append {0} (w.conns c).send_buf bytes))

    set_db-Frame : (i j : ℕ) (m : Map) → Frame 0 w (set_db i j m w)
    set_db-Frame i j m = record {
      buffers = λ k. refl;
      sending = λ k. (refl, omega arith);
      queues = λ t. omega (
        arith,
        update-same (λ x. length x.reactor.cb_queue) w.shards i
            (record (w.shards i) { dbs = update (w.shards i).dbs j m }) t refl,
      );
    }

    set_reactor-Frame :
        (n i : ℕ) (r : Reactor Map)
        → length r.cb_queue ≤ queued w i + n
        → Frame n w (set_reactor i r w)
    set_reactor-Frame n i r h = record {
      buffers = λ k. refl;
      sending = λ k. (refl, omega arith);
      queues = λ t. ground (arith, h);
    }

    notify-Frame : (self i : ℕ) → Frame 0 w (notify self i w)
    unfolding notify
    notify-Frame self i = set_reactor-Frame 0 self _ (omega arith)

    push-Frame : (t : ℕ) (message : Message Map) → Frame 1 w (push t message w)
    push-Frame t message =
        set_reactor-Frame 1 t _
          (omega (arith, length-append (w.shards t).reactor.cb_queue (message ∷ [])))

  -- Frames of steps that send nothing.
  pub Frame-then : {u v w : World Map} → Frame 0 u v → Frame 0 v w → Frame 0 u w
  Frame-then f g = Frame-trans 0 0 f g

  shutdown_loop-Frame : (n self i : ℕ) (w : World Map) → Frame 0 w (shutdown_loop n self i w)
  unfolding shutdown_loop
  shutdown_loop-Frame zero self i w = Frame-refl w
  shutdown_loop-Frame (suc n) self i w =
      let w₁ = set_reactor i (record (w.shards i).reactor { running = false }) w in
      Frame-then (Frame-then (set_reactor-Frame w 0 i _ (omega arith)) (notify-Frame w₁ self i))
        (shutdown_loop-Frame n self (i + 1) (notify self i w₁))

  wakeup_loop-Frame :
      (n self i woken : ℕ) (w : World Map) → Frame 0 w (wakeup_loop n self i woken w).1
  unfolding wakeup_loop
  wakeup_loop-Frame zero self i woken w = Frame-refl w
  wakeup_loop-Frame (suc n) self i woken w =
      let set = (w.shards self).reactor.soft_notify i in
      let w₁ =
        (if set then set_reactor i (record (w.shards i).reactor { sleeping = false }) w else w) in
      Frame-then (by_bit set) (wakeup_loop-Frame n self (i + 1) _ w₁)
    where
      by_bit :
          (b : Bool)
          → Frame 0 w
              (if b then set_reactor i (record (w.shards i).reactor { sleeping = false }) w else w)
      by_bit true = set_reactor-Frame w 0 i _ (omega arith)
      by_bit false = Frame-refl w

  reactor_wakeup_pending-Frame :
      (self : ℕ) (w : World Map) → Frame 0 w (reactor_wakeup_pending self w).1
  unfolding reactor_wakeup_pending
  reactor_wakeup_pending-Frame self w =
      Frame-then (wakeup_loop-Frame w.size self 0 0 w)
        (set_reactor-Frame (wakeup_loop w.size self 0 0 w).1 0 self _ (omega arith))

  cmd_select-Frame :
      (self c : ℕ) (arg : ℕ → Bytes) (w : World Map) → Frame 0 w (cmd_select self c arg w)
  unfolding cmd_select
  cmd_select-Frame self c arg w = record {
    buffers = λ k. ground arith;
    sending = λ k. (
      ground arith,
      ground (
        arith,
        length-append (w.conns c).send_buf (write_simple_generic_error (text "invalid DB index")),
        length-append (w.conns c).send_buf (write_simple_string (text "OK") 2),
      ),
    );
    queues = λ t. ground arith;
  }

  exec_inline-Frame :
      (d : Definition Map) (self c n : ℕ) (key : Bytes) (vars : Vars) (w : World Map)
      → Frame 0 w (exec_inline d self c key n vars w)
  unfolding exec_inline
  exec_inline-Frame d self c n key vars w =
      let db = (w.conns c).db in
      let m = (d.exec ((w.shards self).dbs db) key n vars).0 in
      Frame-then (set_db-Frame w self db m) (reply-Frame (set_db self db m w) c _)

  -- Steps that may send one message, where every queue has room.
  abbrev Sends : Option (World Map) → World Map → Type 0
  Sends o w = (w' : World Map) × (o ≡ some w') × Frame 1 w w'

  exec_dispatch-Frame :
      (d : Definition Map) (self c t n : ℕ) (key : Bytes) (vars : Vars) (w : World Map)
      → queued w t < queue_size
      → Sends (exec_dispatch d self c t key n vars w) w
  unfolding exec_dispatch
  exec_dispatch-Frame d self c t n key vars w room =
      let message = request (record {
        src = self;
        dst = t;
        conn = c;
        definition = d;
        key = key;
        hash = n;
        vars = vars;
      }) in
      let waits =
        set_conn c (record (w.conns c) { flag_dispatch_waiting = true }) (push t message w) in
      (
        notify self t waits,
        rw (reactor_send_message-room t message w room),
        Frame-trans 1 0 (push-Frame w t message) (
            Frame-then (set_conn-Frame (push t message w) c _ refl (refl, omega arith))
              (notify-Frame waits self t)),
      )

  cmd-Frame :
      (xxhash3 : Bytes → ℕ) (d : Definition Map) (self c : ℕ) (arg : ℕ → Bytes) (w : World Map)
      → ((t : ℕ) → queued w t < queue_size)
      → Sends (cmd xxhash3 d self c arg w) w
  unfolding cmd cmd_exec
  cmd-Frame xxhash3 d self c arg w room = by_vars (d.vars (xxhash3 (arg 1) % w.size) arg)
    where
      by_vars :
          (r : VarsResult)
          → Sends (cmd_exec d self c (xxhash3 (arg 1) % w.size) (arg 1) (xxhash3 (arg 1)) r w) w
      by_vars (reject bytes) = (_, refl, Frame-weaken 0 1 (omega arith) (reply-Frame w c bytes))
      by_vars (proceed vars) = elim (Bool-cases (xxhash3 (arg 1) % w.size == self)) [
        | inl own ↦ (
          _,
          rw own,
          Frame-weaken 0 1 (omega arith)
              (exec_inline-Frame d self c (xxhash3 (arg 1)) (arg 1) vars w),
        )
        | inr other ↦
            let (w', e, f) =
              exec_dispatch-Frame d self c (xxhash3 (arg 1) % w.size) (xxhash3 (arg 1)) (arg 1) vars
                w (room (xxhash3 (arg 1) % w.size)) in
            (w', rw other e, f)
      ]

module _ (h : HashMap Entry (λ e. e.key)) where
  open h use {Map, hash, clear}

  flush_dbs-Frame : (n i j : ℕ) (w : World Map) → Frame 0 w (flush_dbs h n i j w)
  unfolding flush_dbs
  flush_dbs-Frame zero i j w = Frame-refl w
  flush_dbs-Frame (suc n) i j w =
      let m = clear ((w.shards i).dbs j) in
      Frame-then (set_db-Frame w i j m) (flush_dbs-Frame n i (j + 1) (set_db i j m w))

  flush_shards-Frame : (n i : ℕ) (w : World Map) → Frame 0 w (flush_shards h n i w)
  unfolding flush_shards
  flush_shards-Frame zero i w = Frame-refl w
  flush_shards-Frame (suc n) i w =
      Frame-then (flush_dbs-Frame w.num_dbs i 0 w)
        (flush_shards-Frame n (i + 1) (flush_dbs h w.num_dbs i 0 w))

  -- Where every queue has room, each command returns.
  pub call-Frame :
      (func : CommandFunc) (self c : ℕ) (arg : ℕ → Bytes) (w : World Map)
      → ((t : ℕ) → queued w t < queue_size)
      → (w' : World Map) × (call h func self c arg w ≡ some w') × Frame 1 w w'
  unfolding call cmd_ping cmd_echo cmd_quit cmd_shutdown cmd_flushall
  call-Frame func self c arg w room = by_func func
    where
      sent_none : {w' : World Map} → Frame 0 w w' → Frame 1 w w'
      sent_none f = Frame-weaken 0 1 (omega arith) f

      by_func : (func : CommandFunc) → Sends (call h func self c arg w) w
      by_func CommandFunc.cmd_ping = (_, refl, sent_none (reply-Frame w c _))
      by_func CommandFunc.cmd_echo = (_, refl, sent_none (reply-Frame w c _))
      by_func CommandFunc.cmd_quit = (
        _,
        refl,
        sent_none (
            Frame-then
              (set_conn-Frame w c (record (w.conns c) { flag_end = true }) refl (refl, omega arith))
              (reply-Frame _ c _)),
      )
      by_func CommandFunc.cmd_shutdown = (
        _,
        refl,
        sent_none (
            Frame-then (shutdown_loop-Frame w.size self 0 w) (reactor_wakeup_pending-Frame self _)),
      )
      by_func CommandFunc.cmd_flushall =
          (_, refl, sent_none (Frame-then (flush_shards-Frame w.size 0 w) (reply-Frame _ c _)))
      by_func CommandFunc.cmd_select = (_, refl, sent_none (cmd_select-Frame self c arg w))
      by_func CommandFunc.cmd_get = cmd-Frame hash (get_command h) self c arg w room
      by_func CommandFunc.cmd_set = cmd-Frame hash (set_command h) self c arg w room
      by_func CommandFunc.cmd_del = cmd-Frame hash (del_command h) self c arg w room
      by_func CommandFunc.cmd_incr = cmd-Frame hash (incr_command h) self c arg w room
      by_func CommandFunc.cmd_decr = cmd-Frame hash (decr_command h) self c arg w room
      by_func CommandFunc.cmd_incrby = cmd-Frame hash (incrby_command h) self c arg w room
      by_func CommandFunc.cmd_decrby = cmd-Frame hash (decrby_command h) self c arg w room
      by_func CommandFunc.cmd_dispatch_ping =
          cmd-Frame hash (dispatch_ping_command h) self c arg w room
