-- ===== src/Commands/Dispatch/Transparent.antt =====
-- The way of a command that is dispatched to another shard: its request, and the response.
use ghetto_redis.Prelude.{
  ℕ, ◌%◌, ◌≡◌, ◌≢◌, refl, List, [], ◌∷◌, ◌==◌, true, false, Option, some, arith, Bool-cases, inl,
  inr, ◌∙◌, ==_self, sym,
}
use ghetto_redis.Prelude.Words.{Bytes}
use ghetto_redis.Commands.State.{
  Vars, proceed, Definition, Message, Request, Response, request, response, Outcome, Reactor, World,
  set_reactor, set_conn, set_db,
}
use ghetto_redis.Reactor.{reactor_send_message, reactor_send_message-room, push, notify}
use ghetto_redis.Commands.Dispatch.{exec_inline, exec_dispatch, cmd, cmd_resp, run_callback}

==_ne : (a b : ℕ) → a ≢ b → (a == b) ≡ false
==_ne a b h = ground arith

module _ {Map : Type 0} where
  abbrev pub pop : (self : ℕ) → List (Message Map) → World Map → World Map
  pop self rest w = set_reactor self (record (w.shards self).reactor { cb_queue = rest }) w

  -- What can be seen of a state: the replies of connection `c` and all databases.
  pub record SameEffect (c : ℕ) (v w : World Map) : Type 0 where
    pub replies : (v.conns c).send_buf ≡ (w.conns c).send_buf
    pub databases : (i j : ℕ) → (v.shards i).dbs j ≡ (w.shards i).dbs j

  dbs-set_reactor :
      (k : ℕ) (r : Reactor Map) (v : World Map) (i j : ℕ)
      → ((set_reactor k r v).shards i).dbs j ≡ (v.shards i).dbs j
  dbs-set_reactor k r v i j = ground arith

  module _ (d : Definition Map) (self t c hash : ℕ) (key : Bytes) (vars : Vars) (w : World Map)
      (other : t ≢ self) (idle_self : (w.shards self).reactor.cb_queue ≡ [])
      (idle_t : (w.shards t).reactor.cb_queue ≡ []) where
    req_of : Request Map
    req_of = record {
      src = self;
      dst = t;
      conn = c;
      definition = d;
      key = key;
      hash = hash;
      vars = vars;
    }

    abbrev outcome : Map × Outcome
    outcome = d.exec ((w.shards t).dbs (w.conns c).db) key hash vars

    resp : Response Map
    resp = record { src = t; dst = self; conn = c; definition = d; outcome = outcome.1 }

    w1 : World Map
    w1 = notify self t (
        set_conn c (record (w.conns c) { flag_dispatch_waiting = true })
          (push t (request req_of) w))

    step1 : exec_dispatch d self c t key hash vars w ≡ some w1
    unfolding exec_dispatch reactor_send_message w1 req_of notify
    step1 = rw idle_t

    queue1 : (w1.shards t).reactor.cb_queue ≡ request req_of ∷ []
    unfolding w1 notify
    queue1 = rw (==_ne t self other, ==_self t, idle_t)

    queue1_self : (w1.shards self).reactor.cb_queue ≡ []
    unfolding w1 notify
    queue1_self = rw (==_self self, ==_ne self t (λ e. other (sym e)), idle_self)

    dbs1 : (i j : ℕ) → (w1.shards i).dbs j ≡ (w.shards i).dbs j
    unfolding w1 notify
    dbs1 i j = ground arith

    stored : World Map
    stored = set_db t (w.conns c).db outcome.0 (pop t [] w1)

    w2 : World Map
    w2 = notify t self (push self (response resp) stored)

    conn1 : w1.conns c ≡ record (w.conns c) { flag_dispatch_waiting = true }
    unfolding w1 notify
    conn1 = rw (==_self c)

    stored_self : (stored.shards self).reactor.cb_queue ≡ []
    unfolding stored
    stored_self = rw (==_ne self t (λ e. other (sym e))) queue1_self

    exec2 : d.exec (((pop t [] w1).shards t).dbs ((pop t [] w1).conns c).db) key hash vars ≡ outcome
    exec2 = rw (==_self t, conn1, dbs1)

    step2 : run_callback t (request req_of) (pop t [] w1) ≡ some w2
    unfolding run_callback w2 req_of resp stored
    step2 = rw (
      exec2,
      conn1,
      reactor_send_message-room self (response resp) stored (rw stored_self (omega arith)),
    )

    queue2 : (w2.shards self).reactor.cb_queue ≡ response resp ∷ []
    unfolding w2 notify
    queue2 = rw (==_ne self t (λ e. other (sym e)), ==_self self, stored_self)

    w3 : World Map
    w3 = cmd_resp resp (pop self [] w2)

    step3 : run_callback self (response resp) (pop self [] w2) ≡ some w3
    unfolding run_callback w3
    step3 = refl

    replies3 : (w3.conns c).send_buf ≡ ((exec_inline d t c key hash vars w).conns c).send_buf
    unfolding w3 w2 stored w1 notify cmd_resp exec_inline resp
    replies3 = rw (==_self c)

    dbs3 : (i j : ℕ) → (w3.shards i).dbs j ≡ ((exec_inline d t c key hash vars w).shards i).dbs j
    unfolding w3 w2 cmd_resp exec_inline notify stored
    dbs3 i j =
        dbs-set_reactor self _ w2 i j
        ∙ dbs-set_reactor t _ (push self (response resp) stored) i j
        ∙ dbs-set_reactor self _ stored i j
        ∙ elim (Bool-cases (i == t)) [
          | inl owns ↦ rw (owns, ==_self t, dbs1 t j)
          | inr not_owns ↦ rw not_owns (dbs1 i j)
        ]

    waiting3 : (w3.conns c).flag_dispatch_waiting ≡ false
    unfolding w3 cmd_resp resp
    waiting3 = rw (==_self c)

    idle2_t : (w2.shards t).reactor.cb_queue ≡ []
    unfolding w2 notify stored
    idle2_t = rw (==_self t, ==_ne t self other)

    idle3_self : (w3.shards self).reactor.cb_queue ≡ []
    unfolding w3 cmd_resp
    idle3_self = rw (==_self self)

    shard2 : (w2.conns c).shard_id ≡ (w.conns c).shard_id
    unfolding w2 notify stored w1
    shard2 = rw (==_self c)

    conn3 :
        ((w3.conns c).shard_id ≡ (w.conns c).shard_id)
        × ((w3.conns c).recv_buf_size ≡ (w.conns c).recv_buf_size)
    unfolding w3 cmd_resp w2 notify stored w1 resp
    conn3 = (rw (==_self c), rw (==_self c))

  -- A command of connection `c` on shard `self` for a key of shard `t`, its request there, and the
  -- response, each as the only message in the queue, with the states after them.
  pub record Delivered (self t c : ℕ) (w : World Map) (sent : Option (World Map)) (now : World Map)
      : Type 0 where
    pub asked : World Map
    pub answered : World Map
    pub last : World Map
    pub query : Request Map
    pub answer : Response Map
    pub sends : sent ≡ some asked
    pub query_conn : query.conn ≡ c
    pub answer_conn : answer.conn ≡ c
    pub query_waits : (asked.shards t).reactor.cb_queue ≡ request query ∷ []
    pub query_runs : run_callback t (request query) (pop t [] asked) ≡ some answered
    pub none_left : (answered.shards t).reactor.cb_queue ≡ []
    pub home : (answered.conns c).shard_id ≡ (w.conns c).shard_id
    pub answer_waits : (answered.shards self).reactor.cb_queue ≡ response answer ∷ []
    pub answer_runs : run_callback self (response answer) (pop self [] answered) ≡ some last
    pub none_left_self : (last.shards self).reactor.cb_queue ≡ []
    pub last_home : (last.conns c).shard_id ≡ (w.conns c).shard_id
    pub last_buffer : (last.conns c).recv_buf_size ≡ (w.conns c).recv_buf_size
    pub same_effect : SameEffect c last now
    pub waits_no_more : (last.conns c).flag_dispatch_waiting ≡ false

  -- The way of a command that passes CMD_VARS, both queues being empty.
  pub cmd-Delivered :
      (xxhash3 : Bytes → ℕ) (d : Definition Map) (self t c : ℕ) (arg : ℕ → Bytes) (vars : Vars)
      (w : World Map)
      → xxhash3 (arg 1) % w.size ≡ t
      → t ≢ self
      → d.vars t arg ≡ proceed vars
      → (w.shards self).reactor.cb_queue ≡ []
      → (w.shards t).reactor.cb_queue ≡ []
      → Delivered self t c w
          (cmd xxhash3 d self c arg w)
          (exec_inline d t c (arg 1) (xxhash3 (arg 1)) vars w)
  unfolding cmd req_of resp
  cmd-Delivered xxhash3 d self t c arg vars w owner other accepted idle_self idle_t =
      let key = arg 1 in
      let hash = xxhash3 key in
      record {
        asked = w1 d self t c hash key vars w other idle_self idle_t;
        answered = w2 d self t c hash key vars w other idle_self idle_t;
        last = w3 d self t c hash key vars w other idle_self idle_t;
        query = req_of d self t c hash key vars w other idle_self idle_t;
        answer = resp d self t c hash key vars w other idle_self idle_t;
        sends =
            rw (owner, accepted, ==_ne t self other)
              (step1 d self t c hash key vars w other idle_self idle_t);
        query_conn = refl;
        answer_conn = refl;
        query_waits = queue1 d self t c hash key vars w other idle_self idle_t;
        query_runs = step2 d self t c hash key vars w other idle_self idle_t;
        none_left = idle2_t d self t c hash key vars w other idle_self idle_t;
        home = shard2 d self t c hash key vars w other idle_self idle_t;
        answer_waits = queue2 d self t c hash key vars w other idle_self idle_t;
        answer_runs = step3 d self t c hash key vars w other idle_self idle_t;
        none_left_self = idle3_self d self t c hash key vars w other idle_self idle_t;
        last_home = (conn3 d self t c hash key vars w other idle_self idle_t).0;
        last_buffer = (conn3 d self t c hash key vars w other idle_self idle_t).1;
        same_effect = record {
          replies = replies3 d self t c hash key vars w other idle_self idle_t;
          databases = dbs3 d self t c hash key vars w other idle_self idle_t;
        };
        waits_no_more = waiting3 d self t c hash key vars w other idle_self idle_t;
      }
