-- ===== src/Commands/Dispatch.antt =====
-- The three functions that DEFINE_COMMAND of src/include/commands.h makes of a definition:
-- `cmd_…` on the connection's shard, `__cmd_…_req` on the shard that owns the key, and
-- `__cmd_…_resp` back on the connection's shard. `self` is `context->shard`.
pub mod Transparent
use ghetto_redis.Prelude.{ℕ, ◌%◌, ◌==◌, if◌then◌else◌, Bool, true, false, Option, none, some}
use ghetto_redis.Prelude.Words.{Bytes}
use ghetto_redis.Prelude.Text.{text}
use ghetto_redis.HashMap.{HashMap}
use ghetto_redis.Kv.{Entry}
use ghetto_redis.Protocol.Reply.{write_simple_generic_error}
use ghetto_redis.Commands.State.{
  Conn, write, Vars, VarsResult, proceed, reject, Definition, Request, Response, Message, request,
  response, World, set_conn, set_db,
}
use ghetto_redis.Reactor.{◌>>=◌, reactor_send_message, notify}

module _ {Map : Type 0} where
  -- Writing a reply into a connection's buffer.
  abbrev pub reply : ℕ → Bytes → World Map → World Map
  reply c bytes w = set_conn c (write (w.conns c) bytes) w

  -- `shard_id == shard->shard_id`: CMD_EXEC and CMD_RESP at once.
  unfoldable pub exec_inline :
      Definition Map → (self c : ℕ) → (key : Bytes) → (hash : ℕ) → Vars → World Map → World Map
  exec_inline d self c key hash vars w =
      let db = (w.conns c).db in
      let (m, outcome) = d.exec ((w.shards self).dbs db) key hash vars in
      reply c (d.resp outcome) (set_db self db m w)

  -- The other branch: the request goes to the shard that owns the key.
  unfoldable pub exec_dispatch :
      Definition Map
      → (self c shard_id : ℕ) → (key : Bytes) → (hash : ℕ) → Vars
      → World Map
      → Option (World Map)
  exec_dispatch d self c shard_id key hash vars w = do
    (sent, w) ←
        reactor_send_message shard_id
          (request (record {
            src = self;
            dst = shard_id;
            conn = c;
            definition = d;
            key = key;
            hash = hash;
            vars = vars;
          }))
          w
    if sent
        then some (
            notify self shard_id
              (set_conn c (record (w.conns c) { flag_dispatch_waiting = true }) w))
        else some (reply c (write_simple_generic_error (text "shard dispatch queue full")) w)

  -- What follows CMD_VARS, which may have replied and returned.
  unfoldable pub cmd_exec :
      Definition Map
      → (self c shard_id : ℕ) → (key : Bytes) → (hash : ℕ) → VarsResult
      → World Map
      → Option (World Map)
  unfolding exec_inline exec_dispatch
  cmd_exec d self c shard_id key hash (reject bytes) w = some (reply c bytes w)
  cmd_exec d self c shard_id key hash (proceed vars) w =
      if shard_id == self
      then some (exec_inline d self c key hash vars w)
      else exec_dispatch d self c shard_id key hash vars w

  unfoldable pub cmd :
      (xxhash3 : Bytes → ℕ)
      → Definition Map
      → (self c : ℕ) → (arg : ℕ → Bytes) → World Map
      → Option (World Map)
  unfolding cmd_exec
  cmd xxhash3 d self c arg w =
      let key = arg 1 in
      let hash = xxhash3 key in
      let shard_id = hash % w.size in cmd_exec d self c shard_id key hash (d.vars shard_id arg) w

  -- `__cmd_…_req` on the shard `self`; what `reactor_send_message` returns is not looked at.
  unfoldable pub cmd_req : (self : ℕ) → Request Map → World Map → Option (World Map)
  cmd_req self q w = do
    let db = (w.conns q.conn).db
    let (m, outcome) = q.definition.exec ((w.shards self).dbs db) q.key q.hash q.vars
    (sent, w) ←
        reactor_send_message q.src
          (response (record {
            src = q.dst;
            dst = q.src;
            conn = q.conn;
            definition = q.definition;
            outcome = outcome;
          }))
          (set_db self db m w)
    some (notify self q.src w)

  -- `__cmd_…_resp`
  unfoldable pub cmd_resp : Response Map → World Map → World Map
  cmd_resp r w =
      let w' = reply r.conn (r.definition.resp r.outcome) w in
      set_conn r.conn (record (w'.conns r.conn) { flag_dispatch_waiting = false }) w'

  -- `ctx->cb(context, arg)`
  unfoldable pub run_callback : (self : ℕ) → Message Map → World Map → Option (World Map)
  unfolding cmd_req cmd_resp
  run_callback self (request q) w = cmd_req self q w
  run_callback self (response r) w = some (cmd_resp r w)
