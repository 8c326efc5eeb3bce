-- ===== src/Commands/State.antt =====
-- Connections, shards, reactors and the messages between shards.
use ghetto_redis.Prelude.{ℕ, ◌==◌, if◌then◌else◌, List, ◌++◌, Bool, Option, get_or}
use ghetto_redis.Prelude.Words.{Memory, Bytes, add_size, slice}
use ghetto_redis.Vector.{Vector}
use ghetto_redis.Protocol.{CmdArgs}
use ghetto_redis.Kv.{Entry}

-- `Conn`. The bits of `flags` that the program uses are fields of their own. `recv_buf` is the
-- address of the receive buffer. `send_buf` is its first `send_buf_size` bytes.
pub record Conn : Type 0 where
  pub fd : ℕ
  pub flag_end : Bool
  pub flag_dispatch_waiting : Bool
  pub flag_blocked : Bool
  pub shard_id : ℕ
  pub db : ℕ
  pub recv_buf : ℕ
  pub recv_buf_size : ℕ
  pub recv_buf_read : ℕ
  pub send_buf : Bytes
  pub send_buf_sent : ℕ

-- The `write_…` functions put bytes behind what `send_buf` holds.
abbrev pub write : Conn → Bytes → Conn
write conn bytes = record conn { send_buf = conn.send_buf ++ bytes }

-- `args->buf + args->offsets[i]`, of length `args->lens[i]`. An entry that was not set reads as 0.
abbrev pub arg : Memory → CmdArgs → ℕ → Bytes
arg mem args i = slice mem (add_size args.buf (get_or args.offsets i 0)) (get_or args.lens i 0)

abbrev pub update {ℓ} : {A : Type ℓ} → (ℕ → A) → ℕ → A → ℕ → A
update f i a j = if j == i then a else f j

-- What CMD_VARS computes from the arguments.
pub data Vars : Type 0 where
  no_vars : Vars
  val_var : (val : Bytes) → Vars
  delta_var : (delta : ℕ) → Vars
  shard_id_var : (shard_id : ℕ) → Vars

-- CMD_VARS may reply with an error and return.
pub data VarsResult : Type 0 where
  proceed : Vars → VarsResult
  reject : (reply : Bytes) → VarsResult

-- What CMD_EXEC leaves for CMD_RESP.
pub data Outcome : Type 0 where
  entry : Option Entry → Outcome
  done : Outcome
  res : ℕ → Outcome
  shard_id_outcome : ℕ → Outcome

-- The arguments of one use of DEFINE_COMMAND, for databases of type `Map`. The key, its hash, the
-- shard and the arguments are what the macro has computed.
pub record Definition (Map : Type 0) : Type 0 where
  pub vars : (shard_id : ℕ) → (arg : ℕ → Bytes) → VarsResult
  pub exec : Map → (key : Bytes) → (hash : ℕ) → Vars → Map × Outcome
  pub resp : Outcome → Bytes

-- A message is a context with its callback: `__cmd_…_req` or `__cmd_…_resp` of a definition.
pub record Request (Map : Type 0) : Type 0 where
  pub src : ℕ
  pub dst : ℕ
  pub conn : ℕ
  pub definition : Definition Map
  pub key : Bytes
  pub hash : ℕ
  pub vars : Vars

pub record Response (Map : Type 0) : Type 0 where
  pub src : ℕ
  pub dst : ℕ
  pub conn : ℕ
  pub definition : Definition Map
  pub outcome : Outcome

pub data Message (Map : Type 0) : Type 0 where
  request : Request Map → Message Map
  response : Response Map → Message Map

-- `cb_queue` holds the messages in order; `soft_notify` is the set of its bits; `conns` holds the
-- addresses of the connections by their descriptors, 0 being NULL.
pub record Reactor (Map : Type 0) : Type 0 where
  pub running : Bool
  pub cb_queue : List (Message Map)
  pub soft_notify : ℕ → Bool
  pub sleeping : Bool
  pub conns : Vector

pub record Shard (Map : Type 0) : Type 0 where
  pub dbs : ℕ → Map
  pub reactor : Reactor Map

-- The memory of the process: the shard set, with `size` shards of `num_dbs` databases, and the
-- connections by their addresses. Shard `i` has the reactor with id `i`, and its thread has an `errno`.
pub record World (Map : Type 0) : Type 0 where
  pub size : ℕ
  pub num_dbs : ℕ
  pub shards : ℕ → Shard Map
  pub conns : ℕ → Conn
  pub errno : ℕ → ℕ

module _ {Map : Type 0} where
  abbrev pub set_conn : ℕ → Conn → World Map → World Map
  set_conn c conn w = record w { conns = update w.conns c conn }

  abbrev pub set_shard : ℕ → Shard Map → World Map → World Map
  set_shard i shard w = record w { shards = update w.shards i shard }

  -- `shard->dbs[db] = …`
  abbrev pub set_db : ℕ → ℕ → Map → World Map → World Map
  set_db i db m w = set_shard i (record (w.shards i) { dbs = update (w.shards i).dbs db m }) w

  abbrev pub set_reactor : ℕ → Reactor Map → World Map → World Map
  set_reactor i r w = set_shard i (record (w.shards i) { reactor = r }) w
