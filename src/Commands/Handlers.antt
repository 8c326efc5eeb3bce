-- ===== src/Commands/Handlers.antt =====
-- The uses of DEFINE_COMMAND in src/include/commands.c.
pub mod KeyValue
use ghetto_redis.Prelude.{
  ℕ, ◌+◌, if◌then◌else◌, List, [], ◌∷◌, Bool, true, false, Option, none, some,
}
use ghetto_redis.Prelude.Words.{Bytes}
use ghetto_redis.Prelude.Text.{text}
use ghetto_redis.Prelude.Int64.{is_negative, negate}
use ghetto_redis.HashMap.{HashMap}
use ghetto_redis.Kv.{Entry}
use ghetto_redis.Protocol.Reply.{
  write_simple_generic_error, write_simple_string, write_bulk_string, write_null_bulk_string,
  write_integer,
}
use ghetto_redis.Commands.State.{
  Vars, no_vars, val_var, delta_var, shard_id_var, VarsResult, proceed, reject, Outcome, entry,
  done, res, shard_id_outcome, Definition,
}
use ghetto_redis.Commands.Counter.{try_parse_signed_integer, try_modify_counter}

-- CMD_VARS of INCRBY and DECRBY.
unfoldable pub delta_vars : Option ℕ → VarsResult
delta_vars none =
    reject (write_simple_generic_error (text "value is not an integer or out of range"))
delta_vars (some delta) =
    if is_negative delta
    then reject (write_simple_generic_error (text "increment would produce negative integer"))
    else proceed (delta_var delta)

-- The replies of CMD_RESP.
unfoldable pub integer_resp : Outcome → Bytes
integer_resp (res n) = write_integer n
integer_resp (shard_id_outcome n) = write_integer n
integer_resp _ = []

-- `uint64_t res = 0;` and `*res = val` on success: the return value is not looked at.
unfoldable pub counter_outcome : Option ℕ → Outcome
counter_outcome none = res 0
counter_outcome (some val) = res val

module _ (h : HashMap Entry (λ e. e.key)) where
  open h use {Map, get_with_hash, set_with_hash, delete_with_hash}

  unfoldable pub get_resp : Outcome → Bytes
  get_resp (entry (some e)) = write_bulk_string e.val
  get_resp _ = write_null_bulk_string

  unfoldable pub get_exec : Map → (key : Bytes) → (hash : ℕ) → Vars → Map × Outcome
  get_exec db key hash _ = (db, entry (get_with_hash db key hash))

  abbrev pub get_command : Definition Map
  get_command = record { vars = λ _ _. proceed no_vars; exec = get_exec; resp = get_resp }

  unfoldable pub set_exec : Map → (key : Bytes) → (hash : ℕ) → Vars → Map × Outcome
  set_exec db key hash (val_var val) =
      ((set_with_hash db (record { key = key; val = val }) hash).0, done)
  set_exec db key hash _ = (db, done)

  abbrev pub set_command : Definition Map
  set_command = record {
    vars = λ _ arg. proceed (val_var (arg 2));
    exec = set_exec;
    resp = λ _. write_simple_string (text "OK") 2;
  }

  unfoldable pub del_exec : Map → (key : Bytes) → (hash : ℕ) → Vars → Map × Outcome
  del_exec db key hash _ =
      let (db', removed) = delete_with_hash db key hash in
      (db', res (elim removed [ none ↦ 0 | some _ ↦ 1 ]))

  abbrev pub del_command : Definition Map
  del_command = record { vars = λ _ _. proceed no_vars; exec = del_exec; resp = integer_resp }

  -- CMD_EXEC is empty; the reply is the shard that the key belongs to.
  unfoldable pub dispatch_ping_exec : Map → (key : Bytes) → (hash : ℕ) → Vars → Map × Outcome
  dispatch_ping_exec db key hash (shard_id_var shard_id) = (db, shard_id_outcome shard_id)
  dispatch_ping_exec db key hash _ = (db, shard_id_outcome 0)

  abbrev pub dispatch_ping_command : Definition Map
  dispatch_ping_command = record {
    vars = λ shard_id _. proceed (shard_id_var shard_id);
    exec = dispatch_ping_exec;
    resp = integer_resp;
  }

  -- CMD_EXEC of the four counter commands, `delta` being the word that is added.
  unfoldable pub counter_exec : Map → (key : Bytes) → (hash delta : ℕ) → Map × Outcome
  counter_exec db key hash delta =
      let (db', r) = try_modify_counter h db key hash delta in (db', counter_outcome r)

  -- The variable `delta` of INCRBY and DECRBY.
  abbrev pub delta_of : Vars → ℕ
  delta_of (delta_var delta) = delta
  delta_of _ = 0

  abbrev pub incr_command : Definition Map
  incr_command = record {
    vars = λ _ _. proceed no_vars;
    exec = λ db key hash _. counter_exec db key hash 1;
    resp = integer_resp;
  }

  abbrev pub decr_command : Definition Map
  decr_command = record {
    vars = λ _ _. proceed no_vars;
    exec = λ db key hash _. counter_exec db key hash (negate 1);
    resp = integer_resp;
  }

  abbrev pub incrby_command : Definition Map
  incrby_command = record {
    vars = λ _ arg. delta_vars (try_parse_signed_integer (arg 2));
    exec = λ db key hash vars. counter_exec db key hash (delta_of vars);
    resp = integer_resp;
  }

  abbrev pub decrby_command : Definition Map
  decrby_command = record {
    vars = λ _ arg. delta_vars (try_parse_signed_integer (arg 2));
    exec = λ db key hash vars. counter_exec db key hash (negate (delta_of vars));
    resp = integer_resp;
  }
