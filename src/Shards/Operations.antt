-- ===== src/Shards/Operations.antt =====
-- The operations that the keyed commands do.
use ghetto_redis.Prelude.{ℕ, ◌≡◌, ◌≢◌, refl, ap, ◌∙◌, Option, none, some, Bool-cases, inl, inr}
use ghetto_redis.Prelude.Words.{Bytes}
use ghetto_redis.Prelude.Int64.{negate, is_negative, add_int64, decimal_int64}
use ghetto_redis.HashMap.{HashMap}
use ghetto_redis.Kv.{Entry}
use ghetto_redis.Commands.State.{Vars, no_vars, delta_var, Definition, VarsResult, proceed, reject}
use ghetto_redis.Commands.Table.{CommandFunc}
use ghetto_redis.Commands.Counter.{try_parse_signed_integer, try_modify_counter, counter_value}
use ghetto_redis.Commands.Handlers.{
  get_command, set_command, del_command, dispatch_ping_command, incr_command, decr_command,
  incrby_command, decrby_command, get_exec, set_exec, del_exec, dispatch_ping_exec, counter_exec,
  delta_vars,
}
use ghetto_redis.Shards.Store.{
  Operation, look, put, drop, add, Wish, ignore, ask, by_delta, wish, result,
}
use ghetto_redis.Shards.Pending.{Performs}

module _ (h : HashMap Entry (λ e. e.key)) where
  open h use {
    Map, hash, get_with_hash, set_with_hash, get-set_self, get-set_ne, get-delete_self,
    get-delete_ne,
  }

  -- What CMD_VARS makes of the arguments is the operation that is wished for, or a refusal.
  abbrev pub Grants : Definition Map → (key : Bytes) → VarsResult → Wish → Type 0
  Grants d key (reject bytes) wish = wish ≡ ignore
  Grants d key (proceed vars) wish = (o : Operation) × (wish ≡ ask key o) × Performs h d vars key o

  abbrev pub Meets : Definition Map → CommandFunc → Type 0
  Meets d func =
      (shard_id : ℕ) (arg : ℕ → Bytes) → Grants d (arg 1) (d.vars shard_id arg) (wish func arg)

  pub get-Meets : Meets (get_command h) CommandFunc.cmd_get
  unfolding wish get_exec result
  get-Meets shard_id arg = (look, refl, (λ m. refl, λ m k ne. refl))

  pub set-Meets : Meets (set_command h) CommandFunc.cmd_set
  unfolding wish set_exec result
  set-Meets shard_id arg =
      let x : Entry = record { key = arg 1; val = arg 2 } in
      (put (arg 2), refl, (λ m. get-set_self m x, λ m k ne. get-set_ne m x k ne))

  pub del-Meets : Meets (del_command h) CommandFunc.cmd_del
  unfolding wish del_exec result
  del-Meets shard_id arg =
      (drop, refl, (λ m. get-delete_self m (arg 1), λ m k ne. get-delete_ne m (arg 1) k ne))

  pub dispatch_ping-Meets : Meets (dispatch_ping_command h) CommandFunc.cmd_dispatch_ping
  unfolding wish dispatch_ping_exec result
  dispatch_ping-Meets shard_id arg = (look, refl, (λ m. refl, λ m k ne. refl))

  abbrev modified : Map → Bytes → ℕ → Option ℕ → Map × Option ℕ
  modified m key delta o = elim o [
    | none ↦ (m, none)
    | some val ↦
        let sum = add_int64 val delta in
        ((set_with_hash m (record { key = key; val = decimal_int64 sum }) (hash key)).0, some sum)
  ]

  counter-Performs :
      (d : Definition Map) (vars : Vars) (key : Bytes) (delta : ℕ)
      → ((m : Map) → (d.exec m key (hash key) vars).0 ≡ (counter_exec h m key (hash key) delta).0)
      → Performs h d vars key (add delta)
  unfolding counter_exec try_modify_counter result
  counter-Performs d vars key delta same = (
    λ m.
        ap (λ x. get_with_hash x key (hash key)) (same m)
        ∙ here m (counter_value h (get_with_hash m key (hash key))),
    λ m k ne.
        ap (λ x. get_with_hash x k (hash k)) (same m)
        ∙ others m k ne (counter_value h (get_with_hash m key (hash key))),
  )
    where
      written : ℕ → Entry
      written val = record { key = key; val = decimal_int64 (add_int64 val delta) }

      here :
          (m : Map) (o : Option ℕ)
          → get_with_hash (modified m key delta o).0 key (hash key)
            ≡ elim o [ none ↦ get_with_hash m key (hash key) | some val ↦ some (written val) ]
      here m none = refl
      here m (some val) = get-set_self m (written val)

      others :
          (m : Map) (k : Bytes)
          → k ≢ key
          → (o : Option ℕ)
          → get_with_hash (modified m key delta o).0 k (hash k) ≡ get_with_hash m k (hash k)
      others m k ne none = refl
      others m k ne (some val) = get-set_ne m (written val) k ne

  pub incr-Meets : Meets (incr_command h) CommandFunc.cmd_incr
  unfolding wish
  incr-Meets shard_id arg =
      (add 1, refl, counter-Performs (incr_command h) no_vars (arg 1) 1 (λ m. refl))

  pub decr-Meets : Meets (decr_command h) CommandFunc.cmd_decr
  unfolding wish
  decr-Meets shard_id arg = (
    add (negate 1),
    refl,
    counter-Performs (decr_command h) no_vars (arg 1) (negate 1) (λ m. refl),
  )

  -- INCRBY and DECRBY.
  delta_vars-Grants :
      (d : Definition Map) (f : ℕ → ℕ) (key : Bytes) (parsed : Option ℕ)
      → ((delta : ℕ) (m : Map)
          → (d.exec m key (hash key) (delta_var delta)).0
            ≡ (counter_exec h m key (hash key) (f delta)).0)
      → Grants d key (delta_vars parsed) (by_delta key f parsed)
  unfolding delta_vars
  delta_vars-Grants d f key none same = refl
  delta_vars-Grants d f key (some delta) same = elim (Bool-cases (is_negative delta)) [
    | inl negative ↦ rw negative refl
    | inr fits ↦
        rw fits
          (add (f delta), refl, counter-Performs d (delta_var delta) key (f delta) (same delta))
  ]

  pub incrby-Meets : Meets (incrby_command h) CommandFunc.cmd_incrby
  unfolding wish
  incrby-Meets shard_id arg =
      delta_vars-Grants (incrby_command h) (λ delta. delta) (arg 1)
        (try_parse_signed_integer (arg 2)) (λ delta m. refl)

  pub decrby-Meets : Meets (decrby_command h) CommandFunc.cmd_decrby
  unfolding wish
  decrby-Meets shard_id arg =
      delta_vars-Grants (decrby_command h) (λ delta. negate delta) (arg 1)
        (try_parse_signed_integer (arg 2)) (λ delta m. refl)
