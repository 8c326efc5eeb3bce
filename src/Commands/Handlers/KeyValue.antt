-- ===== src/Commands/Handlers/KeyValue.antt =====
-- SET, GET, DEL and INCR on the shard that owns the key, as the connections see them.
use ghetto_redis.Prelude.{
  ℕ, ◌≡◌, ◌≢◌, ◌∙◌, refl, ==_self, ◌==◌, ap, Bool-cases, inl, inr, ◌++◌, Option, none, some, false,
  ◌&&◌, arith,
}
use ghetto_redis.Prelude.Words.{Bytes}
use ghetto_redis.Prelude.Text.{text}
use ghetto_redis.HashMap.{HashMap}
use ghetto_redis.Kv.{Entry}
use ghetto_redis.Protocol.Reply.{
  write_simple_string, write_bulk_string, write_null_bulk_string, write_integer,
}
use ghetto_redis.Commands.State.{Vars, no_vars, val_var, Outcome, entry, Definition, World}
use ghetto_redis.Commands.Counter.{counter_value}
use ghetto_redis.Commands.Counter.Sum.{try_modify_counter_fails}
use ghetto_redis.Commands.Handlers.{
  get_command, get_exec, get_resp, set_command, set_exec, del_command, del_exec, incr_command,
  counter_exec, counter_outcome, integer_resp,
}
use ghetto_redis.Commands.Dispatch.{exec_inline}

module _ (h : HashMap Entry (λ e. e.key)) where
  open h use {
    Map, hash, get_with_hash, get-set_self, get-set_ne, get-delete_self, get-delete_ne,
    delete_removed,
  }

  -- The reply that GET appends for what is stored.
  abbrev pub reply_of : Option Entry → Bytes
  reply_of none = write_null_bulk_string
  reply_of (some e) = write_bulk_string e.val

  -- What is stored under a key of database `db` on shard `i`.
  abbrev pub stored : World Map → (i db : ℕ) → Bytes → Option Entry
  stored w i db k = get_with_hash ((w.shards i).dbs db) k (hash k)

  get_resp-reply_of : (o : Option Entry) → get_resp h (entry o) ≡ reply_of o
  unfolding get_resp
  get_resp-reply_of none = refl
  get_resp-reply_of (some e) = refl

  module _ (d : Definition Map) (i c : ℕ) (key : Bytes) (n : ℕ) (vars : Vars) (w : World Map) where
    abbrev result : World Map
    result = exec_inline d i c key n vars w

    -- A command leaves every connection's database number, and replies on its own connection.
    exec_inline_db : (c' : ℕ) → (result.conns c').db ≡ (w.conns c').db
    unfolding exec_inline
    exec_inline_db c' = ground arith

    abbrev effect : Map × Outcome
    effect = d.exec ((w.shards i).dbs (w.conns c).db) key n vars

    exec_inline_reply : (result.conns c).send_buf ≡ (w.conns c).send_buf ++ d.resp effect.1
    unfolding exec_inline
    exec_inline_reply = rw (==_self c)

    exec_inline_dbs_self : (result.shards i).dbs (w.conns c).db ≡ effect.0
    unfolding exec_inline
    exec_inline_dbs_self = rw (==_self i, ==_self (w.conns c).db)

    exec_inline_dbs_ne :
        (j db : ℕ)
        → (j == i && db == (w.conns c).db) ≡ false
        → (result.shards j).dbs db ≡ (w.shards j).dbs db
    unfolding exec_inline
    exec_inline_dbs_ne j db other = ground arith

    -- What holds of the entries under `k` before and after the database's change holds of all.
    exec_inline_stored :
        (k : Bytes)
        → get_with_hash effect.0 k (hash k) ≡ stored w i (w.conns c).db k
        → (j db : ℕ) → stored result j db k ≡ stored w j db k
    exec_inline_stored k e j db = elim (Bool-cases (j == i && db == (w.conns c).db)) [
      | inl chosen ↦
          let e₁ : j ≡ i = ground (arith, chosen) in
          let e₂ : db ≡ (w.conns c).db = ground (arith, chosen) in
          rw (e₁, e₂) (ap (λ m. get_with_hash m k (hash k)) exec_inline_dbs_self ∙ e)
      | inr other ↦ ap (λ m. get_with_hash m k (hash k)) (exec_inline_dbs_ne j db other)
    ]

  -- GET replies with what is stored.
  get_command-reply :
      (i c : ℕ) (key : Bytes) (w : World Map)
      → ((exec_inline (get_command h) i c key (hash key) no_vars w).conns c).send_buf
        ≡ (w.conns c).send_buf ++ reply_of (stored w i (w.conns c).db key)
  unfolding get_exec
  get_command-reply i c key w =
      exec_inline_reply (get_command h) i c key (hash key) no_vars w
      ∙ rw (get_resp-reply_of (stored w i (w.conns c).db key))

  -- SET on one connection, then GET of the same key on any connection with the same database: SET
  -- replies OK, GET replies the value, and what is under another key `k` is as before.
  pub exec_inline_set-get :
      (i c c' : ℕ) (key k val : Bytes) (w : World Map)
      → (w.conns c').db ≡ (w.conns c).db
      → k ≢ key
      → let w₁ = exec_inline (set_command h) i c key (hash key) (val_var val) w in
        let w₂ = exec_inline (get_command h) i c' key (hash key) no_vars w₁ in
        ((w₁.conns c).send_buf ≡ (w.conns c).send_buf ++ write_simple_string (text "OK") 2)
        × ((w₂.conns c').send_buf ≡ (w₁.conns c').send_buf ++ write_bulk_string val)
        × ((j db : ℕ) → stored w₂ j db k ≡ stored w j db k)
  unfolding set_exec get_exec
  exec_inline_set-get i c c' key k val w same ne =
      let db = (w.shards i).dbs (w.conns c).db in
      let new : Entry = record { key = key; val = val } in
      let w₁ = exec_inline (set_command h) i c key (hash key) (val_var val) w in
      let at : (w₁.conns c').db ≡ (w.conns c).db =
        exec_inline_db (set_command h) i c key (hash key) (val_var val) w c' ∙ same in
      let now : stored w₁ i (w.conns c).db key ≡ some new =
        ap (λ m. get_with_hash m key (hash key))
          (exec_inline_dbs_self (set_command h) i c key (hash key) (val_var val) w)
        ∙ get-set_self db new in
      (
        exec_inline_reply (set_command h) i c key (hash key) (val_var val) w,
        get_command-reply i c' key w₁ ∙ rw (at, now),
        λ j n.
            exec_inline_stored (get_command h) i c' key (hash key) no_vars w₁ k refl j n
            ∙ exec_inline_stored (set_command h) i c key (hash key) (val_var val) w k
                (get-set_ne db new k ne) j n,
      )

  -- DEL, then GET of the same key: DEL replies 1 where the key was stored and 0 where it was not,
  -- and GET then replies with the null string.
  pub exec_inline_del-get :
      (i c : ℕ) (key : Bytes) (w : World Map)
      → let w₁ = exec_inline (del_command h) i c key (hash key) no_vars w in
        let w₂ = exec_inline (get_command h) i c key (hash key) no_vars w₁ in
        ((w₁.conns c).send_buf
          ≡ (w.conns c).send_buf
            ++ write_integer (elim (stored w i (w.conns c).db key) [ none ↦ 0 | some _ ↦ 1 ]))
        × ((w₂.conns c).send_buf ≡ (w₁.conns c).send_buf ++ write_null_bulk_string)
  unfolding del_exec integer_resp
  exec_inline_del-get i c key w =
      let db = (w.shards i).dbs (w.conns c).db in
      let w₁ = exec_inline (del_command h) i c key (hash key) no_vars w in
      let at : (w₁.conns c).db ≡ (w.conns c).db =
        exec_inline_db (del_command h) i c key (hash key) no_vars w c in
      let now : stored w₁ i (w.conns c).db key ≡ none =
        ap (λ m. get_with_hash m key (hash key))
          (exec_inline_dbs_self (del_command h) i c key (hash key) no_vars w)
        ∙ get-delete_self db key in
      (
        exec_inline_reply (del_command h) i c key (hash key) no_vars w ∙ rw (delete_removed db key),
        get_command-reply i c key w₁ ∙ rw (at, now),
      )

  -- INCR on a stored text that is no integer: the reply is 0, as for an increment to 0, and not an
  -- error; nothing is stored.
  pub exec_inline_incr_fails :
      (i c : ℕ) (key : Bytes) (w : World Map)
      → counter_value h (stored w i (w.conns c).db key) ≡ none
      → let w' = exec_inline (incr_command h) i c key (hash key) no_vars w in
        ((w'.conns c).send_buf ≡ (w.conns c).send_buf ++ write_integer 0)
        × ((j db : ℕ) (k : Bytes) → stored w' j db k ≡ stored w j db k)
  unfolding counter_exec counter_outcome integer_resp
  exec_inline_incr_fails i c key w bad =
      let failed = try_modify_counter_fails h ((w.shards i).dbs (w.conns c).db) key 1 bad in
      (
        exec_inline_reply (incr_command h) i c key (hash key) no_vars w ∙ rw failed,
        λ j n k. exec_inline_stored (incr_command h) i c key (hash key) no_vars w k (rw failed) j n,
      )
