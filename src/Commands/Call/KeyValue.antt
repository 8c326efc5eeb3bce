-- ===== src/Commands/Call/KeyValue.antt =====
-- SET and GET from the command's arguments to the reply, on the shard that the key belongs to.
use ghetto_redis.Prelude.{ℕ, ◌%◌, ◌≡◌, ◌≢◌, refl, ◌++◌, ==_self, some}
use ghetto_redis.Prelude.Words.{Bytes}
use ghetto_redis.Prelude.Text.{text}
use ghetto_redis.HashMap.{HashMap}
use ghetto_redis.Kv.{Entry}
use ghetto_redis.Protocol.Reply.{write_simple_string, write_bulk_string}
use ghetto_redis.Commands.State.{Vars, no_vars, val_var, proceed, Definition, World}
use ghetto_redis.Commands.Table.{CommandFunc}
use ghetto_redis.Commands.Handlers.{get_command, set_command}
use ghetto_redis.Commands.Handlers.KeyValue.{stored, exec_inline_set-get}
use ghetto_redis.Commands.Dispatch.{exec_inline, cmd_exec, cmd}
use ghetto_redis.Commands.Call.{call}

module _ (h : HashMap Entry (λ e. e.key)) where
  open h use {Map, hash}

  cmd-exec_inline :
      (d : Definition Map) (i c : ℕ) (arg : ℕ → Bytes) (key : Bytes) (vars : Vars) (w : World Map)
      → arg 1 ≡ key
      → hash key % w.size ≡ i
      → d.vars i arg ≡ proceed vars
      → cmd hash d i c arg w ≡ some (exec_inline d i c key (hash key) vars w)
  unfolding cmd cmd_exec
  cmd-exec_inline d i c arg key vars w at own accepted = rw (at, own, accepted, ==_self i) refl

  size-exec_inline :
      (d : Definition Map) (i c n : ℕ) (key : Bytes) (vars : Vars) (w : World Map)
      → (exec_inline d i c key n vars w).size ≡ w.size
  unfolding exec_inline
  size-exec_inline d i c n key vars w = refl

  -- The function of SET and then that of GET, called on shard `i` for connections with the same
  -- database, with arguments whose key, the same in both, belongs to shard `i`: both return, SET replies
  -- OK, GET replies the second argument of SET, and what is stored under any other key `k`, in any
  -- database of any shard, is as before.
  pub cmd_set-cmd_get :
      (i c c' : ℕ) (arg arg' : ℕ → Bytes) (k : Bytes) (w : World Map)
      → (w.conns c').db ≡ (w.conns c).db
      → hash (arg 1) % w.size ≡ i
      → arg' 1 ≡ arg 1
      → k ≢ arg 1
      → (w₁ w₂ : World Map) × (call h CommandFunc.cmd_set i c arg w ≡ some w₁)
        × (call h CommandFunc.cmd_get i c' arg' w₁ ≡ some w₂)
        × ((w₁.conns c).send_buf ≡ (w.conns c).send_buf ++ write_simple_string (text "OK") 2)
        × ((w₂.conns c').send_buf ≡ (w₁.conns c').send_buf ++ write_bulk_string (arg 2))
        × ((j db : ℕ) → stored h w₂ j db k ≡ stored h w j db k)
  unfolding call
  cmd_set-cmd_get i c c' arg arg' k w same own again ne =
      let w₁ = exec_inline (set_command h) i c (arg 1) (hash (arg 1)) (val_var (arg 2)) w in
      let w₂ = exec_inline (get_command h) i c' (arg 1) (hash (arg 1)) no_vars w₁ in
      let (replied, got, others) = exec_inline_set-get h i c c' (arg 1) k (arg 2) w same ne in
      let size : w₁.size ≡ w.size =
        size-exec_inline (set_command h) i c (hash (arg 1)) (arg 1) (val_var (arg 2)) w in
      let gets : cmd hash (get_command h) i c' arg' w₁ ≡ some w₂ =
        cmd-exec_inline (get_command h) i c' arg' (arg 1) no_vars w₁ again (rw size own) refl in
      (
        w₁,
        w₂,
        cmd-exec_inline (set_command h) i c arg (arg 1) (val_var (arg 2)) w refl own refl,
        gets,
        replied,
        got,
        others,
      )
