-- ===== src/Shards/Steps.antt =====
-- What each command and each callback does.
use ghetto_redis.Prelude.{ℕ, ◌≡◌, ltb, true, none, some, length, Bool-cases, inl, inr}
use mathlib.Core.Path.{subst}
use ghetto_redis.Prelude.Words.{Bytes}
use ghetto_redis.HashMap.{HashMap}
use ghetto_redis.Kv.{Entry}
use ghetto_redis.Commands.State.{response, Request, Response, World, set_db}
use ghetto_redis.Commands.Table.{CommandFunc}
use ghetto_redis.Commands.Handlers.{
  get_command, set_command, del_command, dispatch_ping_command, incr_command, decr_command,
  incrby_command, decrby_command,
}
use ghetto_redis.Commands.Dispatch.{cmd_req, cmd_resp}
use ghetto_redis.Commands.Plain.{cmd_ping, cmd_echo, cmd_quit, cmd_shutdown}
use ghetto_redis.Commands.Call.{call}
use ghetto_redis.Reactor.{queue_size, reactor_send_message, push, notify}
use ghetto_redis.Shards.Store.{Operation, Ask, ignore, wish}
use ghetto_redis.Shards.Pending.{Asks}
use ghetto_redis.Shards.Operations.{
  get-Meets, set-Meets, del-Meets, dispatch_ping-Meets, incr-Meets, decr-Meets, incrby-Meets,
  decrby-Meets,
}
use ghetto_redis.Shards.Moves.{Moves, Quiet, Quiet-then, Quiet-Moves, Executes, Executes-then}
use ghetto_redis.Shards.Updates.{
  set_conn-Quiet, reply-Quiet, notify-Quiet, push-response-Quiet, exec-Executes,
}
use ghetto_redis.Shards.Commands.{
  none_ne, returned-Moves, cmd_select-Quiet, shutdown_loop-Quiet, reactor_wakeup_pending-Quiet,
  cmd_flushall-Moves, cmd-Moves,
}

module _ (h : HashMap Entry (λ e. e.key)) where
  open h use {Map, hash}

  pub call-Moves :
      (func : CommandFunc) (self c : ℕ) (arg : ℕ → Bytes) (w : World Map) {w' : World Map}
      → call h func self c arg w ≡ some w'
      → Moves h w w' (wish func arg)
  unfolding call wish cmd_ping cmd_echo cmd_quit cmd_shutdown
  call-Moves func self c arg w {w'} e = by_func func e
    where
      answered : {v : World Map} → some v ≡ some w' → Quiet h w v → Moves h w w' ignore
      answered e q = returned-Moves h e (Quiet-Moves h q)

      by_func :
          (func : CommandFunc) → call h func self c arg w ≡ some w' → Moves h w w' (wish func arg)
      by_func CommandFunc.cmd_ping e = answered e (reply-Quiet h w c _)
      by_func CommandFunc.cmd_echo e = answered e (reply-Quiet h w c _)
      by_func CommandFunc.cmd_quit e = answered e (
          Quiet-then h (set_conn-Quiet h w c (record (w.conns c) { flag_end = true }))
            (reply-Quiet h _ c _))
      by_func CommandFunc.cmd_shutdown e = answered e (
          Quiet-then h (shutdown_loop-Quiet h w.size self 0 w)
            (reactor_wakeup_pending-Quiet h self _))
      by_func CommandFunc.cmd_flushall e = returned-Moves h e (cmd_flushall-Moves h c w)
      by_func CommandFunc.cmd_select e = answered e (cmd_select-Quiet h w self c arg)
      by_func CommandFunc.cmd_get e =
          cmd-Moves h w (get_command h) CommandFunc.cmd_get self c arg (get-Meets h) e
      by_func CommandFunc.cmd_set e =
          cmd-Moves h w (set_command h) CommandFunc.cmd_set self c arg (set-Meets h) e
      by_func CommandFunc.cmd_del e =
          cmd-Moves h w (del_command h) CommandFunc.cmd_del self c arg (del-Meets h) e
      by_func CommandFunc.cmd_incr e =
          cmd-Moves h w (incr_command h) CommandFunc.cmd_incr self c arg (incr-Meets h) e
      by_func CommandFunc.cmd_decr e =
          cmd-Moves h w (decr_command h) CommandFunc.cmd_decr self c arg (decr-Meets h) e
      by_func CommandFunc.cmd_incrby e =
          cmd-Moves h w (incrby_command h) CommandFunc.cmd_incrby self c arg (incrby-Meets h) e
      by_func CommandFunc.cmd_decrby e =
          cmd-Moves h w (decrby_command h) CommandFunc.cmd_decrby self c arg (decrby-Meets h) e
      by_func CommandFunc.cmd_dispatch_ping e =
          cmd-Moves h w (dispatch_ping_command h) CommandFunc.cmd_dispatch_ping self c arg
            (dispatch_ping-Meets h) e

  returned :
      {u v w' : World Map} {key : Bytes} {o : Operation}
      → some v ≡ some w'
      → Executes h u v key o
      → Executes h u w' key o
  returned {u} {v} {w'} {key} {o} e f =
      let same : v ≡ w' = cc in subst (λ x. Executes h u x key o) same f

  -- A request does the operation that it asks for.
  pub cmd_req-Executes :
      (self : ℕ) (q : Request Map) (x : Ask) (w : World Map) {w' : World Map}
      → Asks h w.size self q x
      → cmd_req self q w ≡ some w'
      → Executes h w w' x.key x.operation
  unfolding cmd_req reactor_send_message
  cmd_req-Executes self q x w {w'} (same, own, key, performs) e =
      let db = (w.conns q.conn).db in
      let done = q.definition.exec ((w.shards self).dbs db) q.key (hash q.key) q.vars in
      let stored = set_db self db done.0 w in
      let r : Response Map = record {
        src = q.dst;
        dst = q.src;
        conn = q.conn;
        definition = q.definition;
        outcome = done.1;
      } in
      let e = rw same at e in
      elim (Bool-cases (ltb (length (stored.shards q.src).reactor.cb_queue) queue_size)) [
        | inl room ↦
            let e' : some (notify self q.src (push q.src (response r) stored)) ≡ some w' =
              rw room at e in
            rw key (
              returned e' (
                Executes-then h
                  (exec-Executes h w q.definition self db q.key q.vars x.operation performs
                    (rw same at own))
                  (Quiet-then h (push-response-Quiet h stored q.src r)
                    (notify-Quiet h _ self q.src))))
        | inr full ↦ let e' : none ≡ some w' = rw full at e in absurd (none_ne h e')
      ]

  pub cmd_resp-Quiet : (r : Response Map) (w : World Map) → Quiet h w (cmd_resp r w)
  unfolding cmd_resp
  cmd_resp-Quiet r w = Quiet-then h (reply-Quiet h w r.conn _) (set_conn-Quiet h _ r.conn _)
