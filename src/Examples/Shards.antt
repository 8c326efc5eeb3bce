-- ===== src/Examples/Shards.antt =====
-- The theorems on the shards at concrete states.
use ghetto_redis.Prelude.{
  ℕ, ◌+◌, ◌%◌, ◌<◌, ◌≡◌, ◌⊎◌, refl, List, [], ◌∷◌, Option, none, some, false, get_or, arith,
}
use ghetto_redis.Prelude.Words.{Bytes}
use ghetto_redis.Prelude.Text.{text}
use ghetto_redis.Kv.{Entry}
use ghetto_redis.Commands.State.{World, Message, request, val_var}
use ghetto_redis.Commands.Table.{CommandFunc}
use ghetto_redis.Commands.Handlers.{set_command}
use ghetto_redis.Commands.Dispatch.{cmd, cmd_exec, exec_dispatch, cmd_req, run_callback}
use ghetto_redis.Commands.Dispatch.Transparent.{pop}
use ghetto_redis.Commands.Call.{call}
use ghetto_redis.Reactor.{reactor_send_message, notify}
use ghetto_redis.Server.Start.{num_threads, main, init_shards, init_dbs, reactor_init}
use ghetto_redis.Shards.{Step, Reach}
use ghetto_redis.Shards.Pending.{stored, store, Pending}
use ghetto_redis.Shards.Store.{Ask, Serial}
use ghetto_redis.Shards.Reached.{Reach-stored, Reach-Serial}
use ghetto_redis.Examples.{entries, conn_with, world_of, word}

-- `SET abc x` on shard 0. The key is of shard 3.
abbrev words : ℕ → Bytes
words i = get_or (text "SET" ∷ text "abc" ∷ text "x" ∷ []) i []

abbrev idle : World (List Entry)
idle = world_of (conn_with 0 false) 0

abbrev started : World (List Entry)
started = main entries (λ i. i + 1) (λ i j. word ∷ []) idle.shards (λ i. conn_with 0 false) (λ i. 0)

-- The states after the command, and after its callback on shard 3, if they return.
abbrev or_started : Option (World (List Entry)) → World (List Entry)
or_started none = started
or_started (some w) = w

abbrev sent : World (List Entry)
sent = or_started (call entries CommandFunc.cmd_set 0 5 words started)

abbrev query : Message (List Entry)
query = request (record {
  src = 0;
  dst = 3;
  conn = 5;
  definition = set_command entries;
  key = text "abc";
  hash = 3;
  vars = val_var (text "x");
})

abbrev done_ : World (List Entry)
done_ = or_started (run_callback 3 query (pop 3 [] sent))

-- The command is sent to shard 3, which then takes it out of its queue.
ran : Reach entries started ((CommandFunc.cmd_set, words) ∷ []) done_
unfolding main init_shards init_dbs reactor_init call cmd cmd_exec exec_dispatch run_callback
    cmd_req reactor_send_message notify
ran =
    Reach.later (Reach.command CommandFunc.cmd_set 0 5 words Reach.begin refl)
      (Step.callback 3 query [] (omega arith) refl refl)

Reach-stored_example :
    (stored entries done_ 3 0 (text "abc") ≡ none) ⊎ (entries.hash (text "abc") % done_.size ≡ 3)
unfolding main init_shards init_dbs reactor_init call cmd cmd_exec exec_dispatch run_callback
    cmd_req reactor_send_message notify
Reach-stored_example =
    Reach-stored entries (λ i. i + 1) (λ i j. word ∷ []) idle.shards (λ i. conn_with 0 false)
      (λ i. 0) 3 0 (text "abc") ran (omega arith) (omega arith)

Reach-Serial_example :
    (queues : ℕ → List Ask) × Serial entries num_threads 16
      ((CommandFunc.cmd_set, words) ∷ [])
      (store entries num_threads done_)
      queues
    × ((t : ℕ)
        → t < num_threads
        → Pending entries num_threads t (done_.shards t).reactor.cb_queue (queues t))
Reach-Serial_example =
    Reach-Serial entries (λ i. i + 1) (λ i j. word ∷ []) idle.shards (λ i. conn_with 0 false)
      (λ i. 0) ran
