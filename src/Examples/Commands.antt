-- ===== src/Examples/Commands.antt =====
-- The theorems on commands at concrete states.
use ghetto_redis.Prelude.{
  ℕ, ◌-◌, ◌^◌, ◌≡◌, ◌≢◌, refl, ◌↔◌, List, [], ◌∷◌, ◌++◌, some, none, false, get_or, arith,
}
use ghetto_redis.Prelude.Words.{Bytes}
use ghetto_redis.Prelude.Int64.{negate, decimal_int64}
use ghetto_redis.Prelude.Text.{text}
use ghetto_redis.Kv.{Entry, entry_compare}
use ghetto_redis.Kv.Compare.{entry_compare_iff}
use ghetto_redis.Protocol.Reply.{
  write_simple_string, write_bulk_string, write_null_bulk_string, write_integer,
}
use ghetto_redis.Commands.State.{World, no_vars}
use ghetto_redis.Commands.Table.{CommandFunc}
use ghetto_redis.Commands.Counter.{parse_digits, try_parse_signed_integer, counter_value}
use ghetto_redis.Commands.Counter.RoundTrip.{try_parse_signed_integer-decimal_int64}
use ghetto_redis.Commands.Counter.Sum.{get, run_deltas, run_deltas-total}
use ghetto_redis.Commands.Handlers.{get_command, del_command, incr_command}
use ghetto_redis.Commands.Handlers.KeyValue.{stored, exec_inline_del-get, exec_inline_incr_fails}
use ghetto_redis.Commands.Dispatch.{exec_inline}
use ghetto_redis.Protocol.{CmdArgs}
use ghetto_redis.Commands.Call.{call}
use ghetto_redis.Commands.Call.KeyValue.{cmd_set-cmd_get}
use ghetto_redis.Commands.Plain.{cmd_flushall}
use ghetto_redis.Commands.Plain.Flush.{cmd_flushall-Cleared}
use ghetto_redis.Examples.{entries, conn_with, world_of, word, number}

entry_compare_iff_example : (entry_compare word number ≡ 0) ↔ (word.key ≡ number.key)
entry_compare_iff_example = entry_compare_iff word number (omega arith) (omega arith)

try_parse_signed_integer-decimal_int64_example :
    try_parse_signed_integer (decimal_int64 (2 ^ 64 - 41)) ≡ some (2 ^ 64 - 41)
try_parse_signed_integer-decimal_int64_example =
    try_parse_signed_integer-decimal_int64 (2 ^ 64 - 41) (omega arith)

word_ne : text "word" ≢ text "number"
word_ne = ground arith

number_ne : text "number" ≢ text "word"
number_ne = ground arith

-- Every database of shard 0.
abbrev db : List Entry
db = word ∷ number ∷ []

run_deltas-total_example :
    (counter_value entries
        (get entries (run_deltas entries db (text "number") (42 ∷ negate 7 ∷ [])) (text "number"))
      ≡ some (2 ^ 64 - 6))
    × (get entries (run_deltas entries db (text "number") (42 ∷ negate 7 ∷ [])) (text "word")
        ≡ get entries db (text "word"))
unfolding counter_value try_parse_signed_integer parse_digits
run_deltas-total_example =
    run_deltas-total entries (42 ∷ negate 7 ∷ []) db (text "number") (text "word") (2 ^ 64 - 41)
      refl word_ne

-- The words of `SET abc x`, whose key is of shard 1.
abbrev set_words : ℕ → Bytes
set_words i = get_or (text "SET" ∷ text "abc" ∷ text "x" ∷ []) i []

abbrev world : World (List Entry)
world = world_of (conn_with 0 false) 0

exec_inline_del-get_example :
    let w₁ = exec_inline (del_command entries) 0 5 (text "word") 4 no_vars world in
    let w₂ = exec_inline (get_command entries) 0 5 (text "word") 4 no_vars w₁ in
    ((w₁.conns 5).send_buf ≡ text "-before" ++ write_integer 1)
    × ((w₂.conns 5).send_buf ≡ (w₁.conns 5).send_buf ++ write_null_bulk_string)
exec_inline_del-get_example = exec_inline_del-get entries 0 5 (text "word") world

exec_inline_incr_fails_example :
    let w' = exec_inline (incr_command entries) 0 5 (text "word") 4 no_vars world in
    ((w'.conns 5).send_buf ≡ text "-before" ++ write_integer 0)
    × ((j n : ℕ) (k : Bytes) → stored entries w' j n k ≡ stored entries world j n k)
unfolding counter_value try_parse_signed_integer parse_digits
exec_inline_incr_fails_example = exec_inline_incr_fails entries 0 5 (text "word") world refl

-- The words of `SET word new` and `GET word`, whose key is of shard 0.
abbrev set_word : ℕ → Bytes
set_word i = get_or (text "SET" ∷ text "word" ∷ text "new" ∷ []) i []

abbrev get_word : ℕ → Bytes
get_word i = get_or (text "GET" ∷ text "word" ∷ []) i []

cmd_set-cmd_get_example :
    (w₁ w₂ : World (List Entry)) × (call entries CommandFunc.cmd_set 0 5 set_word world ≡ some w₁)
    × (call entries CommandFunc.cmd_get 0 6 get_word w₁ ≡ some w₂)
    × ((w₁.conns 5).send_buf ≡ text "-before" ++ write_simple_string (text "OK") 2)
    × ((w₂.conns 6).send_buf ≡ (w₁.conns 6).send_buf ++ write_bulk_string (text "new"))
    × ((j n : ℕ) → stored entries w₂ j n (text "number") ≡ stored entries world j n (text "number"))
cmd_set-cmd_get_example =
    cmd_set-cmd_get entries 0 5 6 set_word get_word (text "number") world refl refl refl number_ne

cmd_flushall-Cleared_example :
    entries.get_with_hash (((cmd_flushall entries 5 world).shards 0).dbs 3) (text "word") 4 ≡ none
cmd_flushall-Cleared_example =
    cmd_flushall-Cleared entries 5 world 0 3 (text "word") (omega arith) (omega arith)

-- `GET word` in memory, with and without more than `argc` entries.
abbrev get_args : CmdArgs
get_args = record { buf = 0; argc = 2; len = 7; offsets = 0 ∷ 3 ∷ []; lens = 3 ∷ 4 ∷ [] }

abbrev more_entries : CmdArgs
more_entries = record get_args { offsets = 0 ∷ 3 ∷ 9 ∷ []; lens = 3 ∷ 4 ∷ 5 ∷ [] }
