-- ===== src/Commands/Counter/Sum.antt =====
-- A counter holds the sum of its increments, and one that is no integer stays as it is.
use ghetto_redis.Prelude.{
  ℕ, ◌^◌, ◌<◌, ◌≡◌, ◌≢◌, refl, ◌∙◌, List, [], ◌∷◌, Option, none, some, arith,
}
use ghetto_redis.Prelude.Words.{Bytes}
use ghetto_redis.Prelude.Int64.{add_int64, decimal_int64}
use ghetto_redis.HashMap.{HashMap}
use ghetto_redis.Kv.{Entry}
use ghetto_redis.Commands.Counter.{counter_value, try_modify_counter}
use ghetto_redis.Commands.Counter.RoundTrip.{try_parse_signed_integer-decimal_int64}

module _ (h : HashMap Entry (λ e. e.key)) where
  open h use {Map, hash, get_with_hash, set_with_hash, get-set_self, get-set_ne}

  abbrev pub get : Map → Bytes → Option Entry
  get db key = get_with_hash db key (hash key)

  -- Where the stored text is an integer, `try_modify_counter` returns the sum and stores its decimal
  -- text under the key; another key `k` keeps its entry.
  try_modify_counter_sum :
      (db : Map) (key k : Bytes) (delta v : ℕ)
      → counter_value h (get db key) ≡ some v
      → k ≢ key
      → let (db', r) = try_modify_counter h db key (hash key) delta in
        (r ≡ some (add_int64 v delta))
        × (get db' key ≡ some (record { key = key; val = decimal_int64 (add_int64 v delta) }))
        × (get db' k ≡ get db k)
  unfolding try_modify_counter
  try_modify_counter_sum db key k delta v e ne =
      let new : Entry = record { key = key; val = decimal_int64 (add_int64 v delta) } in
      let step : try_modify_counter h db key (hash key) delta
          ≡ ((set_with_hash db new (hash key)).0, some (add_int64 v delta)) =
        rw (e, try_modify_counter) in
      rw step (refl, get-set_self db new, get-set_ne db new k ne)

  -- Where it is no integer, `try_modify_counter` fails and changes nothing.
  pub try_modify_counter_fails :
      (db : Map) (key : Bytes) (delta : ℕ)
      → counter_value h (get db key) ≡ none
      → try_modify_counter h db key (hash key) delta ≡ (db, none)
  unfolding try_modify_counter
  try_modify_counter_fails db key delta e = rw (e, try_modify_counter)

  -- Calls in a row, each adding to the same key.
  abbrev pub run_deltas : Map → Bytes → List ℕ → Map
  run_deltas db key [] = db
  run_deltas db key (d ∷ ds) = run_deltas (try_modify_counter h db key (hash key) d).0 key ds

  abbrev pub total : ℕ → List ℕ → ℕ
  total v [] = v
  total v (d ∷ ds) = total (add_int64 v d) ds

  counter_value_stored :
      (key : Bytes) (w : ℕ)
      → w < 2 ^ 64
      → counter_value h (some (record { key = key; val = decimal_int64 w })) ≡ some w
  unfolding counter_value
  counter_value_stored key w small = try_parse_signed_integer-decimal_int64 w small

  -- After any number of calls the counter reads as the sum of its first value and all deltas, in
  -- 64-bit arithmetic, whatever signs the sums took in between; another key `k` keeps its entry.
  pub run_deltas-total :
      (ds : List ℕ) (db : Map) (key k : Bytes) (v : ℕ)
      → counter_value h (get db key) ≡ some v
      → k ≢ key
      → (counter_value h (get (run_deltas db key ds) key) ≡ some (total v ds))
        × (get (run_deltas db key ds) k ≡ get db k)
  run_deltas-total [] db key k v e ne = (e, refl)
  run_deltas-total (d ∷ ds) db key k v e ne =
      let (_, stored, other) = try_modify_counter_sum db key k d v e ne in
      let (sum, rest) =
        run_deltas-total ds (try_modify_counter h db key (hash key) d).0 key k (add_int64 v d)
          (rw stored (counter_value_stored key (add_int64 v d) (omega arith))) ne in
      (sum, rest ∙ other)
