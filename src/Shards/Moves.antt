-- ===== src/Shards/Moves.antt =====
-- What a step may do to databases and queues.
use ghetto_redis.Prelude.{
  ℕ, ◌%◌, ◌<◌, ◌≡◌, ◌≢◌, ◌⊎◌, refl, ap, ◌∙◌, ◌==◌, if◌then◌else◌, List, [], ◌∷◌, ◌++◌, none,
}
use mathlib.Core.Path.{subst}
use ghetto_redis.Prelude.Words.{Bytes}
use ghetto_redis.HashMap.{HashMap}
use ghetto_redis.Kv.{Entry}
use ghetto_redis.Commands.State.{World}
use ghetto_redis.Shards.Store.{Operation, Ask, Wish, ignore, clear_all, ask, result}
use ghetto_redis.Shards.Pending.{stored, Pending}

module _ (h : HashMap Entry (λ e. e.key)) where
  open h use {Map, hash, get_with_hash}

  abbrev pub Kept : World Map → World Map → Type 0
  Kept w w' =
      (t : ℕ) (xs : List Ask)
      → Pending h w.size t (w.shards t).reactor.cb_queue xs
      → Pending h w.size t (w'.shards t).reactor.cb_queue xs

  abbrev pub SameDbs : World Map → World Map → Type 0
  SameDbs w w' = (i j : ℕ) → (w'.shards i).dbs j ≡ (w.shards i).dbs j

  -- One operation on a key of database `j` on the key's own shard.
  abbrev pub Operated : World Map → World Map → (j : ℕ) → (key : Bytes) → Operation → Type 0
  Operated w w' j key o =
      (stored h w' (hash key % w.size) j key
        ≡ result h o key (stored h w (hash key % w.size) j key))
      × ((i b : ℕ) (k : Bytes)
          → (i ≢ hash key % w.size) ⊎ ((b ≢ j) ⊎ (k ≢ key))
          → stored h w' i b k ≡ stored h w i b k)

  -- One more operation in the queue of the key's shard.
  abbrev pub Queued : World Map → World Map → Bytes → Operation → Type 0
  Queued w w' key o =
      (t : ℕ) (xs : List Ask)
      → Pending h w.size t (w.shards t).reactor.cb_queue xs
      → Pending h w.size t (w'.shards t).reactor.cb_queue
          (if t == hash key % w.size then xs ++ (record { key = key; operation = o } ∷ []) else xs)

  -- What a step does for the wish of its command.
  pub data Effect (w w' : World Map) (wish : Wish) : Type 0 where
    quiet : wish ≡ ignore → SameDbs w w' → Kept w w' → Effect w w' wish
    operated :
        (j : ℕ) (key : Bytes) (o : Operation)
        → wish ≡ ask key o
        → Operated w w' j key o
        → Kept w w'
        → Effect w w' wish
    queued :
        (key : Bytes) (o : Operation)
        → wish ≡ ask key o
        → SameDbs w w'
        → Queued w w' key o
        → Effect w w' wish
    flushed :
        wish ≡ clear_all
        → ((i j : ℕ) (k : Bytes) → i < w.size → j < w.num_dbs → stored h w' i j k ≡ none)
        → Kept w w'
        → Effect w w' wish

  pub record Moves (w w' : World Map) (wish : Wish) : Type 0 where
    pub same_size : w'.size ≡ w.size
    pub same_num_dbs : w'.num_dbs ≡ w.num_dbs
    pub effect : Effect w w' wish

  -- A step that leaves the databases alone.
  pub record Quiet (w w' : World Map) : Type 0 where
    pub same_size : w'.size ≡ w.size
    pub same_num_dbs : w'.num_dbs ≡ w.num_dbs
    pub dbs : SameDbs w w'
    pub queues : Kept w w'

  pub Quiet-refl : (w : World Map) → Quiet w w
  Quiet-refl w = record {
    same_size = refl;
    same_num_dbs = refl;
    dbs = λ i j. refl;
    queues = λ t xs p. p;
  }

  -- `Kept` from a state of the same size.
  pub resize :
      (u v w : World Map)
      → v.size ≡ u.size
      → Kept v w
      → (t : ℕ) (xs : List Ask) → Pending h u.size t (v.shards t).reactor.cb_queue xs
      → Pending h u.size t (w.shards t).reactor.cb_queue xs
  resize u v w size kept t xs =
      subst
        (λ n.
          Pending h n t (v.shards t).reactor.cb_queue xs
          → Pending h n t (w.shards t).reactor.cb_queue xs)
        size (kept t xs)

  pub Quiet-then : {u v w : World Map} → Quiet u v → Quiet v w → Quiet u w
  Quiet-then {u} {v} {w} f g = record {
    same_size = g.same_size ∙ f.same_size;
    same_num_dbs = g.same_num_dbs ∙ f.same_num_dbs;
    dbs = λ i j. g.dbs i j ∙ f.dbs i j;
    queues = λ t xs p. resize u v w f.same_size g.queues t xs (f.queues t xs p);
  }

  pub Quiet-Moves : {w w' : World Map} → Quiet w w' → Moves w w' ignore
  Quiet-Moves q = record {
    same_size = q.same_size;
    same_num_dbs = q.same_num_dbs;
    effect = Effect.quiet refl q.dbs q.queues;
  }

  stored-same :
      (w w' : World Map)
      → SameDbs w w'
      → (i j : ℕ) (k : Bytes) → stored h w' i j k ≡ stored h w i j k
  stored-same w w' same i j k = ap (λ m. get_with_hash m k (hash k)) (same i j)

  pub Moves-then : {u v w : World Map} {wish : Wish} → Moves u v wish → Quiet v w → Moves u w wish
  Moves-then {u} {v} {w} {wish} f q = record {
    same_size = q.same_size ∙ f.same_size;
    same_num_dbs = q.same_num_dbs ∙ f.same_num_dbs;
    effect = by_effect f.effect;
  }
    where
      after :
          (t : ℕ) (xs : List Ask)
          → Pending h u.size t (v.shards t).reactor.cb_queue xs
          → Pending h u.size t (w.shards t).reactor.cb_queue xs
      after t xs = resize u v w f.same_size q.queues t xs

      by_effect : Effect u v wish → Effect u w wish
      by_effect (Effect.quiet e same kept) =
          Effect.quiet e (λ i j. q.dbs i j ∙ same i j) (λ t xs p. after t xs (kept t xs p))
      by_effect (Effect.operated j key o e (here, others) kept) =
          Effect.operated j key o e
            (
              stored-same v w q.dbs (hash key % u.size) j key ∙ here,
              λ i b k away. stored-same v w q.dbs i b k ∙ others i b k away,
            )
            (λ t xs p. after t xs (kept t xs p))
      by_effect (Effect.queued key o e same grown) =
          Effect.queued key o e (λ i j. q.dbs i j ∙ same i j) (λ t xs p. after t _ (grown t xs p))
      by_effect (Effect.flushed e gone kept) =
          Effect.flushed e
            (λ i j k below inside. stored-same v w q.dbs i j k ∙ gone i j k below inside)
            (λ t xs p. after t xs (kept t xs p))

  -- A step that does an operation at once.
  pub record Executes (w w' : World Map) (key : Bytes) (o : Operation) : Type 0 where
    pub same_size : w'.size ≡ w.size
    pub same_num_dbs : w'.num_dbs ≡ w.num_dbs
    pub db : ℕ
    pub operated : Operated w w' db key o
    pub kept : Kept w w'

  pub Executes-Moves :
      {w w' : World Map} {key : Bytes} {o : Operation}
      → Executes w w' key o
      → Moves w w' (ask key o)
  Executes-Moves {w} {w'} {key} {o} f = record {
    same_size = f.same_size;
    same_num_dbs = f.same_num_dbs;
    effect = Effect.operated f.db key o refl f.operated f.kept;
  }

  pub Executes-then :
      {u v w : World Map} {key : Bytes} {o : Operation}
      → Executes u v key o
      → Quiet v w
      → Executes u w key o
  Executes-then {u} {v} {w} {key} {o} f q = record {
    same_size = q.same_size ∙ f.same_size;
    same_num_dbs = q.same_num_dbs ∙ f.same_num_dbs;
    db = f.db;
    operated = (
      stored-same v w q.dbs (hash key % u.size) f.db key ∙ f.operated.0,
      λ i b k away. stored-same v w q.dbs i b k ∙ f.operated.1 i b k away,
    );
    kept = λ t xs p. resize u v w f.same_size q.queues t xs (f.kept t xs p);
  }
