-- ===== src/Shards/Runs.antt =====
-- The handlers of src/server.c do nothing to the memory of the process but such steps.
use ghetto_redis.Prelude.{
  ℕ, ◌-◌, ◌&&◌, not, if◌then◌else◌, zero, suc, ◌≡◌, refl, ◌==◌, ltb, leb, length, List, [], ◌∷◌,
  ◌++◌, Bool, true, false, Option, none, some, Bool-cases, inl, inr,
}
use mathlib.Core.Path.{subst}
use ghetto_redis.Prelude.Words.{Memory, Bytes, add_size}
use ghetto_redis.HashMap.{HashMap}
use ghetto_redis.Kv.{Entry}
use ghetto_redis.Prelude.Text.{text}
use ghetto_redis.Protocol.Reply.{write_simple_generic_error}
use ghetto_redis.Protocol.{
  parse_error, parse_error_invalid_argc, parse_incomplete, Parsed, ok, err, CmdArgs,
}
use ghetto_redis.Commands.State.{World, arg}
use ghetto_redis.Commands.Table.{CommandFunc, Command, lookup_command}
use ghetto_redis.Commands.Dispatch.{reply}
use ghetto_redis.Commands.Call.{call}
use ghetto_redis.Reactor.{◌>>=◌}
use ghetto_redis.Server.{
  var_argc, wrong_arity, refuse, run_command, handle_command, consume, handle_parsed, parse_request,
  on_data_available, drain,
}
use ghetto_redis.Shards.{Step, Reach}

module _ (h : HashMap Entry (λ e. e.key)) (t : HashMap Command (λ c. c.name)) where
  open h use {Map}
  open t use {Map as Commands}

  -- With some commands.
  abbrev pub Reaches : World Map → World Map → Type 0
  Reaches w w' = (calls : List (CommandFunc × (ℕ → Bytes))) × Reach h w calls w'

  Reach-append :
      {u v w : World Map} (cs ds : List (CommandFunc × (ℕ → Bytes)))
      → Reach h u cs v
      → Reach h v ds w
      → Reach h u (ds ++ cs) w
  Reach-append cs _ r Reach.begin = r
  Reach-append cs _ r (Reach.command {calls = ds} func self c words s e) =
      Reach.command func self c words (Reach-append cs ds r s) e
  Reach-append cs ds r (Reach.later s step) = Reach.later (Reach-append cs ds r s) step

  pub Reaches-trans : (u v w : World Map) → Reaches u v → Reaches v w → Reaches u w
  Reaches-trans u v w (cs, r) (ds, s) = (ds ++ cs, Reach-append cs ds r s)

  pub stays : (w : World Map) → Reaches w w
  stays w = ([], Reach.begin)

  pub one : (w w' : World Map) → Step h w w' → Reaches w w'
  one w w' s = ([], Reach.later Reach.begin s)

  pub reaches : (u v w' : World Map) → some v ≡ some w' → Reaches u v → Reaches u w'
  reaches u v w' e r = let same : v ≡ w' = cc in subst (λ x. Reaches u x) same r

  pub none_ne : {A : Type 0} {x : A} → none ≡ some x → ⊥
  none_ne e = cc

  -- The parts of a call that returned.
  pub split :
      {A B : Type 0} (o : Option A) (f : A → Option B) {b : B}
      → (o >>= f) ≡ some b
      → (a : A) × (o ≡ some a) × (f a ≡ some b)
  split none f e = absurd (none_ne e)
  split (some a) f e = (a, refl, e)

  refuse-Reaches : (c : ℕ) (msg : Bytes) (w : World Map) → Reaches w (refuse h t c msg w)
  refuse-Reaches c msg w =
      ([], Reach.later (Reach.later Reach.begin (Step.connection c _)) (Step.connection c _))

  run_command-Reaches :
      (mem : Memory) (self c : ℕ) (args : CmdArgs) (o : Option Command) (w : World Map)
      {w' : World Map}
      → run_command h t mem self c args o w ≡ some w'
      → Reaches w w'
  unfolding run_command
  run_command-Reaches mem self c args none w {w'} e =
      reaches w _ w' e (one w _ (Step.connection c _))
  run_command-Reaches mem self c args (some cmd) w {w'} e =
      elim (Bool-cases (not (cmd.arity == args.argc - 1) && not (cmd.arity == var_argc))) [
        | inl wrong ↦
            let e' : some (reply c (write_simple_generic_error (wrong_arity cmd.name)) w)
                ≡ some w' =
              rw wrong at e in
            reaches w _ w' e' (one w _ (Step.connection c _))
        | inr right ↦
            let e' : call h cmd.func self c (arg mem args) w ≡ some w' = rw right at e in
            (
              (cmd.func, arg mem args) ∷ [],
              Reach.command cmd.func self c (arg mem args) Reach.begin e',
            )
      ]

  consume-Reaches : (c len : ℕ) (w : World Map) → Reaches w (consume h t c len w).1
  unfolding consume
  consume-Reaches c len w = elim (Bool-cases (w.conns c).flag_end) [
    | inl ends ↦ rw ends (stays w)
    | inr open_ ↦ elim (Bool-cases (ltb (w.conns c).recv_buf_size len)) [
      | inl short ↦ rw (open_, short) (stays w)
      | inr enough ↦ rw (open_, enough) (one w _ (Step.connection c _))
    ]
  ]

  module _ (commands : Commands) (mem : Memory) (self : ℕ) where
    handle_parsed-Reaches :
        (c : ℕ) (parsed : Parsed CmdArgs) (w : World Map) {more : Bool} {w' : World Map}
        → handle_parsed h t commands mem self c parsed w ≡ some (more, w')
        → Reaches w w'
    unfolding handle_parsed handle_command
    handle_parsed-Reaches c (err parse_incomplete) w {more} {w'} e =
        let same : w ≡ w' = cc in subst (λ x. Reaches w x) same (stays w)
    handle_parsed-Reaches c (err parse_error) w {more} {w'} e =
        let same : refuse h t c (text "parse error") w ≡ w' = cc in
        subst (λ x. Reaches w x) same (refuse-Reaches c (text "parse error") w)
    handle_parsed-Reaches c (err parse_error_invalid_argc) w {more} {w'} e =
        let same : refuse h t c (text "invalid argc") w ≡ w' = cc in
        subst (λ x. Reaches w x) same (refuse-Reaches c (text "invalid argc") w)
    handle_parsed-Reaches c (ok args) w {more} {w'} e =
        let (v, ran, rest) = split _ (λ w. some (consume h t c args.len w)) e in
        let same : (consume h t c args.len v).1 ≡ w' = cc in
        Reaches-trans w v w' (by_argc v ran)
          (subst (λ x. Reaches v x) same (consume-Reaches c args.len v))
      where
        by_argc :
            (v : World Map)
            → (if ltb 0 args.argc then handle_command h t commands mem self c args w else some w)
              ≡ some v
            → Reaches w v
        by_argc v e = elim (Bool-cases (ltb 0 args.argc)) [
          | inl words ↦
              let e' : handle_command h t commands mem self c args w ≡ some v = rw words at e in
              run_command-Reaches mem self c args (lookup_command t (arg mem args 0) commands) w e'
          | inr empty ↦ let e' : some w ≡ some v = rw empty at e in reaches w w v e' (stays w)
        ]

    on_data_available-Reaches :
        (c : ℕ) (w : World Map) {more : Bool} {w' : World Map}
        → on_data_available h t commands mem self c w ≡ some (more, w')
        → Reaches w w'
    unfolding on_data_available
    on_data_available-Reaches c w {more} {w'} e =
        elim (Bool-cases (ltb (w.conns c).recv_buf_size 1)) [
          | inl empty ↦
              let e' : ◌≡◌ {A = Option (Bool × World Map)} (some (false, w)) (some (more, w')) =
                rw empty at e in
              let same : w ≡ w' = cc in subst (λ x. Reaches w x) same (stays w)
          | inr filled ↦
              let parsed =
                parse_request mem (add_size (w.conns c).recv_buf (w.conns c).recv_buf_read)
                  (w.conns c).recv_buf_size in
              elim (Bool-cases (leb (w.conns c).send_buf_sent (length (w.conns c).send_buf))) [
                | inl passes ↦
                    let e' : handle_parsed h t commands mem self c parsed w ≡ some (more, w') =
                      rw (filled, passes) at e in
                    handle_parsed-Reaches c parsed w e'
                | inr fails ↦
                    let e' : ◌≡◌ {A = Option (Bool × World Map)} none (some (more, w')) =
                      rw (filled, fails) at e in
                    absurd (none_ne e')
              ]
        ]

    pub drain-Reaches :
        (fuel c : ℕ) (w : World Map) {w' : World Map}
        → drain h t commands mem fuel self c w ≡ some w'
        → Reaches w w'
    unfolding drain
    drain-Reaches zero c w e = absurd (none_ne e)
    drain-Reaches (suc fuel) c w {w'} e =
        let ((more, v), first, rest) = split _ _ e in
        Reaches-trans w v w' (on_data_available-Reaches c w first)
          (by_more more v (λ e. drain-Reaches fuel c v e) rest)
      where
        by_more :
            (more : Bool) (v : World Map)
            → (drain h t commands mem fuel self c v ≡ some w' → Reaches v w')
            → elim more [ true ↦ drain h t commands mem fuel self c v | false ↦ some v ] ≡ some w'
            → Reaches v w'
        by_more true v further e = further e
        by_more false v further e = reaches v v w' e (stays v)
