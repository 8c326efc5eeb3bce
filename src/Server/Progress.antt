-- ===== src/Server/Progress.antt =====
-- The loop over the requests in a buffer ends.
use ghetto_redis.Prelude.{
  ℕ, zero, suc, ◌+◌, ◌-◌, ◌^◌, ◌≤◌, ◌<◌, ◌≡◌, refl, ap, ◌∙◌, ◌⊎◌, inl, inr, ◌==◌, ==_self, ltb, leb,
  length, List, [], ◌∷◌, Bool, true, false, ◌&&◌, not, Bool-cases, Option, none, some, All, arith,
}
use native.Mathlib.Decide.{dec_lt}
use ghetto_redis.Prelude.Words.{Memory, Bytes, add_size}
use ghetto_redis.HashMap.{HashMap}
use ghetto_redis.Kv.{Entry}
use ghetto_redis.Protocol.{
  message_max_length, Parsed, ok, err, parse_error, parse_error_invalid_argc, parse_incomplete,
  bind-eq-ok, CmdArgs,
}
use ghetto_redis.Protocol.Resp.{parse_resp_request}
use ghetto_redis.Protocol.Resp.Bounds.{Small, parse_resp_request_bounds}
use ghetto_redis.Protocol.Inline.{initial, scan_loop, scan_end, parse_inline_request}
use ghetto_redis.Protocol.Reply.{write_simple_generic_error}
use ghetto_redis.Commands.Dispatch.{reply}
use ghetto_redis.Commands.State.{arg, World}
use ghetto_redis.Commands.Table.{Command, lookup_command}
use ghetto_redis.Commands.Frame.{
  Grown, queued, Frame, Frame-refl, Frame-weaken, Frame-then, reply-Frame, set_conn-Frame,
  call-Frame,
}
use ghetto_redis.Reactor.{queue_size}
use ghetto_redis.Server.{
  var_argc, parse_request, wrong_arity, run_command, handle_command, consume, refuse, handle_parsed,
  on_data_available, drain,
}

-- Among the bytes from `from` up to `to` stands a request that declares a length of 2^62 or more.
abbrev pub Overlong : Memory → (from to : ℕ) → Type 0
Overlong mem from to =
    (start size : ℕ) × (r : CmdArgs) × (parse_resp_request mem start size ≡ ok r)
    × (All Small r.lens → ⊥)
    × (from ≤ start)
    × (start + size ≤ to)

All-Small-cases : (ls : List ℕ) → All Small ls ⊎ (All Small ls → ⊥)
All-Small-cases [] = inl tt
All-Small-cases (l ∷ ls) = elim (dec_lt l (2 ^ 62)) [
  | yes small ↦ elim (All-Small-cases ls) [
    | inl rest ↦ inl (small, rest)
    | inr large ↦ inr (λ all. large all.1)
  ]
  | no large ↦ inr (λ all. large all.0)
]

parse_inline_request-pos :
    (mem : Memory) (start size : ℕ) {r : CmdArgs}
    → parse_inline_request mem start size ≡ ok r
    → 0 < r.len
unfolding parse_inline_request scan_end
parse_inline_request-pos mem start size {r} h =
    let ((i, complete, s), _, ends) =
      bind-eq-ok (scan_loop mem start size 0 (initial start)) scan_end h in
    ground arith

-- An accepted request takes some bytes.
parse_request-pos :
    (mem : Memory) (start size : ℕ) {r : CmdArgs}
    → start + size + 3 < 2 ^ 62
    → parse_request mem start size ≡ ok r
    → (0 < r.len) ⊎ Overlong mem start (start + size)
unfolding parse_request
parse_request-pos mem start size {r} low h = elim (Bool-cases (mem start == b'*')) [
  | inl star ↦
      let read : parse_resp_request mem start size ≡ ok r = rw star at h in
      elim (All-Small-cases r.lens) [
        | inl small ↦ inl (parse_resp_request_bounds mem start size read small low).0
        | inr large ↦ inr (start, size, r, read, large, omega arith, omega arith)
      ]
  | inr other ↦ inl (parse_inline_request-pos mem start size (rw other at h))
]

module _ (h : HashMap Entry (λ e. e.key)) (t : HashMap Command (λ c. c.name)) where
  open h use {Map}
  open t use {Map as Commands}

  -- What a round does to the buffer of connection `c` and to the queues; `more` is what it returns.
  record Round (c : ℕ) (more : Bool) (w w' : World Map) : Type 0 where
    place : (w'.conns c).recv_buf ≡ (w.conns c).recv_buf
    end :
        (w'.conns c).recv_buf_read + (w'.conns c).recv_buf_size
        ≡ (w.conns c).recv_buf_read + (w.conns c).recv_buf_size
    rest : (w'.conns c).recv_buf_size ≤ (w.conns c).recv_buf_size
    progress : more ≡ true → (w'.conns c).recv_buf_size < (w.conns c).recv_buf_size
    sending : Grown (w.conns c) (w'.conns c)
    queues : (q : ℕ) → queued w' q ≤ queued w q + 1

  kept-Round : (c : ℕ) (w w' : World Map) → Frame 1 w w' → Round c false w w'
  kept-Round c w w' f = record {
    place = ap (λ b. b.0) (f.buffers c);
    end = omega (arith, ap (λ b. b.1) (f.buffers c), ap (λ b. b.2) (f.buffers c));
    rest = omega (arith, ap (λ b. b.1) (f.buffers c));
    progress = λ e. cc;
    sending = f.sending c;
    queues = f.queues;
  }

  consume-Round :
      (c len : ℕ) (w w' : World Map)
      → 0 < len
      → Frame 1 w w'
      → Round c (consume h t c len w').0 w (consume h t c len w').1
  unfolding consume
  consume-Round c len w w' some_byte f =
      let size = ap (λ b. b.1) (f.buffers c) in
      let read = ap (λ b. b.2) (f.buffers c) in
      elim (Bool-cases (w'.conns c).flag_end) [
        | inl ended ↦ rw ended (kept-Round c w w' f)
        | inr open_still ↦ elim (Bool-cases (ltb (w'.conns c).recv_buf_size len)) [
          | inl short ↦ rw (open_still, short) (kept-Round c w w' f)
          | inr enough ↦
              rw (open_still, enough)
                (record {
                  place = rw (==_self c) (ap (λ b. b.0) (f.buffers c));
                  end = rw (==_self c) (ground (arith, size, read, enough));
                  rest = rw (==_self c) (omega (arith, size));
                  progress = λ e. rw (==_self c) (ground (arith, size, enough, e, some_byte));
                  sending = rw (==_self c) (f.sending c);
                  queues = f.queues;
                })
        ]
      ]

  module _ (commands : Commands) (mem : Memory) (self c : ℕ) where
    refuse-Frame : (msg : Bytes) (w : World Map) → Frame 1 w (refuse h t c msg w)
    refuse-Frame msg w =
        Frame-weaken 0 1 (omega arith)
          (Frame-then (reply-Frame w c _) (set_conn-Frame _ c _ refl (refl, omega arith)))

    handle_command-Frame :
        (args : CmdArgs) (w : World Map)
        → ((q : ℕ) → queued w q < queue_size)
        → (w' : World Map) × (handle_command h t commands mem self c args w ≡ some w')
          × Frame 1 w w'
    unfolding handle_command run_command
    handle_command-Frame args w room = by_command (lookup_command t (arg mem args 0) commands)
      where
        by_command :
            (o : Option Command)
            → (w' : World Map) × (run_command h t mem self c args o w ≡ some w') × Frame 1 w w'
        by_command none = (_, refl, Frame-weaken 0 1 (omega arith) (reply-Frame w c _))
        by_command (some cmd) =
            elim (Bool-cases (not (cmd.arity == args.argc - 1) && not (cmd.arity == var_argc))) [
              | inl wrong ↦
                  let answer = write_simple_generic_error (wrong_arity cmd.name) in
                  (
                    reply c answer w,
                    rw wrong,
                    Frame-weaken 0 1 (omega arith) (reply-Frame w c answer),
                  )
              | inr right ↦
                  let (w', e, f) = call-Frame h cmd.func self c (arg mem args) w room in
                  (w', rw right e, f)
            ]

    -- A round returns, unless it meets a request that declares too much.
    abbrev RoundEnds : Option (Bool × World Map) → World Map → Type 0
    RoundEnds o w = (more : Bool) × (w' : World Map) × (o ≡ some (more, w')) × Round c more w w'

    handled-Round :
        (args : CmdArgs) (w : World Map)
        → 0 < args.len
        → ((q : ℕ) → queued w q < queue_size)
        → RoundEnds (handle_parsed h t commands mem self c (ok args) w) w
    unfolding handle_parsed
    handled-Round args w some_byte room = elim (Bool-cases (ltb 0 args.argc)) [
      | inl some_args ↦
          let (w', e, f) = handle_command-Frame args w room in
          (_, _, rw (some_args, e), consume-Round c args.len w w' some_byte f)
      | inr no_args ↦ (
        _,
        _,
        rw no_args,
        consume-Round c args.len w w some_byte (Frame-weaken 0 1 (omega arith) (Frame-refl w)),
      )
    ]

    -- The end of what the connection has received.
    abbrev pub limit : World Map → ℕ
    limit w = (w.conns c).recv_buf + (w.conns c).recv_buf_read + (w.conns c).recv_buf_size

    -- No more of the send buffer is sent than it holds.
    abbrev pub Sendable : World Map → Type 0
    Sendable w = (w.conns c).send_buf_sent ≤ length (w.conns c).send_buf

    on_data_available-Round :
        (w : World Map)
        → limit w + 3 < 2 ^ 62
        → ((q : ℕ) → queued w q < queue_size)
        → Sendable w
        → RoundEnds (on_data_available h t commands mem self c w) w
          ⊎ Overlong mem (w.conns c).recv_buf (limit w)
    unfolding on_data_available handle_parsed
    on_data_available-Round w low room sendable = elim (Bool-cases (ltb size 1)) [
      | inl short ↦
          inl (false, w, rw short, kept-Round c w w (Frame-weaken 0 1 (omega arith) (Frame-refl w)))
      | inr filled ↦
          let passes : leb (w.conns c).send_buf_sent (length (w.conns c).send_buf) ≡ true =
            ground (arith, sendable) in
          rw (filled, passes) (by_parsed (parse_request mem start size) refl)
    ]
      where
        size : ℕ
        size = (w.conns c).recv_buf_size

        start : ℕ
        start = add_size (w.conns c).recv_buf (w.conns c).recv_buf_read

        refused : (msg : Bytes) → RoundEnds (some (false, refuse h t c msg w)) w
        refused msg = (false, refuse h t c msg w, refl, kept-Round c w _ (refuse-Frame msg w))

        by_parsed :
            (p : Parsed CmdArgs)
            → parse_request mem start size ≡ p
            → RoundEnds (handle_parsed h t commands mem self c p w) w
              ⊎ Overlong mem (w.conns c).recv_buf (limit w)
        by_parsed (err parse_incomplete) e =
            inl (false, w, refl, kept-Round c w w (Frame-weaken 0 1 (omega arith) (Frame-refl w)))
        by_parsed (err parse_error) e = inl (refused _)
        by_parsed (err parse_error_invalid_argc) e = inl (refused _)
        by_parsed (ok args) e = elim (parse_request-pos mem start size (omega (arith, low)) e) [
          | inl some_byte ↦ inl (handled-Round args w some_byte room)
          | inr (start, size, r, e, large, above, below) ↦
              inr (start, size, r, e, large, omega (arith, low, above), omega (arith, low, below))
        ]

    -- Every queue has room for a message for each byte of the buffer.
    abbrev pub Room : World Map → Type 0
    Room w = (q : ℕ) → queued w q + (w.conns c).recv_buf_size < queue_size

    -- The loop returns, the send buffer having grown.
    abbrev pub Returns : Option (World Map) → World Map → Type 0
    Returns o w =
        (w' : World Map) × (o ≡ some w')
        × ((w'.conns c).recv_buf ≡ (w.conns c).recv_buf)
        × (limit w' ≡ limit w)
        × ((w'.conns c).recv_buf_size ≤ (w.conns c).recv_buf_size)
        × Grown (w.conns c) (w'.conns c)

    pub drain-Returns :
        (fuel : ℕ) (w : World Map)
        → (w.conns c).recv_buf_size < fuel
        → limit w + 3 < 2 ^ 62
        → Room w
        → Sendable w
        → Returns (drain h t commands mem fuel self c w) w
          ⊎ Overlong mem (w.conns c).recv_buf (limit w)
    unfolding drain
    drain-Returns zero w enough low room sendable = absurd (omega arith)
    drain-Returns (suc fuel) w enough low room sendable =
        elim (on_data_available-Round w low (λ q. omega (arith, room q)) sendable) [
          | inl (false, w', e, round) ↦ inl (
            w',
            rw e refl,
            round.place,
            omega (arith, round.place, round.end),
            round.rest,
            round.sending,
          )
          | inl (true, w', e, round) ↦
              elim (drain-Returns fuel w' (omega (arith, round.progress refl))
                (omega (arith, low, round.place, round.end))
                (λ q. omega (arith, room q, round.queues q, round.progress refl))
                (omega (arith, round.sending.0, round.sending.1))) [
                  | inl (last, e', place, end, rest, sending) ↦ inl (
                    last,
                    rw e e',
                    place ∙ round.place,
                    omega (arith, end, round.place, round.end),
                    omega (arith, rest, round.rest),
                    (sending.0 ∙ round.sending.0, omega (arith, sending.1, round.sending.1)),
                  )
                  | inr (start, size, r, parsed, large, above, below) ↦ inr (
                    start,
                    size,
                    r,
                    parsed,
                    large,
                    omega (arith, above, round.place),
                    omega (arith, below, round.place, round.end),
                  )
                ]
          | inr large ↦ inr large
        ]

    -- The loop returns, with a send buffer that fits `send_buf`. It only grows, so that it fitted
    -- all the time.
    abbrev pub Ends : Option (World Map) → World Map → Type 0
    Ends o w =
        (w' : World Map) × (o ≡ some w')
        × ((w'.conns c).recv_buf ≡ (w.conns c).recv_buf)
        × (limit w' ≡ limit w)
        × ((w'.conns c).recv_buf_size ≤ (w.conns c).recv_buf_size)
        × Grown (w.conns c) (w'.conns c)
        × (length (w'.conns c).send_buf ≤ message_max_length)

    -- The replies are more than `send_buf` has room for.
    abbrev pub Overruns : Option (World Map) → Type 0
    Overruns o =
        (w' : World Map) × (o ≡ some w') × (message_max_length < length (w'.conns c).send_buf)

    -- `while (on_data_available(context, conn)) { }` terminates, the assertion in it included: where
    -- no more of the send buffer is sent than it holds, with fuel for one round more than the
    -- connection has bytes to look at, at addresses below 2^62 - 3, and where every queue has room for
    -- a message for each of these bytes, no push and no assertion fails and the loop returns. What is left then is the end of the
    -- same bytes, the send buffer has grown, at most, and holds no more than the 8192 bytes that it
    -- has room for. There are two exceptions: a buffer with a request that declares a length of 2^62
    -- or more, whose length wraps around, and replies that together overrun the send buffer, which the
    -- code does not look at.
    pub drain-Ends :
        (fuel : ℕ) (w : World Map)
        → (w.conns c).recv_buf_size < fuel
        → limit w + 3 < 2 ^ 62
        → Room w
        → Sendable w
        → Ends (drain h t commands mem fuel self c w) w
          ⊎ (Overruns (drain h t commands mem fuel self c w)
              ⊎ Overlong mem (w.conns c).recv_buf (limit w))
    drain-Ends fuel w enough low room sendable =
        elim (drain-Returns fuel w enough low room sendable) [
          | inl (w', e, place, end, rest, sending) ↦
              elim (dec_lt message_max_length (length (w'.conns c).send_buf)) [
                | yes over ↦ inr (inl (w', e, over))
                | no fits ↦ inl (w', e, place, end, rest, sending, omega (arith, fits))
              ]
          | inr large ↦ inr (inr large)
        ]
