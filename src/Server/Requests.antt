-- ===== src/Server/Requests.antt =====
-- What `on_data_available` does with a well-formed request, also while the connection waits.
use ghetto_redis.Prelude.{
  ℕ, zero, suc, ◌+◌, ◌-◌, ◌^◌, ◌≤◌, ◌<◌, ◌≡◌, refl, sym, ◌∙◌, ltb, leb, ==_self, ap, Bool,
  Bool-cases, inl, inr, ◌⊎◌, List, [], ◌∷◌, true, false, some, get_or, length, arith,
}
use ghetto_redis.Prelude.Words.{Memory, Bytes, add_size, slice, Holds}
use ghetto_redis.HashMap.{HashMap}
use ghetto_redis.Kv.{Entry}
use ghetto_redis.Protocol.{CmdArgs, max_argc}
use ghetto_redis.Protocol.Reply.{write_array_header}
use ghetto_redis.Protocol.Resp.{parse_resp_request}
use ghetto_redis.Protocol.Resp.Layout.{request, arguments_at}
use ghetto_redis.Protocol.Resp.RoundTrip.{parse_resp_request-request}
use ghetto_redis.Protocol.Resp.Bounds.{parse_resp_request_arity}
use ghetto_redis.Commands.State.{arg, World, set_conn}
use ghetto_redis.Commands.Frame.{queued, Frame, call-Frame}
use ghetto_redis.Commands.Table.{Command, lookup_command}
use ghetto_redis.Commands.Call.{call}
use ghetto_redis.Reactor.{◌>>=◌, queue_size}
use ghetto_redis.Server.{
  parse_request, run_command, handle_command, handle_parsed, consume, on_data_available,
}

-- The `i`-th argument, read as the commands read it.
get_or-arguments_at :
    (mem : Memory) (buf i : ℕ) (os ls : List ℕ) (args : List Bytes)
    → length os ≡ length ls
    → arguments_at mem buf os ls ≡ args
    → slice mem (add_size buf (get_or os i 0)) (get_or ls i 0) ≡ get_or args i []
get_or-arguments_at mem buf i [] [] args n e = rw (← e)
get_or-arguments_at mem buf i [] (l ∷ ls) args n e = absurd (omega (arith, n))
get_or-arguments_at mem buf i (o ∷ os) [] args n e = absurd (omega (arith, n))
get_or-arguments_at mem buf zero (o ∷ os) (l ∷ ls) args n e = rw (← e)
get_or-arguments_at mem buf (suc i) (o ∷ os) (l ∷ ls) args n e =
    rw (← e)
      (get_or-arguments_at mem buf i os ls (arguments_at mem buf os ls) (omega (arith, n)) refl)

parse_request-star :
    (mem : Memory) (start size : ℕ)
    → mem start ≡ b'*'
    → parse_request mem start size ≡ parse_resp_request mem start size
unfolding parse_request
parse_request-star mem start size e = ground arith

length-request : (args : List Bytes) → 1 ≤ length (request args)
unfolding write_array_header
length-request args = omega arith

request-star :
    (mem : Memory) (p : ℕ) (args : List Bytes) → Holds mem p (request args) → mem p ≡ b'*'
unfolding write_array_header
request-star mem p args held = held.0

module _ (h : HashMap Entry (λ e. e.key)) (t : HashMap Command (λ c. c.name)) where
  open h use {Map}
  open t use {Map as Commands}

  run_command-call :
      (mem : Memory) (self c : ℕ) (args : CmdArgs) (cmd : Command) (w : World Map)
      → cmd.arity ≡ args.argc - 1
      → run_command h t mem self c args (some cmd) w ≡ call h cmd.func self c (arg mem args) w
  unfolding run_command
  run_command-call mem self c args cmd w e = rw (e, ==_self (args.argc - 1))

  -- The command's function is called with the arguments of the request.
  pub on_data_available-consume :
      (commands : Commands) (mem : Memory) (self c : ℕ) (w : World Map) (name : Bytes)
      (args : List Bytes) (cmd : Command)
      → let start = (w.conns c).recv_buf + (w.conns c).recv_buf_read in
        start + (w.conns c).recv_buf_size < 2 ^ 64
        → (w.conns c).send_buf_sent ≤ length (w.conns c).send_buf
        → Holds mem start (request (name ∷ args))
        → length (name ∷ args) ≤ max_argc
        → length (request (name ∷ args)) ≤ (w.conns c).recv_buf_size
        → lookup_command t name commands ≡ some cmd
        → cmd.arity ≡ length args
        → (r : CmdArgs) × ((i : ℕ) → arg mem r i ≡ get_or (name ∷ args) i [])
          × (on_data_available h t commands mem self c w ≡ (
              call h cmd.func self c (arg mem r) w >>= λ w'.
              some (consume h t c (length (request (name ∷ args))) w')))
  unfolding on_data_available handle_parsed handle_command
  on_data_available-consume commands mem self c w name args cmd low sendable held few inside found
        arity =
      let start : ℕ = (w.conns c).recv_buf + (w.conns c).recv_buf_read in
      let (r, parsed, argc, len, items) =
        parse_resp_request-request mem start (w.conns c).recv_buf_size (name ∷ args) held
          (omega arith) few inside low in
      let e : add_size (w.conns c).recv_buf (w.conns c).recv_buf_read ≡ start = omega arith in
      let (_, n_offsets, n_lens) =
        parse_resp_request_arity mem start (w.conns c).recv_buf_size parsed in
      let read = λ (i : ℕ).
        get_or-arguments_at mem r.buf i r.offsets r.lens (name ∷ args) (n_offsets ∙ sym n_lens)
          items in
      let first : arg mem r 0 ≡ name = read 0 in
      let some_bytes : ltb (w.conns c).recv_buf_size 1 ≡ false =
        ground (arith, length-request (name ∷ args)) in
      let passes : leb (w.conns c).send_buf_sent (length (w.conns c).send_buf) ≡ true =
        ground (arith, sendable) in
      let some_args : ltb 0 r.argc ≡ true = ground arith in
      (
        r,
        read,
        rw (
          e,
          some_bytes,
          passes,
          parse_request-star mem start (w.conns c).recv_buf_size
              (request-star mem start (name ∷ args) held),
          parsed,
          some_args,
          first,
          found,
          run_command-call mem self c r cmd w (omega arith),
          len,
        ),
      )

  -- `consume` after a command that left the receive buffer alone.
  consume_lem :
      (c len : ℕ) (w w' : World Map)
      → Frame 1 w w'
      → len ≤ (w.conns c).recv_buf_size
      → let (more, last) = consume h t c len w' in
        (((w'.conns c).flag_end ≡ true) × (last ≡ w') × (more ≡ false))
        ⊎ (((w'.conns c).flag_end ≡ false)
            × (last
                ≡ set_conn c
                    (record (w'.conns c) {
                      recv_buf_read = (w.conns c).recv_buf_read + len;
                      recv_buf_size = (w.conns c).recv_buf_size - len;
                    })
                    w')
            × (more ≡ ltb len (w.conns c).recv_buf_size))
  unfolding consume
  consume_lem c len w w' f inside =
      let size : (w'.conns c).recv_buf_size ≡ (w.conns c).recv_buf_size =
        ap (λ b. b.1) (f.buffers c) in
      let read : (w'.conns c).recv_buf_read ≡ (w.conns c).recv_buf_read =
        ap (λ b. b.2) (f.buffers c) in
      let whole : ltb (w'.conns c).recv_buf_size len ≡ false = ground (arith, size, inside) in
      elim (Bool-cases (w'.conns c).flag_end) [
        | inl ended ↦ inl (ended, rw ended refl, rw ended refl)
        | inr goes_on ↦ inr (
          goes_on,
          rw (goes_on, whole, size, read) refl,
          rw (goes_on, whole) (ground (arith, size)),
        )
      ]

  -- A connection whose buffer, which ends below 2^64, begins with a request of 1 to 64 arguments,
  -- written as the reply writers write them, with a command name that the table holds and as many arguments as the
  -- command takes, and of whose send buffer no more is sent than it holds; every queue has room for a
  -- message. Then `on_data_available` calls the command's function once, with these arguments, which
  -- returns. Where that has set END, as QUIT does, nothing else happens. Otherwise exactly the bytes of
  -- the request are taken out of the receive buffer: it begins behind them, is shorter by their number,
  -- and the result says whether bytes are left.
  pub on_data_available-request :
      (commands : Commands) (mem : Memory) (self c : ℕ) (w : World Map) (name : Bytes)
      (args : List Bytes) (cmd : Command)
      → let start = (w.conns c).recv_buf + (w.conns c).recv_buf_read in
        let len = length (request (name ∷ args)) in
        start + (w.conns c).recv_buf_size < 2 ^ 64
        → (w.conns c).send_buf_sent ≤ length (w.conns c).send_buf
        → Holds mem start (request (name ∷ args))
        → length (name ∷ args) ≤ max_argc
        → len ≤ (w.conns c).recv_buf_size
        → lookup_command t name commands ≡ some cmd
        → cmd.arity ≡ length args
        → ((q : ℕ) → queued w q < queue_size)
        → (r : CmdArgs) × (w' : World Map) × (more : Bool) × (last : World Map) × ((i : ℕ)
            → arg mem r i ≡ get_or (name ∷ args) i [])
          × (call h cmd.func self c (arg mem r) w ≡ some w')
          × (on_data_available h t commands mem self c w ≡ some (more, last))
          × ((((w'.conns c).flag_end ≡ true) × (last ≡ w') × (more ≡ false))
              ⊎ (((w'.conns c).flag_end ≡ false)
                  × (last
                      ≡ set_conn c
                          (record (w'.conns c) {
                            recv_buf_read = (w.conns c).recv_buf_read + len;
                            recv_buf_size = (w.conns c).recv_buf_size - len;
                          })
                          w')
                  × (more ≡ ltb len (w.conns c).recv_buf_size)))
  on_data_available-request commands mem self c w name args cmd low sendable held few inside found
        arity room =
      let (r, read, e) =
        on_data_available-consume commands mem self c w name args cmd low sendable held few inside
          found arity in
      let (w', called, f) = call-Frame h cmd.func self c (arg mem r) w room in
      (
        r,
        w',
        (consume h t c (length (request (name ∷ args))) w').0,
        (consume h t c (length (request (name ∷ args))) w').1,
        read,
        called,
        e ∙ rw called refl,
        consume_lem c (length (request (name ∷ args))) w w' f inside,
      )
