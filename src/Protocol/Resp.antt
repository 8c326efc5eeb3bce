-- ===== src/Protocol/Resp.antt =====
-- `parse_resp_request` of src/include/protocol.c: an array of bulk strings. The received bytes are
-- the `size` bytes at address `start`, that is `conn->recv_buf + conn->recv_buf_read`.
pub mod Layout
pub mod Overflow
pub mod RoundTrip
pub mod Bounds
use ghetto_redis.Prelude.{
  ℕ, zero, suc, ◌+◌, ◌%◌, ◌^◌, ltb, ◌==◌, if◌then◌else◌, List, [], ◌∷◌, ◌++◌, Bool, true, false,
}
use ghetto_redis.Prelude.Words.{Memory, add_size, sub_size}
use ghetto_redis.Protocol.{
  Parsed, ok, err, parse_error, parse_error_invalid_argc, parse_incomplete, ◌>>=◌, CmdArgs, no_args,
  max_argc,
}
use ghetto_redis.Protocol.Number.{parse_number}

-- `args->lens[i] = arglen; args->offsets[i] = cur - start;` for the next `i`
abbrev pub add_arg : CmdArgs → (offset arglen : ℕ) → CmdArgs
add_arg args offset arglen = record args {
  offsets = args.offsets ++ (offset ∷ []);
  lens = args.lens ++ (arglen ∷ []);
}

module _ (mem : Memory) (start end : ℕ) where
  -- One round of the `for` loop.
  unfoldable pub parse_arg : (cur : ℕ) → CmdArgs → Parsed (ℕ × CmdArgs)
  parse_arg cur args =
      if cur == end
      then err parse_incomplete
      else if mem cur == b'$'
      then (do
        (cur, arglen) ← parse_number mem (add_size cur 1) end
        let next = add_size (add_size cur arglen) 2
        if ltb end next
            then err parse_incomplete
            else ok (next, add_arg args (sub_size cur start) arglen))
      else err parse_error

  -- The `for` loop with `n` rounds left.
  unfoldable pub parse_args : ℕ → (cur : ℕ) → CmdArgs → Parsed (ℕ × CmdArgs)
  unfolding parse_arg
  parse_args zero cur args = ok (cur, args)
  parse_args (suc n) cur args = parse_arg cur args >>= λ (cur, args). parse_args n cur args

unfoldable pub parse_resp_request : Memory → (start size : ℕ) → Parsed CmdArgs
unfolding parse_args
parse_resp_request mem start size =
    let end = add_size start size in
    if start == end then err parse_incomplete else (do
      (cur, argc) ← parse_number mem (add_size start 1) end
      if ltb max_argc argc
          then err parse_error_invalid_argc
          else if ltb end (add_size cur 2)
          then err parse_incomplete
          else (do
            (cur, args) ← parse_args mem start end argc cur (record no_args { argc = argc })
            ok (record args { buf = start; len = sub_size cur start })))
