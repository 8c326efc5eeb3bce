-- ===== src/Protocol/Inline.antt =====
-- `parse_inline_request` of src/include/protocol.c: words on a line. The received bytes are the
-- `size` bytes at address `start`, that is `conn->recv_buf + conn->recv_buf_read`.
pub mod Reads
pub mod Sound
pub mod Words
use ghetto_redis.Prelude.{
  ℕ, zero, suc, ◌+◌, ◌==◌, if◌then◌else◌, List, [], ◌∷◌, ◌++◌, Bool, true, false,
}
use ghetto_redis.Prelude.Words.{Memory}
use ghetto_redis.Protocol.{
  Parsed, ok, err, parse_error, parse_error_invalid_argc, parse_incomplete, ◌>>=◌, CmdArgs, no_args,
  max_argc,
}

-- The variables of the loop, with `i` and `complete` in the loop's result.
pub record Scan : Type 0 where
  pub args : CmdArgs
  pub offset : ℕ
  pub len : ℕ
  pub in_arg : Bool
  pub crlf : Bool

-- `args->offsets[args->argc] = offset; args->lens[args->argc] = len; args->argc++;`
unfoldable pub close_arg : Scan → CmdArgs
close_arg s = record s.args {
  argc = s.args.argc + 1;
  offsets = s.args.offsets ++ (s.offset ∷ []);
  lens = s.args.lens ++ (s.len ∷ []);
}

-- At a space or a carriage return: close the argument that is being read, if any.
unfoldable pub end_arg : Scan → Scan
unfolding close_arg
end_arg s = if s.in_arg then record s { args = close_arg s; in_arg = false } else s

-- At any other byte, the `i`-th: begin an argument, unless there are too many, or go on with it.
unfoldable pub arg_byte : ℕ → Scan → Parsed Scan
arg_byte i s =
    if s.in_arg
    then ok (record s { len = s.len + 1 })
    else if s.args.argc == max_argc
    then err parse_error_invalid_argc
    else ok (record s { offset = i; len = 1; in_arg = true })

-- The `for` loop from `i` with `n` rounds left. It returns `i`, `complete` and the variables.
unfoldable pub scan_loop : Memory → ℕ → ℕ → ℕ → Scan → Parsed (ℕ × Bool × Scan)
unfolding end_arg arg_byte
scan_loop mem start zero i s = ok (i, false, s)
scan_loop mem start (suc n) i s =
    let after_space = scan_loop mem start n (i + 1) (end_arg s) in
    let after_cr = scan_loop mem start n (i + 1) (record (end_arg s) { crlf = true }) in
    if mem (start + i) == b' '
    then after_space
    else if mem (start + i) == b'\r'
    then after_cr
    else if mem (start + i) == b'\n'
    then (if s.crlf then ok (i, true, record s { crlf = false }) else err parse_error)
    else arg_byte i s >>= λ s. scan_loop mem start n (i + 1) s

-- The part behind the loop.
unfoldable pub scan_end : ℕ × Bool × Scan → Parsed CmdArgs
unfolding close_arg
scan_end (i, complete, s) =
    if complete
    then ok (record (if s.in_arg then close_arg s else s.args) { len = i + 1 })
    else err parse_incomplete

-- The variables before the loop.
abbrev pub initial : (start : ℕ) → Scan
initial start = record {
  args = record no_args { buf = start };
  offset = 0;
  len = 0;
  in_arg = false;
  crlf = false;
}

unfoldable pub parse_inline_request : Memory → (start size : ℕ) → Parsed CmdArgs
unfolding scan_loop scan_end
parse_inline_request mem start size = scan_loop mem start size 0 (initial start) >>= scan_end
