-- ===== src/Examples/Requests.antt =====
-- The theorems on requests at concrete bytes.
use ghetto_redis.Prelude.{
  ℕ, ◌+◌, ◌-◌, ◌^◌, ◌≤◌, ◌<◌, ◌≡◌, refl, List, [], ◌∷◌, ◌++◌, length, arith, inl,
}
use ghetto_redis.Prelude.Words.{Bytes}
use ghetto_redis.Prelude.Decimal.{decimal}
use ghetto_redis.Prelude.Text.{text}
use ghetto_redis.Protocol.{ok, err, parse_error, CmdArgs, max_argc}
use ghetto_redis.Protocol.Reply.{write_bulk_string, write_array_header, crlf}
use ghetto_redis.Protocol.Number.{digits_loop, number_end, parse_number}
use ghetto_redis.Protocol.Number.Digits.{parse_number-value, parse_number_cut}
use ghetto_redis.Protocol.Number.Bounds.{parse_number_bounds}
use ghetto_redis.Protocol.Resp.{parse_arg, parse_args, parse_resp_request}
use ghetto_redis.Protocol.Resp.Layout.{request, arguments}
use ghetto_redis.Protocol.Resp.RoundTrip.{parse_resp_request-request}
use ghetto_redis.Protocol.Resp.Bounds.{Fits, parse_resp_request_arity, parse_resp_request_bounds}
use ghetto_redis.Protocol.Resp.Overflow.{claim_length, parse_resp_request_overflow}
use ghetto_redis.Protocol.Inline.{parse_inline_request}
use ghetto_redis.Protocol.Inline.Sound.{view, parse_inline_request-first_line}
use ghetto_redis.Examples.{memory_of, memory_of-Holds, memory_of-Holds_front}

-- `GET word`, and one byte of the next request.
abbrev get_word : List Bytes
get_word = text "GET" ∷ text "word" ∷ []

abbrev received : Bytes
received =
    text "*2"
    ++ (crlf
        ++ (text "$3"
            ++ (crlf
                ++ (text "GET"
                    ++ (crlf ++ (text "$4" ++ (crlf ++ (text "word" ++ (crlf ++ text "*")))))))))

parse_number-value_example : parse_number (memory_of (text "120" ++ crlf)) 0 5 ≡ ok (5, 120)
parse_number-value_example =
    parse_number-value (memory_of (text "120" ++ crlf)) 0 5 3 (text "120") (omega arith)
      (omega arith) (omega arith) refl refl (omega arith) (omega arith)

parse_number_cut_example : parse_number (memory_of (text "12")) 0 2 ≡ err parse_error
parse_number_cut_example =
    parse_number_cut (memory_of (text "12")) 0 2 (text "12") (omega arith) (omega arith)
      (omega arith) refl (inl (omega arith)) (omega arith) (omega arith)

parse_number_bounds_example : (1 + 2 ≤ 4) × (4 ≤ 10) × (2 < 2 ^ 64)
unfolding parse_number digits_loop number_end
parse_number_bounds_example =
    parse_number_bounds (memory_of received) 1 10 {q = 4} {k = 2} (omega arith) (omega arith) refl

parse_resp_request-request_example :
    (r : CmdArgs) × (parse_resp_request (memory_of (request get_word)) 0 23 ≡ ok r)
    × (r.argc ≡ 2)
    × (r.len ≡ length (request get_word))
    × (arguments (memory_of (request get_word)) r ≡ get_word)
unfolding write_bulk_string write_array_header decimal
parse_resp_request-request_example =
    parse_resp_request-request (memory_of (request get_word)) 0 23 get_word
      (memory_of-Holds (request get_word)) (omega arith) (omega arith) (omega arith) (omega arith)

abbrev parsed : CmdArgs
parsed = record { buf = 0; argc = 2; len = 23; offsets = 8 ∷ 17 ∷ []; lens = 3 ∷ 4 ∷ [] }

parse_resp_request_arity_example :
    (parsed.argc ≤ max_argc)
    × (length parsed.offsets ≡ parsed.argc)
    × (length parsed.lens ≡ parsed.argc)
unfolding parse_resp_request parse_args parse_arg parse_number digits_loop number_end
parse_resp_request_arity_example =
    parse_resp_request_arity (memory_of received) 0 25 {r = parsed} refl

parse_resp_request_bounds_example : (0 < 23) × (23 ≤ 25) × Fits 23 (8 ∷ 17 ∷ []) (3 ∷ 4 ∷ [])
unfolding parse_resp_request parse_args parse_arg parse_number digits_loop number_end
parse_resp_request_bounds_example =
    parse_resp_request_bounds (memory_of received) 0 25 {r = parsed} refl (omega arith)
      (omega arith)

-- An argument of 2^64 - 20 bytes.
abbrev huge : ℕ
huge = 2 ^ 64 - 20

parse_resp_request_overflow_example :
    (r : CmdArgs) × (parse_resp_request (memory_of (claim_length huge ++ text "*")) 0 28 ≡ ok r)
    × (r.lens ≡ huge ∷ [])
    × (28 < length (claim_length huge) + huge)
unfolding write_array_header decimal
parse_resp_request_overflow_example =
    parse_resp_request_overflow (memory_of (claim_length huge ++ text "*")) 0 28 huge
      (memory_of-Holds_front (claim_length huge) (text "*")) (omega arith) (omega arith)
      (omega arith) (omega arith)

abbrev inline_request : Bytes
inline_request = text "SET  key value" ++ (crlf ++ text "PI")

parse_inline_request-first_line_example :
    view (memory_of inline_request) (parse_inline_request (memory_of inline_request) 0 18)
    ≡ ok (3, text "SET" ∷ text "key" ∷ text "value" ∷ [], 16)
parse_inline_request-first_line_example =
    parse_inline_request-first_line (memory_of inline_request) 0 18 (omega arith)
