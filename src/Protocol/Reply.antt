-- ===== src/Protocol/Reply.antt =====
-- The `write_…` functions of src/include/protocol.c. Each puts bytes behind the
-- `send_buf_size` bytes that `send_buf` holds: the buffer is the list of those bytes, and a
-- function here returns the bytes that it adds. What `sprintf` writes behind them, its NUL, is
-- overwritten by the next reply and never sent.
use ghetto_redis.Prelude.{ℕ, [], ◌∷◌, ◌++◌, length, take, ◌==◌, if◌then◌else◌}
use ghetto_redis.Prelude.Words.{Bytes}
use ghetto_redis.Prelude.Decimal.{decimal}
use ghetto_redis.Prelude.Int64.{decimal_int64}
use ghetto_redis.Prelude.Text.{text}

abbrev pub crlf : Bytes
crlf = b'\r' ∷ b'\n' ∷ []

-- What `%s` prints of the bytes at a pointer: those before the first NUL.
abbrev pub c_string : Bytes → Bytes
c_string [] = []
c_string (b ∷ bs) = if b == 0 then [] else b ∷ c_string bs

-- `%.*s` prints `len` bytes at most.
abbrev pub c_string_n : ℕ → Bytes → Bytes
c_string_n len bs = c_string (take len bs)

-- What `snprintf` leaves in a buffer of `n + 1` bytes.
abbrev pub snprintf : ℕ → Bytes → Bytes
snprintf n bs = take n bs

unfoldable pub write_simple_error : (prefix msg : Bytes) → Bytes
write_simple_error prefix msg = b'-' ∷ (c_string prefix ++ (b' ' ∷ (c_string msg ++ crlf)))

unfoldable pub write_simple_generic_error : (msg : Bytes) → Bytes
unfolding write_simple_error
write_simple_generic_error msg = write_simple_error (text "ERR") msg

unfoldable pub write_simple_string : (msg : Bytes) (len : ℕ) → Bytes
write_simple_string msg len = b'+' ∷ (c_string_n len msg ++ crlf)

unfoldable pub write_bulk_string : Bytes → Bytes
write_bulk_string bytes = (b'$' ∷ decimal (length bytes)) ++ (crlf ++ (bytes ++ crlf))

unfoldable pub write_null_bulk_string : Bytes
write_null_bulk_string = text "$-1" ++ crlf

unfoldable pub write_integer : ℕ → Bytes
write_integer val = b':' ∷ (decimal_int64 val ++ crlf)

unfoldable pub write_array_header : ℕ → Bytes
write_array_header len = (b'*' ∷ decimal len) ++ crlf
