-- ===== src/Protocol.antt =====
-- The wire protocol: the types of src/include/protocol.h. The children model
-- src/include/protocol.c: numbers, requests in either form, and replies.
pub mod Number
pub mod Resp
pub mod Inline
pub mod Reply
use ghetto_redis.Prelude.{ℕ, List, [], ◌≡◌, refl}

abbrev pub message_max_length : ℕ
message_max_length = 8192

abbrev pub max_argc : ℕ
max_argc = 64

-- The ways in which parsing stops short; PARSE_OK is `ok` of `Parsed`.
pub data ParseError : Type 0 where
  parse_error : ParseError
  parse_error_invalid_argc : ParseError
  parse_incomplete : ParseError

-- The returned `ParseError`, with what goes through the out parameters on PARSE_OK. What a failed
-- call leaves in them is read by no caller.
pub data Parsed {ℓ} (A : Type ℓ) : Type ℓ where
  ok : A → Parsed A
  err : ParseError → Parsed A

infixl 5 ◌>>=◌
abbrev pub ◌>>=◌ {ℓ κ} : {A : Type ℓ} {B : Type κ} → Parsed A → (A → Parsed B) → Parsed B
ok a >>= f = f a
err e >>= f = err e

-- What a successful chain went through.
pub bind-eq-ok {ℓ κ} :
    {A : Type ℓ} {B : Type κ} (m : Parsed A) (f : A → Parsed B) {b : B}
    → (m >>= f) ≡ ok b
    → (a : A) × (m ≡ ok a) × (f a ≡ ok b)
bind-eq-ok (ok a) f h = (a, refl, h)
bind-eq-ok (err e) f h = cc

-- `offsets` and `lens` hold the `argc` entries written so far, in order. `buf` is an address.
pub record CmdArgs : Type 0 where
  pub buf : ℕ
  pub argc : ℕ
  pub len : ℕ
  pub offsets : List ℕ
  pub lens : List ℕ

-- `CmdArgs args;` before anything is written: no entry is set yet.
abbrev pub no_args : CmdArgs
no_args = record { buf = 0; argc = 0; len = 0; offsets = []; lens = [] }
