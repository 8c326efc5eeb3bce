-- ===== src/Protocol/Resp/Layout.antt =====
-- Where the parts of a request stand in memory that holds what the reply writers wrote.
use ghetto_redis.Prelude.{ℕ, ◌+◌, List, [], ◌∷◌, ◌++◌, ◌≡◌, arith, length, length-append}
use mathlib.Core.List.{append_assoc}
use ghetto_redis.Prelude.Words.{Memory, Bytes, add_size, Holds, Holds-append, slice}
use ghetto_redis.Prelude.Decimal.{decimal}
use ghetto_redis.Protocol.{CmdArgs}
use ghetto_redis.Protocol.Reply.{write_bulk_string, write_array_header, crlf}

-- A client's request: the header and a bulk string for each argument.
abbrev pub bulk_strings : List Bytes → Bytes
bulk_strings [] = []
bulk_strings (a ∷ more) = write_bulk_string a ++ bulk_strings more

abbrev pub request : List Bytes → Bytes
request args = write_array_header (length args) ++ bulk_strings args

-- The arguments that a request's offsets and lengths point at.
abbrev pub arguments_at : Memory → ℕ → List ℕ → List ℕ → List Bytes
arguments_at mem buf [] ls = []
arguments_at mem buf (o ∷ os) [] = []
arguments_at mem buf (o ∷ os) (l ∷ ls) = slice mem (add_size buf o) l ∷ arguments_at mem buf os ls

abbrev pub arguments : Memory → CmdArgs → List Bytes
arguments mem args = arguments_at mem args.buf args.offsets args.lens

-- The length of the `$<length>CRLF` in front of an argument.
abbrev pub prefix : Bytes → ℕ
prefix a = length (decimal (length a)) + 3

pub length-bulk : (a : Bytes) → length (write_bulk_string a) ≡ prefix a + length a + 2
unfolding write_bulk_string
length-bulk a =
    omega (
      arith,
      length-append {0} (decimal (length a)) (crlf ++ (a ++ crlf)),
      length-append {0} a crlf,
    )

-- Where the parts of a number with its CRLF stand.
pub number-Holds :
    (mem : Memory) (p mark : ℕ) (ds rest : Bytes)
    → Holds mem p ((mark ∷ ds) ++ (crlf ++ rest))
    → (mem p ≡ mark)
      × Holds mem (p + 1) ds
      × (mem (p + 1 + length ds) ≡ b'\r')
      × Holds mem (p + (length ds + 3)) rest
number-Holds mem p mark ds rest h =
    let (front, back) = Holds-append mem (p + 1) ds (crlf ++ rest) h.1 in
    let e : p + (length ds + 3) ≡ p + 1 + length ds + 1 + 1 = omega arith in
    (h.0, front, back.0, rw e back.1.1)

module _ (mem : Memory) (p : ℕ) where
  -- Where the parts of a bulk string stand.
  pub bulk-Holds :
      (a : Bytes)
      → Holds mem p (write_bulk_string a)
      → (mem p ≡ b'$')
        × Holds mem (p + 1) (decimal (length a))
        × (mem (p + 1 + length (decimal (length a))) ≡ b'\r')
        × Holds mem (p + prefix a) a
  unfolding write_bulk_string
  bulk-Holds a held =
      let (mark, digits, cr, body) =
        number-Holds mem p b'$' (decimal (length a)) (a ++ crlf) held in
      (mark, digits, cr, (Holds-append mem (p + prefix a) a crlf body).0)

pub header-Holds :
    (mem : Memory) (p n : ℕ) (rest : Bytes)
    → Holds mem p (write_array_header n ++ rest)
    → Holds mem (p + 1) (decimal n)
      × (mem (p + 1 + length (decimal n)) ≡ b'\r')
      × Holds mem (p + (length (decimal n) + 3)) rest
unfolding write_array_header
header-Holds mem p n rest held =
    let (_, digits, cr, body) =
      number-Holds mem p b'*' (decimal n) rest (rw append_assoc at held) in
    (digits, cr, body)

pub length-header : (n : ℕ) → length (write_array_header n) ≡ length (decimal n) + 3
unfolding write_array_header
length-header n = omega (arith, length-append {0} (decimal n) crlf)
