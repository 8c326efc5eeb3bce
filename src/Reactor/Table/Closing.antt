-- ===== src/Reactor/Table/Closing.antt =====
-- The end of `reactor_run` of src/include/reactor_epoll.c: all connections are closed.
use ghetto_redis.Prelude.{
  ℕ, zero, suc, ◌+◌, ◌<◌, ◌≤◌, ◌≡◌, ◌≢◌, refl, sym, ◌∙◌, ap, ◌==◌, ltb, leb, if◌then◌else◌, List,
  [], ◌∷◌, ◌++◌, Bool-cases, inl, inr, arith,
}
use mathlib.Core.Path.{subst}
use mathlib.Core.List.{append-nil, append_assoc}
use ghetto_redis.Vector.{Vector}
use ghetto_redis.Reactor.Table.{forget_conn, lookup}

-- The loop from index `i` with `n` rounds left. `fd` gives the descriptor of the connection at an
-- address, and `closed` has the descriptors that `close` was called on.
unfoldable close_loop : ℕ → (i : ℕ) → (fd : ℕ → ℕ) → Vector → (closed : List ℕ) → Vector × List ℕ
close_loop zero i fd conns closed = (conns, closed)
close_loop (suc n) i fd conns closed =
    let conn = conns.array i in
    close_loop n (i + 1) fd (if conn == 0 then conns else forget_conn conns (fd conn))
      (if conn == 0 then closed else closed ++ (fd conn ∷ []))

pub close_conns : (fd : ℕ → ℕ) → Vector → Vector × List ℕ
unfolding close_loop
close_conns fd conns = close_loop conns.size 0 fd conns []

-- The descriptors from `i` that have a connection, among `n`.
abbrev pub connected : ℕ → (i : ℕ) → (ℕ → ℕ) → List ℕ
connected zero i array = []
connected (suc n) i array =
    let rest = connected n (i + 1) array in if array i == 0 then rest else i ∷ rest

connected-same :
    (n i : ℕ) (f g : ℕ → ℕ) → ((j : ℕ) → i ≤ j → f j ≡ g j) → connected n i f ≡ connected n i g
connected-same zero i f g same = refl
connected-same (suc n) i f g same =
    rw (connected-same n (i + 1) f g (λ j from. same j (omega arith)), same i (omega arith)) refl

-- What the loop has done to the table `conns` with its `n` rounds from `i`.
abbrev Closed : (n i : ℕ) → Vector → List ℕ → Vector × List ℕ → Type 0
Closed n i conns closed (after, log) =
    ((j : ℕ)
      → after.array j
        ≡ (if leb i j then (if ltb j (i + n) then 0 else conns.array j) else conns.array j))
    × (after.size ≡ conns.size)
    × (log ≡ closed ++ connected n i conns.array)

-- Each connection that the rounds meet has its index for a descriptor.
close_loop-Closed :
    (n i : ℕ) (fd : ℕ → ℕ) (conns : Vector) (closed : List ℕ)
    → ((j : ℕ) → i ≤ j → j < i + n → conns.array j ≢ 0 → fd (conns.array j) ≡ j)
    → Closed n i conns closed (close_loop n i fd conns closed)
unfolding close_loop
close_loop-Closed zero i fd conns closed known = (λ j. ground arith, refl, sym (append-nil closed))
close_loop-Closed (suc n) i fd conns closed known = elim (Bool-cases (conns.array i == 0)) [
  | inl null ↦
      let (cells, size, log) =
        close_loop-Closed n (i + 1) fd conns closed
          (λ j from to. known j (omega arith) (omega arith)) in
      let step : close_loop n (i + 1) fd conns closed ≡ close_loop (suc n) i fd conns closed =
        rw null refl in
      let listed : connected (suc n) i conns.array ≡ connected n (i + 1) conns.array =
        rw null refl in
      subst (λ p. Closed (suc n) i conns closed p) step
        (λ j. ground (arith, cells j, null), size, rw listed log)
  | inr filled ↦
      let own : fd (conns.array i) ≡ i =
        known i (omega arith) (omega arith) (ground (arith, filled)) in
      let next = forget_conn conns i in
      let (cells, size, log) =
        close_loop-Closed n (i + 1) fd next (closed ++ (i ∷ []))
          (λ j from to. ground (arith, known j)) in
      let step : close_loop n (i + 1) fd next (closed ++ (i ∷ []))
          ≡ close_loop (suc n) i fd conns closed =
        rw (filled, own) refl in
      let same : connected n (i + 1) next.array ≡ connected n (i + 1) conns.array =
        connected-same n (i + 1) next.array conns.array (λ j from. ground arith) in
      let listed : connected (suc n) i conns.array ≡ i ∷ connected n (i + 1) conns.array =
        rw filled refl in
      subst (λ p. Closed (suc n) i conns closed p) step
        (
          λ j. ground (arith, cells j),
          size,
          rw listed (log ∙ append_assoc closed (i ∷ []) _ ∙ ap (λ xs. closed ++ (i ∷ xs)) same),
        )
]

-- When the loop of a reactor ends, and every connection in the table stands at its descriptor: `close`
-- is called once on the descriptor of each connection, in ascending order, on no other, and the
-- table is empty.
pub close_conns-connected :
    (fd : ℕ → ℕ) (conns : Vector)
    → ((j : ℕ) → j < conns.size → conns.array j ≢ 0 → fd (conns.array j) ≡ j)
    → ((close_conns fd conns).1 ≡ connected conns.size 0 conns.array)
      × ((j : ℕ) → lookup (close_conns fd conns).0 j ≡ 0)
unfolding close_conns
close_conns-connected fd conns known =
    let (cells, size, log) =
      close_loop-Closed conns.size 0 fd conns [] (λ j from to. known j (omega arith)) in
    (log, λ j. ground (arith, cells j, size))
