-- ===== src/Reactor/Table.antt =====
-- The table of connections by their descriptors: `reactor_conn_emplace` of src/include/reactor.c,
-- `reactor_epoll_close` and the table's part of `reactor_init` of src/include/reactor_epoll.c.
pub mod Closing
use ghetto_redis.Prelude.{ℕ, zero, suc, ◌+◌, ◌-◌, ◌<◌, ◌≡◌, ◌==◌, ltb, leb, if◌then◌else◌, arith}
use ghetto_redis.Vector.{Vector, init_vector, resize_vector, set_cell}

-- `for (i = capacity; i < new_capacity; i++) conns->array[i] = NULL;` from `i` with `n` rounds left.
unfoldable pub null_loop : ℕ → (i : ℕ) → (ℕ → ℕ) → ℕ → ℕ
null_loop zero i array = array
null_loop (suc n) i array = null_loop n (i + 1) (set_cell array i 0)

-- The table that `reactor_init` makes.
unfoldable pub new_table : (fresh : ℕ → ℕ) → Vector
unfolding null_loop
new_table fresh =
    let conns = init_vector fresh 128 in record conns { array = null_loop conns.size 0 conns.array }

-- The vector with room for the descriptor.
unfoldable pub fit_table : (fresh : ℕ → ℕ) → Vector → (fd : ℕ) → Vector
unfolding resize_vector
fit_table fresh conns fd = if leb conns.size fd then resize_vector fresh conns (fd + 1) else conns

-- `conn` is the address of a connection with the descriptor `fd`.
unfoldable pub reactor_conn_emplace : (fresh : ℕ → ℕ) → Vector → (fd conn : ℕ) → Vector
unfolding fit_table null_loop
reactor_conn_emplace fresh conns fd conn =
    let fitted = fit_table fresh conns fd in
    let array = null_loop (fitted.size - conns.size) conns.size fitted.array in
    record fitted { array = set_cell array fd conn; used = fitted.size }

-- `reactor->conns->array[conn->fd] = NULL;` of `reactor_epoll_close`
abbrev pub forget_conn : Vector → (fd : ℕ) → Vector
forget_conn conns fd = record conns { array = set_cell conns.array fd 0 }

null_loop-value :
    (n i : ℕ) (array : ℕ → ℕ) (j : ℕ)
    → null_loop n i array j ≡ (if leb i j then (if ltb j (i + n) then 0 else array j) else array j)
unfolding null_loop
null_loop-value zero i array j = ground arith
null_loop-value (suc n) i array j = ground (arith, null_loop-value n (i + 1) (set_cell array i 0) j)

-- What is in the table, NULL standing for a descriptor behind its end.
abbrev pub lookup : Vector → ℕ → ℕ
lookup conns fd = if ltb fd conns.size then conns.array fd else 0

-- A new table is empty, whatever memory it was made of.
pub lookup-new_table : (fresh : ℕ → ℕ) (fd : ℕ) → lookup (new_table fresh) fd ≡ 0
unfolding new_table
lookup-new_table fresh fd = ground (arith, null_loop-value 128 0 fresh fd)

-- `reactor_conn_emplace` puts the connection in its place, which is then within the table, and
-- leaves every other descriptor as it was, whatever memory a larger table is made of.
pub lookup-reactor_conn_emplace :
    (fresh : ℕ → ℕ) (conns : Vector) (fd conn j : ℕ)
    → (fd < (reactor_conn_emplace fresh conns fd conn).size)
      × (lookup (reactor_conn_emplace fresh conns fd conn) j
          ≡ (if j == fd then conn else lookup conns j))
unfolding reactor_conn_emplace fit_table resize_vector
lookup-reactor_conn_emplace fresh conns fd conn j =
    let fitted = fit_table fresh conns fd in
    ground (arith, null_loop-value (fitted.size - conns.size) conns.size fitted.array j)
