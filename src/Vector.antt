-- ===== src/Vector.antt =====
-- Growing arrays of pointers: VECTOR_TYPE_PTR of src/include/vector.h. `panic` and the failure of
-- an allocation are left out. What `realloc` leaves in new cells is unknown: `fresh` stands for it.
pub mod Items
use ghetto_redis.Prelude.{
  ℕ, zero, suc, ◌+◌, ◌-◌, ◌*◌, ◌%◌, ◌^◌, ◌==◌, ltb, if◌then◌else◌, Bool, true, false, Option, none,
  some,
}

pub record Vector : Type 0 where
  pub array : ℕ → ℕ
  pub used : ℕ
  pub size : ℕ

abbrev pub init_vector : (fresh : ℕ → ℕ) (initial_size : ℕ) → Vector
init_vector fresh initial_size = record { array = fresh; used = 0; size = initial_size }

-- The cells after `realloc`, `size` being the old size.
abbrev pub realloc : (fresh : ℕ → ℕ) → (array : ℕ → ℕ) → (size : ℕ) → ℕ → ℕ
realloc fresh array size i = if ltb i size then array i else fresh i

unfoldable pub resize_vector : (fresh : ℕ → ℕ) → Vector → (new_size : ℕ) → Vector
resize_vector fresh a new_size = record a { array = realloc fresh a.array a.size; size = new_size }

abbrev pub set_cell : (ℕ → ℕ) → ℕ → ℕ → ℕ → ℕ
set_cell array i v j = if j == i then v else array j

-- The array with twice the size where it is full, as a `size_t`.
unfoldable pub grow : (fresh : ℕ → ℕ) → Vector → Vector
grow fresh a =
    if a.used == a.size
    then record a { array = realloc fresh a.array a.size; size = a.size * 2 % 2 ^ 64 }
    else a

-- `a->array[a->used++] = element;` where `none` is a write behind the array.
unfoldable pub put_element : Vector → (element : ℕ) → Option Vector
put_element a element =
    if ltb a.used a.size
    then some (record a { array = set_cell a.array a.used element; used = a.used + 1 })
    else none

unfoldable pub insert_vector : (fresh : ℕ → ℕ) → Vector → (element : ℕ) → Option Vector
unfolding grow put_element
insert_vector fresh a element = put_element (grow fresh a) element

-- The inner loop of `remove_vector` from `j` with `n` rounds left.
unfoldable pub shift_loop : ℕ → (j : ℕ) → (ℕ → ℕ) → ℕ → ℕ
shift_loop zero j array = array
shift_loop (suc n) j array = shift_loop n (j + 1) (set_cell array j (array (j + 1)))

-- The outer loop from `i` with `n` rounds left.
unfoldable pub remove_loop : (pred : ℕ → ℕ → Bool) → ℕ → (i element : ℕ) → Vector → Vector
unfolding shift_loop
remove_loop pred zero i element a = a
remove_loop pred (suc n) i element a =
    let rest = remove_loop pred n (i + 1) element a in
    if pred (a.array i) element
    then record a { array = shift_loop (a.used - 1 - i) i a.array; used = a.used - 1 }
    else rest

unfoldable pub remove_vector : (pred : ℕ → ℕ → Bool) → (element : ℕ) → Vector → Vector
unfolding remove_loop
remove_vector pred element a = remove_loop pred a.used 0 element a

abbrev pub clear_vector : Vector → Vector
clear_vector a = record a { used = 0 }
