-- ===== src/Vector/Items.antt =====
-- A vector as the list of its elements.
use ghetto_redis.Prelude.{
  ℕ, zero, suc, ◌+◌, ◌-◌, ◌*◌, ◌%◌, ◌^◌, ◌≤◌, ◌<◌, ◌≡◌, refl, ap, ◌∙◌, ◌==◌, ltb-true, ==_self,
  if◌then◌else◌, List, [], ◌∷◌, ◌++◌, Bool, true, false, some, arith,
}
use mathlib.Core.Path.{ap₂}
use mathlib.Core.List.{append_assoc, append-nil}
use native.Mathlib.Nat.{zero-add}
use ghetto_redis.Prelude.Words.{slice, slice_shift, slice-append}
use ghetto_redis.Vector.{
  Vector, realloc, set_cell, grow, put_element, insert_vector, shift_loop, remove_loop,
  remove_vector,
}

abbrev pub items : Vector → List ℕ
items a = slice a.array 0 a.used

-- Slices at the same place of arrays that agree there.
slice-agree :
    (f g : ℕ → ℕ) (p n : ℕ) → ((i : ℕ) → p ≤ i → i < p + n → f i ≡ g i) → slice f p n ≡ slice g p n
slice-agree f g p n same = slice_shift f g p p n (λ i to. same (p + i) (omega arith) (omega arith))

slice-snoc : (f : ℕ → ℕ) (p n : ℕ) → slice f p (n + 1) ≡ slice f p n ++ f (p + n) ∷ []
slice-snoc f p zero = let e : p + 0 ≡ p = omega arith in rw e
slice-snoc f p (suc n) =
    let e : suc n + 1 ≡ suc (n + 1) = omega arith in
    let e' : p + suc n ≡ p + 1 + n = omega arith in
    rw (e, e') (ap (◌∷◌ (f p)) (slice-snoc f (p + 1) n))

module _ (fresh : ℕ → ℕ) (a : Vector) (bounded : a.used ≤ a.size) where
  grow-items : items (grow fresh a) ≡ items a
  unfolding grow
  grow-items = by_full (a.used == a.size) refl
    where
      by_full :
          (full : Bool)
          → (a.used == a.size) ≡ full
          → items (
              if full
              then record a { array = realloc fresh a.array a.size; size = a.size * 2 % 2 ^ 64 }
              else a)
            ≡ items a
      by_full true e =
          slice-agree (realloc fresh a.array a.size) a.array 0 a.used (λ i from to. ground arith)
      by_full false e = refl

  grow-room : 0 < a.size → a.size < 2 ^ 60 → (grow fresh a).used < (grow fresh a).size
  unfolding grow
  grow-room positive small = ground arith

  grow-size :
      a.size < 2 ^ 60 → (grow fresh a).size ≡ (if a.used == a.size then a.size * 2 else a.size)
  unfolding grow
  grow-size small = ground arith

  grow-used : (grow fresh a).used ≡ a.used
  unfolding grow
  grow-used = ground arith

put_element-items :
    (g : Vector) (element : ℕ)
    → g.used < g.size
    → (a' : Vector) × (put_element g element ≡ some a')
      × (items a' ≡ items g ++ element ∷ [])
      × (a'.used ≡ g.used + 1)
      × (a'.size ≡ g.size)
      × (a'.used ≤ a'.size)
unfolding put_element
put_element-items g element room =
    let array = set_cell g.array g.used element in
    let a' : Vector = record g { array = array; used = g.used + 1 } in
    let before = slice-agree array g.array 0 g.used (λ i from to. ground arith) in
    (
      a',
      rw (ltb-true g.used g.size room),
      slice-snoc array 0 g.used ∙ rw (before, zero-add, ==_self g.used),
      refl,
      refl,
      omega arith,
    )

-- Where the elements fit the array, it has a cell at all and its size is below 2^60, so that neither
-- the doubled size nor its number of bytes wraps around: `insert_vector` stays within the array, whose
-- size it doubles where it is full and keeps otherwise, and puts the element behind the others.
pub insert_vector-items :
    (fresh : ℕ → ℕ) (a : Vector) (element : ℕ)
    → a.used ≤ a.size
    → 0 < a.size
    → a.size < 2 ^ 60
    → (a' : Vector) × (insert_vector fresh a element ≡ some a')
      × (items a' ≡ items a ++ element ∷ [])
      × (a'.used ≡ a.used + 1)
      × (a'.used ≤ a'.size)
      × (a'.size ≡ (if a.used == a.size then a.size * 2 else a.size))
unfolding insert_vector
insert_vector-items fresh a element bounded positive small =
    let (a', puts, after, used, size, fits) =
      put_element-items (grow fresh a) element (grow-room fresh a bounded positive small) in
    (
      a',
      puts,
      after ∙ ap (λ xs. xs ++ element ∷ []) (grow-items fresh a bounded),
      used ∙ rw (grow-used fresh a bounded) refl,
      fits,
      size ∙ grow-size fresh a bounded small,
    )

-- The list without the first element that `pred` accepts.
abbrev pub remove_first : (ℕ → Bool) → List ℕ → List ℕ
remove_first test [] = []
remove_first test (x ∷ xs) = let rest = remove_first test xs in if test x then xs else x ∷ rest

shift_loop-below : (n j : ℕ) (array : ℕ → ℕ) (i : ℕ) → i < j → shift_loop n j array i ≡ array i
unfolding shift_loop
shift_loop-below zero j array i below = refl
shift_loop-below (suc n) j array i below =
    shift_loop-below n (j + 1) _ i (omega arith) ∙ ground arith

shift_loop-slice :
    (n j : ℕ) (array : ℕ → ℕ) → slice (shift_loop n j array) j n ≡ slice array (j + 1) n
unfolding shift_loop
shift_loop-slice zero j array = refl
shift_loop-slice (suc n) j array =
    let next = set_cell array j (array (j + 1)) in
    let head : shift_loop n (j + 1) next j ≡ array (j + 1) =
      shift_loop-below n (j + 1) next j (omega arith) ∙ rw (==_self j) in
    let tail : slice (shift_loop n (j + 1) next) (j + 1) n ≡ slice array (j + 1 + 1) n =
      shift_loop-slice n (j + 1) next
      ∙ slice-agree next array (j + 1 + 1) n (λ i from to. ground arith) in
    ap₂ ◌∷◌ head tail

remove_loop-items :
    (pred : ℕ → ℕ → Bool) (n i element : ℕ) (a : Vector)
    → i + n ≡ a.used
    → items (remove_loop pred n i element a)
      ≡ slice a.array 0 i ++ remove_first (λ x. pred x element) (slice a.array i n)
unfolding remove_loop
remove_loop-items pred zero i element a e =
    let all : a.used ≡ i = omega arith in rw (all, append-nil)
remove_loop-items pred (suc n) i element a e = by_test (pred (a.array i) element) (
    remove_loop-items pred n (i + 1) element a (omega arith)
    ∙ rw (slice-snoc a.array 0 i, zero-add) (append_assoc (slice a.array 0 i) (a.array i ∷ []) _))
  where
    by_test :
        (found : Bool)
        → items (remove_loop pred n (i + 1) element a)
          ≡ slice a.array 0 i
            ++ a.array i ∷ remove_first (λ x. pred x element) (slice a.array (i + 1) n)
        → items (
            if found
            then record a { array = shift_loop (a.used - 1 - i) i a.array; used = a.used - 1 }
            else remove_loop pred n (i + 1) element a)
          ≡ slice a.array 0 i
            ++ (if found
                then slice a.array (i + 1) n
                else a.array i ∷ remove_first (λ x. pred x element) (slice a.array (i + 1) n))
    by_test true rest =
        let count : a.used - 1 - i ≡ n = omega arith in
        let all : a.used - 1 ≡ i + n = omega arith in
        rw
          (
            count,
            all,
            slice-append (shift_loop n i a.array) 0 i n,
            zero-add,
            shift_loop-slice n i a.array,
          )
          (ap (λ xs. xs ++ slice a.array (i + 1) n)
            (slice-agree (shift_loop n i a.array) a.array 0 i
              (λ k from to. shift_loop-below n i a.array k (omega arith))))
    by_test false rest = rest

-- `remove_vector` takes out the first element that `pred` accepts, and keeps the others in order.
remove_vector-items :
    (pred : ℕ → ℕ → Bool) (element : ℕ) (a : Vector)
    → items (remove_vector pred element a) ≡ remove_first (λ x. pred x element) (items a)
unfolding remove_vector
remove_vector-items pred element a = remove_loop-items pred a.used 0 element a (omega arith)
