-- ===== src/Deque/Pop.antt =====
-- Popping from either end of a deque.
use ghetto_redis.Prelude.{
  ℕ, zero, suc, ◌<◌, length, ◌≡◌, refl, ap, ◌∙◌, ◌==◌, ==_self, if◌then◌else◌, true, false, some,
  List, [], ◌∷◌, ◌++◌, arith,
}
use mathlib.Core.List.{append-nil}
use ghetto_redis.Deque.{
  DequeNode, Store, deque_is_empty, deque_pop_front, deque_pop_back, deque_destroy,
}
use ghetto_redis.Deque.Ring.{
  next_of, prev_of, Linked-last, Linked-split, last_of-append, Represents, values, values-same,
  Lists,
}
use ghetto_redis.Deque.Splice.{Linked-splice}
use ghetto_redis.Deque.Detach.{not_null, next_apart, prev_apart, not_empty, new, fresh_behind}

module _ (junk : DequeNode) (s : Store) (n : ℕ) where
  module _ (xs : List ℕ) (r : Represents s (n ∷ xs)) where
    pop_front-next :
        (i : ℕ)
        → (i == n) ≡ false
        → next_of (deque_pop_front junk s).1 i
          ≡ (if i == prev_of s n then next_of s n else next_of s i)
    unfolding deque_pop_front deque_is_empty
    pop_front-next i other = ground (
      arith,
      not_null s n [] xs r,
      next_apart s n [] xs r,
      not_empty s n [] xs r,
      r.links.0,
      r.links.1,
      other,
    )

    pop_front-prev :
        (i : ℕ)
        → (i == n) ≡ false
        → prev_of (deque_pop_front junk s).1 i
          ≡ (if i == next_of s n then prev_of s n else prev_of s i)
    unfolding deque_pop_front deque_is_empty
    pop_front-prev i other = ground (
      arith,
      not_null s n [] xs r,
      next_apart s n [] xs r,
      not_empty s n [] xs r,
      r.links.0,
      r.links.1,
      other,
    )

    -- Popping the front of a deque that is not empty returns the datum of its first node and leaves
    -- the other nodes with their data, whatever stands in the freed node.
    deque_pop_front-Lists :
        ((deque_pop_front junk s).0 ≡ some (s.nodes n).«data»)
        × Lists (deque_pop_front junk s).1 xs (values s xs)
    unfolding deque_pop_front deque_is_empty
    deque_pop_front-Lists =
        let s' = (deque_pop_front junk s).1 in
        let (links, distinct) =
          Linked-splice (next_of s) (prev_of s) (next_of s') (prev_of s') n [] xs r.links r.distinct
            (λ i p q. pop_front-next i q ∙ rw p refl) (λ i p q. pop_front-prev i q ∙ rw p refl)
            (pop_front-next (prev_of s n) (prev_apart s n [] xs r)
              ∙ rw (==_self (prev_of s n)) refl)
            (pop_front-prev (next_of s n) (next_apart s n [] xs r)
              ∙ rw (==_self (next_of s n)) refl) in
        (
          rw (not_empty s n [] xs r) (ap (λ i. some (s.nodes i).«data») r.links.0),
          (
            record { links = links; distinct = distinct },
            values-same s s' n (λ i p. ground (arith, r.links.0, p)) xs (fresh_behind s n [] xs r),
          ),
        )

  module _ (xs : List ℕ) (r : Represents s (xs ++ n ∷ [])) where
    last_is : s.deque.tail ≡ n
    last_is = Linked-last _ _ 0 (xs ++ n ∷ []) 0 r.links ∙ last_of-append 0 xs n []

    behind : next_of s n ≡ 0
    behind = (Linked-split (next_of s) (prev_of s) 0 xs n [] 0 r.links).1.0

    pop_back-next :
        (i : ℕ)
        → (i == n) ≡ false
        → next_of (deque_pop_back junk s).1 i
          ≡ (if i == prev_of s n then next_of s n else next_of s i)
    unfolding deque_pop_back deque_is_empty
    pop_back-next i other = ground (
      arith,
      not_null s n xs [] r,
      next_apart s n xs [] r,
      not_empty s n xs [] r,
      last_is,
      behind,
      other,
    )

    pop_back-prev :
        (i : ℕ)
        → (i == n) ≡ false
        → prev_of (deque_pop_back junk s).1 i
          ≡ (if i == next_of s n then prev_of s n else prev_of s i)
    unfolding deque_pop_back deque_is_empty
    pop_back-prev i other = ground (
      arith,
      not_null s n xs [] r,
      next_apart s n xs [] r,
      not_empty s n xs [] r,
      last_is,
      behind,
      other,
    )

    -- Popping the back of a deque that is not empty returns the datum of its last node and leaves
    -- the other nodes with their data, whatever stands in the freed node.
    deque_pop_back-Lists :
        ((deque_pop_back junk s).0 ≡ some (s.nodes n).«data»)
        × Lists (deque_pop_back junk s).1 xs (values s xs)
    unfolding deque_pop_back deque_is_empty
    deque_pop_back-Lists =
        let s' = (deque_pop_back junk s).1 in
        let (links, distinct) =
          Linked-splice (next_of s) (prev_of s) (next_of s') (prev_of s') n xs [] r.links r.distinct
            (λ i p q. pop_back-next i q ∙ rw p refl) (λ i p q. pop_back-prev i q ∙ rw p refl)
            (pop_back-next (prev_of s n) (prev_apart s n xs [] r) ∙ rw (==_self (prev_of s n)) refl)
            (pop_back-prev (next_of s n) (next_apart s n xs [] r)
              ∙ rw (==_self (next_of s n)) refl) in
        (
          rw (not_empty s n xs [] r) (ap (λ i. some (s.nodes i).«data») last_is),
          (
            record {
              links = rw (append-nil xs) at links;
              distinct = rw (append-nil xs) at distinct;
            },
            values-same s s' n (λ i p. ground (arith, last_is, p)) xs (new s n xs [] r).1,
          ),
        )

Represents-empty : (s : Store) → Represents s [] → deque_is_empty s ≡ true
unfolding deque_is_empty
Represents-empty s r = rw r.links.0 refl

Represents-full :
    (s : Store) (x : ℕ) (xs : List ℕ) → Represents s (x ∷ xs) → deque_is_empty s ≡ false
unfolding deque_is_empty
Represents-full s x xs r = not_empty s x [] xs r

-- `deque_destroy` terminates: with fuel for one round more than the deque has nodes, its loop ends,
-- and the deque is empty.
deque_destroy-Represents :
    (junk : DequeNode) (fuel : ℕ) (s : Store) (xs : List ℕ)
    → Represents s xs
    → length xs < fuel
    → (s' : Store) × (deque_destroy junk fuel s ≡ some s')
      × Represents s' []
      × (deque_is_empty s' ≡ true)
unfolding deque_destroy
deque_destroy-Represents junk zero s xs r enough = absurd (omega arith)
deque_destroy-Represents junk (suc fuel) s [] r enough =
    (s, rw (Represents-empty s r) refl, r, Represents-empty s r)
deque_destroy-Represents junk (suc fuel) s (x ∷ xs) r enough =
    let (_, (left, _)) = deque_pop_front-Lists junk s x xs r in
    let (s', ends, none_left, empty) =
      deque_destroy-Represents junk fuel (deque_pop_front junk s).1 xs left (omega arith) in
    (s', rw (Represents-full s x xs r) ends, none_left, empty)
