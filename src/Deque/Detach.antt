-- ===== src/Deque/Detach.antt =====
-- Taking a node out of a deque: `deque_detach`.
use ghetto_redis.Prelude.{
  ℕ, ◌≡◌, refl, ◌∙◌, ◌==◌, ==_self, if◌then◌else◌, false, List, [], ◌∷◌, ◌++◌, arith,
}
use ghetto_redis.Deque.{Store, deque_is_empty, deque_detach}
use ghetto_redis.Deque.Ring.{
  next_of, prev_of, Fresh, first_of, last_of-Fresh, first_of-Fresh, Linked-last, Linked-first,
  Linked-split, Represents,
}
use ghetto_redis.Deque.Splice.{Distinct-split, Apart-heads, Linked-splice}

module _ (s : Store) (n : ℕ) (front back : List ℕ) (r : Represents s (front ++ n ∷ back)) where
  pub new : Fresh n (0 ∷ front)
  new =
      let (_, _, apart) = Distinct-split (0 ∷ front) (n ∷ back) r.distinct in
      (Apart-heads (0 ∷ front) n back apart).0

  pub fresh_behind : Fresh n back
  fresh_behind = (Distinct-split (0 ∷ front) (n ∷ back) r.distinct).1.0

  pub not_null : (n == 0) ≡ false
  not_null = let apart = new.0 in ground (arith, apart)

  -- The neighbours are other nodes, and the deque is not empty.
  pub prev_apart : (prev_of s n == n) ≡ false
  prev_apart =
      let (before, _) = Linked-split (next_of s) (prev_of s) 0 front n back 0 r.links in
      rw (Linked-last _ _ 0 front n before) (last_of-Fresh n 0 front new)

  pub next_apart : (next_of s n == n) ≡ false
  next_apart =
      let (_, behind) = Linked-split (next_of s) (prev_of s) 0 front n back 0 r.links in
      rw (Linked-first _ _ n back 0 behind) (first_of-Fresh n 0 back new.0 fresh_behind)

  pub not_empty : (s.deque.head == 0) ≡ false
  not_empty =
      rw (Linked-first _ _ 0 (front ++ n ∷ back) 0 r.links) (first_not_null front r.distinct.0)
    where
      first_not_null :
          (xs : List ℕ) → Fresh 0 (xs ++ n ∷ back) → (first_of (xs ++ n ∷ back) 0 == 0) ≡ false
      first_not_null [] fresh = fresh.0
      first_not_null (x ∷ xs) fresh = fresh.0

  detach-next :
      (i : ℕ)
      → next_of (deque_detach n s) i ≡ (if i == prev_of s n then next_of s n else next_of s i)
  unfolding deque_detach deque_is_empty
  detach-next i = ground (arith, not_null, prev_apart, next_apart, not_empty)

  detach-prev :
      (i : ℕ)
      → prev_of (deque_detach n s) i ≡ (if i == next_of s n then prev_of s n else prev_of s i)
  unfolding deque_detach deque_is_empty
  detach-prev i = ground (arith, not_null, prev_apart, next_apart, not_empty)

  pub deque_detach-Represents : Represents (deque_detach n s) (front ++ back)
  deque_detach-Represents =
      let (links, distinct) =
        Linked-splice (next_of s) (prev_of s) (next_of (deque_detach n s))
          (prev_of (deque_detach n s)) n front back r.links r.distinct
          (λ i p q. detach-next i ∙ rw p refl) (λ i p q. detach-prev i ∙ rw p refl)
          (detach-next (prev_of s n) ∙ rw (==_self (prev_of s n)) refl)
          (detach-prev (next_of s n) ∙ rw (==_self (next_of s n)) refl) in
      record { links = links; distinct = distinct }

  pub detach-data : (i : ℕ) → ((deque_detach n s).nodes i).«data» ≡ (s.nodes i).«data»
  unfolding deque_detach deque_is_empty
  detach-data i = ground arith
