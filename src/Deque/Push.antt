-- ===== src/Deque/Push.antt =====
-- Pushing on either end of a deque.
use ghetto_redis.Prelude.{
  ℕ, ◌≡◌, refl, sym, ap, ◌∙◌, ◌==◌, ==_self, if◌then◌else◌, false, List, [], ◌∷◌, ◌++◌, arith,
}
use mathlib.Core.Path.{ap₂}
use mathlib.Core.List.{map-append}
use ghetto_redis.Deque.{
  Store, set_data, deque_push_front_node, deque_push_back_node, deque_push_front, deque_push_back,
}
use ghetto_redis.Deque.Ring.{
  next_of, prev_of, Linked, Fresh, Distinct, last_of, last_of-Fresh, first_of-Fresh, Distinct-snoc,
  Linked-last, Linked-first, Linked-append, Linked-same, Linked-end, Represents, values-same, Lists,
}

module _ (s : Store) (n : ℕ) (xs : List ℕ) (r : Represents s xs) (fresh : Fresh n (0 ∷ xs)) where
  last_is : last_of 0 xs ≡ s.deque.tail
  last_is = sym (Linked-last _ _ 0 xs 0 r.links)

  head_apart : (s.deque.head == n) ≡ false
  head_apart = rw (Linked-first _ _ 0 xs 0 r.links) (first_of-Fresh n 0 xs fresh.0 fresh.1)

  tail_apart : (s.deque.tail == n) ≡ false
  tail_apart = rw (← last_is) (last_of-Fresh n 0 xs fresh)

  push_front-next :
      (i : ℕ)
      → next_of (deque_push_front_node n s) i
        ≡ (if i == 0 then n else if i == n then s.deque.head else next_of s i)
  unfolding deque_push_front_node
  push_front-next i = let apart = fresh.0 in ground (arith, apart)

  push_front-prev :
      (i : ℕ)
      → prev_of (deque_push_front_node n s) i
        ≡ (if i == s.deque.head then n else if i == n then 0 else prev_of s i)
  unfolding deque_push_front_node
  push_front-prev i = let apart = fresh.0 in ground (arith, head_apart, apart)

  push_back-next :
      (i : ℕ)
      → next_of (deque_push_back_node n s) i
        ≡ (if i == s.deque.tail then n else if i == n then 0 else next_of s i)
  unfolding deque_push_back_node
  push_back-next i = let apart = fresh.0 in ground (arith, tail_apart, apart)

  push_back-prev :
      (i : ℕ)
      → prev_of (deque_push_back_node n s) i
        ≡ (if i == 0 then n else if i == n then s.deque.tail else prev_of s i)
  unfolding deque_push_back_node
  push_back-prev i = let apart = fresh.0 in ground (arith, apart)

  front_links :
      (ys : List ℕ)
      → Linked (next_of s) (prev_of s) 0 ys 0
      → Fresh n ys
      → Distinct (0 ∷ ys)
      → Linked (next_of (deque_push_front_node n s)) (prev_of (deque_push_front_node n s)) n ys 0
  front_links [] (first, back) f d =
      let apart = fresh.0 in
      (ground (arith, push_front-next n, first, apart), ground (arith, push_front-prev 0, first))
  front_links (y ∷ ys) (first, back, rest) f d =
      let apart = fresh.0 in
      let here = d.0.0 in
      (
        ground (arith, push_front-next n, first, apart),
        ground (arith, push_front-prev y, first),
        Linked-same (next_of s) (prev_of s) _ _ 0 n y (λ i p q. push_front-next i ∙ rw (p, q) refl)
            (λ i p q. ground (arith, push_front-prev i, first, p, q)) y ys 0 rest d.0 f d.1.0
            (ground (arith, here)) apart,
      )

  pub push_front_node-Represents : Represents (deque_push_front_node n s) (n ∷ xs)
  push_front_node-Represents =
      let apart = fresh.0 in
      record {
        links = (
          ground (arith, push_front-next 0),
          ground (arith, push_front-prev n, head_apart),
          front_links xs r.links fresh.1 r.distinct,
        );
        distinct = ((ground (arith, apart), r.distinct.0), (fresh.1, r.distinct.1));
      }

  pub push_back_node-Represents : Represents (deque_push_back_node n s) (xs ++ n ∷ [])
  push_back_node-Represents =
      let apart = fresh.0 in
      record {
        links =
            Linked-append _ _ 0 xs n [] 0
              (Linked-end (next_of s) (prev_of s) _ _ s.deque.tail n 0
                (λ i p q. push_back-next i ∙ rw (p, q) refl)
                (λ i p q. push_back-prev i ∙ rw (p, q) refl) 0 xs 0 n r.links last_is r.distinct
                fresh r.distinct.0 (push_back-next s.deque.tail ∙ rw (==_self s.deque.tail) refl)
                (ground (arith, push_back-prev n, apart)))
              (ground (arith, push_back-next n, tail_apart), ground (arith, push_back-prev 0));
        distinct = Distinct-snoc n (0 ∷ xs) r.distinct fresh;
      }

  set_data-Represents : (v : ℕ) → Represents (set_data n v s) xs
  set_data-Represents v =
      let apart = fresh.0 in
      record {
        links =
            Linked-same (next_of s) (prev_of s) _ _ n n n (λ i p q. rw q refl) (λ i p q. rw q refl)
              0 xs 0 r.links fresh fresh fresh.1 apart apart;
        distinct = r.distinct;
      }

module _ (s : Store) (node i : ℕ) where
  pub push_front_node-data : ((deque_push_front_node node s).nodes i).«data» ≡ (s.nodes i).«data»
  unfolding deque_push_front_node
  push_front_node-data = ground arith

  pub push_back_node-data : ((deque_push_back_node node s).nodes i).«data» ≡ (s.nodes i).«data»
  unfolding deque_push_back_node
  push_back_node-data = ground arith

-- Pushing a new node with `data` on either end of a deque puts the item in front of its items, or
-- behind them.
pub deque_push-Lists :
    (s : Store) (node «data» : ℕ) (xs items : List ℕ)
    → Lists s xs items
    → Fresh node (0 ∷ xs)
    → Lists (deque_push_front node «data» s) (node ∷ xs) («data» ∷ items)
      × Lists (deque_push_back node «data» s) (xs ++ node ∷ []) (items ++ «data» ∷ [])
unfolding deque_push_front deque_push_back
deque_push-Lists s node d xs items (r, same) fresh =
    let with_data = set_data node d s in
    let r' = set_data-Represents s node xs r fresh d in
    let front = push_front_node-data with_data node in
    let back = push_back_node-data with_data node in
    (
      (
        push_front_node-Represents with_data node xs r' fresh,
        ap₂ ◌∷◌ (front node ∙ rw (==_self node) refl) (
            values-same s (deque_push_front node d s) node (λ i p. front i ∙ rw p refl) xs fresh.1
            ∙ same),
      ),
      (
        push_back_node-Represents with_data node xs r' fresh,
        map-append _ xs (node ∷ [])
            ∙ ap₂ ◌++◌
                (values-same s (deque_push_back node d s) node (λ i p. back i ∙ rw p refl) xs
                    fresh.1
                  ∙ same)
                (ap (λ d. d ∷ []) (back node ∙ rw (==_self node) refl)),
      ),
    )
