-- ===== src/Deque/Move.antt =====
-- Moving a node to either end of a deque.
use ghetto_redis.Prelude.{
  ℕ, ◌≡◌, refl, sym, ◌∙◌, ◌==◌, true, false, List, [], ◌∷◌, ◌++◌, All-append, arith,
}
use mathlib.Core.Path.{ap₂, subst}
use mathlib.Core.List.{append-nil}
use ghetto_redis.Deque.{
  Store, deque_is_empty, deque_detach, deque_push_front_node, deque_push_back_node,
  deque_move_to_back, deque_move_to_front,
}
use ghetto_redis.Deque.Ring.{
  Fresh, last_of-Fresh, last_of-append, Linked-last, Represents, values, Lists,
}
use ghetto_redis.Deque.Push.{
  push_front_node-Represents, push_back_node-Represents, push_front_node-data, push_back_node-data,
}
use ghetto_redis.Deque.Detach.{
  not_null, not_empty, new, fresh_behind, deque_detach-Represents, detach-data,
}

Lists-same : (s t : Store) (xs items : List ℕ) → s ≡ t → Lists t xs items → Lists s xs items
Lists-same s t xs items e r = subst (λ t. Lists t xs items) (sym e) r

values-all :
    (s s' : Store)
    → ((i : ℕ) → (s'.nodes i).«data» ≡ (s.nodes i).«data»)
    → (xs : List ℕ) → values s' xs ≡ values s xs
values-all s s' keep [] = refl
values-all s s' keep (x ∷ xs) = ap₂ ◌∷◌ (keep x) (values-all s s' keep xs)

module _ (s : Store) (n : ℕ) where
  -- The guards pass on a node of the deque.
  module _ (front back : List ℕ) (r : Represents s (front ++ n ∷ back)) where
    move_to_back-moves :
        (n == s.deque.tail) ≡ false
        → deque_move_to_back n s ≡ deque_push_back_node n (deque_detach n s)
    unfolding deque_move_to_back deque_is_empty
    move_to_back-moves e = rw (not_empty s n front back r, not_null s n front back r, e) refl

    move_to_front-moves :
        (n == s.deque.head) ≡ false
        → deque_move_to_front n s ≡ deque_push_front_node n (deque_detach n s)
    unfolding deque_move_to_front deque_is_empty
    move_to_front-moves e = rw (not_empty s n front back r, not_null s n front back r, e) refl

    fresh_detached : Fresh n (0 ∷ front ++ back)
    fresh_detached =
        All-append _ (0 ∷ front) back (new s n front back r) (fresh_behind s n front back r)

    pushed_back :
        Lists
          (deque_push_back_node n (deque_detach n s))
          ((front ++ back) ++ n ∷ [])
          (values s ((front ++ back) ++ n ∷ []))
    pushed_back = (
      push_back_node-Represents (deque_detach n s) n (front ++ back)
          (deque_detach-Represents s n front back r) fresh_detached,
      values-all s (deque_push_back_node n (deque_detach n s))
          (λ i. push_back_node-data (deque_detach n s) n i ∙ detach-data s n front back r i)
          ((front ++ back) ++ n ∷ []),
    )

    pushed_front :
        Lists
          (deque_push_front_node n (deque_detach n s))
          (n ∷ front ++ back)
          (values s (n ∷ front ++ back))
    pushed_front = (
      push_front_node-Represents (deque_detach n s) n (front ++ back)
          (deque_detach-Represents s n front back r) fresh_detached,
      values-all s (deque_push_front_node n (deque_detach n s))
          (λ i. push_front_node-data (deque_detach n s) n i ∙ detach-data s n front back r i)
          (n ∷ front ++ back),
    )

  move_to_back-stays : (n == s.deque.tail) ≡ true → deque_move_to_back n s ≡ s
  unfolding deque_move_to_back
  move_to_back-stays e = ground arith

  move_to_front-stays : (n == s.deque.head) ≡ true → deque_move_to_front n s ≡ s
  unfolding deque_move_to_front
  move_to_front-stays e = ground arith

  deque_move_to_back-Lists :
      (front back : List ℕ)
      → Represents s (front ++ n ∷ back)
      → Lists
          (deque_move_to_back n s)
          ((front ++ back) ++ n ∷ [])
          (values s ((front ++ back) ++ n ∷ []))
  deque_move_to_back-Lists front [] r =
      let tail = Linked-last _ _ 0 (front ++ n ∷ []) 0 r.links ∙ last_of-append 0 front n [] in
      let stays = move_to_back-stays (ground (arith, tail)) in
      rw (append-nil front)
        (Lists-same _ s (front ++ n ∷ []) (values s (front ++ n ∷ [])) stays (r, refl))
  deque_move_to_back-Lists front (y ∷ ys) r =
      let tail =
        Linked-last _ _ 0 (front ++ n ∷ y ∷ ys) 0 r.links ∙ last_of-append 0 front n (y ∷ ys) in
      let apart = last_of-Fresh n y ys (fresh_behind s n front (y ∷ ys) r) in
      Lists-same _ _ _ _ (move_to_back-moves front (y ∷ ys) r (ground (arith, tail, apart)))
        (pushed_back front (y ∷ ys) r)

  deque_move_to_front-Lists :
      (front back : List ℕ)
      → Represents s (front ++ n ∷ back)
      → Lists (deque_move_to_front n s) (n ∷ front ++ back) (values s (n ∷ front ++ back))
  deque_move_to_front-Lists [] back r =
      let head = r.links.0 in
      let stays = move_to_front-stays (ground (arith, head)) in
      Lists-same _ s (n ∷ back) (values s (n ∷ back)) stays (r, refl)
  deque_move_to_front-Lists (x ∷ xs) back r =
      let head = r.links.0 in
      let apart = (new s n (x ∷ xs) back r).1.0 in
      Lists-same _ _ _ _ (move_to_front-moves (x ∷ xs) back r (ground (arith, head, apart)))
        (pushed_front (x ∷ xs) back r)

  -- Moving a node of a deque puts it behind the other nodes, or in front of them: these stay in
  -- their order, and every node keeps its datum.
  pub deque_move-Lists :
      (front back : List ℕ)
      → Represents s (front ++ n ∷ back)
      → Lists
          (deque_move_to_back n s)
          ((front ++ back) ++ n ∷ [])
          (values s ((front ++ back) ++ n ∷ []))
        × Lists (deque_move_to_front n s) (n ∷ front ++ back) (values s (n ∷ front ++ back))
  deque_move-Lists front back r =
      (deque_move_to_back-Lists front back r, deque_move_to_front-Lists front back r)
