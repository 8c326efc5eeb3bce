-- ===== src/Examples/Deques.antt =====
-- The theorems on deques at a deque of three nodes.
use ghetto_redis.Prelude.{ℕ, refl, ◌==◌, if◌then◌else◌, [], ◌∷◌}
use ghetto_redis.Deque.{
  DequeNode, Store, deque_push_front, deque_push_back, deque_move_to_back, deque_move_to_front,
}
use ghetto_redis.Deque.Ring.{Represents, Lists}
use ghetto_redis.Deque.Push.{deque_push-Lists}
use ghetto_redis.Deque.Move.{deque_move-Lists}

abbrev node_of : (d prev next : ℕ) → DequeNode
node_of d prev next = record { «data» = d; prev = prev; next = next }

-- 30, 50 and 80 in the nodes at 3, 5 and 8.
abbrev three : Store
three = record {
  nodes = λ i. if i == 3 then node_of 30 0 5 else if i == 5 then node_of 50 3 8 else node_of 80 5 0;
  deque = record { head = 3; tail = 8 };
}

three-Represents : Represents three (3 ∷ 5 ∷ 8 ∷ [])
three-Represents = record {
  links = (refl, refl, (refl, refl, (refl, refl, (refl, refl))));
  distinct = ((refl, (refl, (refl, tt))), ((refl, (refl, tt)), ((refl, tt), (tt, tt))));
}

abbrev junk : DequeNode
junk = node_of 1 2 3

deque_push-Lists_example :
    Lists (deque_push_front 9 70 three) (9 ∷ 3 ∷ 5 ∷ 8 ∷ []) (70 ∷ 30 ∷ 50 ∷ 80 ∷ [])
    × Lists (deque_push_back 9 70 three) (3 ∷ 5 ∷ 8 ∷ 9 ∷ []) (30 ∷ 50 ∷ 80 ∷ 70 ∷ [])
deque_push-Lists_example =
    deque_push-Lists three 9 70 (3 ∷ 5 ∷ 8 ∷ []) (30 ∷ 50 ∷ 80 ∷ []) (three-Represents, refl)
      (refl, (refl, (refl, (refl, tt))))

deque_move-Lists_example :
    Lists (deque_move_to_back 5 three) (3 ∷ 8 ∷ 5 ∷ []) (30 ∷ 80 ∷ 50 ∷ [])
    × Lists (deque_move_to_front 5 three) (5 ∷ 3 ∷ 8 ∷ []) (50 ∷ 30 ∷ 80 ∷ [])
deque_move-Lists_example = deque_move-Lists three 5 (3 ∷ []) (8 ∷ []) three-Represents
