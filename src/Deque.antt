-- ===== src/Deque.antt =====
-- src/include/deque.c: a doubly linked list of nodes in memory. A node is known by its address, 0 is
-- NULL, and a parameter `node` of the pushes is the address that `malloc` returns. The pointer to the
-- deque itself is not NULL. What stands in a node after `free` is unknown: `junk` stands for it.
pub mod Ring
pub mod Push
pub mod Splice
pub mod Pop
pub mod Move
pub mod Detach
use ghetto_redis.Prelude.{
  ℕ, zero, suc, ◌==◌, if◌then◌else◌, Bool, true, false, ◌||◌, Option, none, some,
}
use ghetto_redis.Commands.State.{update}

pub record DequeNode : Type 0 where
  pub «data» : ℕ
  pub prev : ℕ
  pub next : ℕ

pub record Deque : Type 0 where
  pub head : ℕ
  pub tail : ℕ

-- The memory and the deque.
pub record Store : Type 0 where
  pub nodes : ℕ → DequeNode
  pub deque : Deque

-- `a->data = v;` and so on.
abbrev pub set_data : (a v : ℕ) → Store → Store
set_data a v s = record s { nodes = update s.nodes a (record (s.nodes a) { «data» = v }) }

abbrev pub set_prev : (a v : ℕ) → Store → Store
set_prev a v s = record s { nodes = update s.nodes a (record (s.nodes a) { prev = v }) }

abbrev pub set_next : (a v : ℕ) → Store → Store
set_next a v s = record s { nodes = update s.nodes a (record (s.nodes a) { next = v }) }

abbrev pub set_head : (v : ℕ) → Store → Store
set_head v s = record s { deque = record s.deque { head = v } }

abbrev pub set_tail : (v : ℕ) → Store → Store
set_tail v s = record s { deque = record s.deque { tail = v } }

abbrev pub free : (junk : DequeNode) (a : ℕ) → Store → Store
free junk a s = record s { nodes = update s.nodes a junk }

-- `if (a) { a->next = v; } else { deque->head = v; }`
abbrev pub link_next : (a v : ℕ) → Store → Store
link_next a v s = if a == 0 then set_head v s else set_next a v s

-- `if (a) { a->prev = v; } else { deque->tail = v; }`
abbrev pub link_prev : (a v : ℕ) → Store → Store
link_prev a v s = if a == 0 then set_tail v s else set_prev a v s

unfoldable pub deque_init : Store → Store
deque_init s = set_tail 0 (set_head 0 s)

unfoldable pub deque_is_empty : Store → Bool
deque_is_empty s = s.deque.head == 0

unfoldable pub deque_push_front_node : (node : ℕ) → Store → Store
deque_push_front_node node s =
    let s = set_prev node 0 (set_next node s.deque.head s) in
    set_head node (link_prev s.deque.head node s)

unfoldable pub deque_push_front : (node «data» : ℕ) → Store → Store
unfolding deque_push_front_node
deque_push_front node «data» s = deque_push_front_node node (set_data node «data» s)

unfoldable pub deque_push_back_node : (node : ℕ) → Store → Store
deque_push_back_node node s =
    let s = set_prev node s.deque.tail (set_next node 0 s) in
    set_tail node (link_next s.deque.tail node s)

unfoldable pub deque_push_back : (node «data» : ℕ) → Store → Store
unfolding deque_push_back_node
deque_push_back node «data» s = deque_push_back_node node (set_data node «data» s)

-- NULL is `none`.
unfoldable pub deque_pop_front : (junk : DequeNode) → Store → Option ℕ × Store
unfolding deque_is_empty
deque_pop_front junk s =
    if deque_is_empty s
    then (none, s)
    else (let node = s.deque.head in
        let next = (s.nodes node).next in
        (some (s.nodes node).«data», free junk node (link_prev next 0 (set_head next s))))

unfoldable pub deque_pop_back : (junk : DequeNode) → Store → Option ℕ × Store
unfolding deque_is_empty
deque_pop_back junk s =
    if deque_is_empty s
    then (none, s)
    else (let node = s.deque.tail in
        let prev = (s.nodes node).prev in
        (some (s.nodes node).«data», free junk node (link_next prev 0 (set_tail prev s))))

unfoldable pub deque_detach : (node : ℕ) → Store → Store
unfolding deque_is_empty
deque_detach node s =
    if deque_is_empty s || (node == 0)
    then s
    else (let s = link_next (s.nodes node).prev (s.nodes node).next s in
        link_prev (s.nodes node).next (s.nodes node).prev s)

unfoldable pub deque_move_to_back : (node : ℕ) → Store → Store
deque_move_to_back node s =
    if deque_is_empty s || (node == 0) || (node == s.deque.tail)
    then s
    else deque_push_back_node node (deque_detach node s)

unfoldable pub deque_move_to_front : (node : ℕ) → Store → Store
deque_move_to_front node s =
    if deque_is_empty s || (node == 0) || (node == s.deque.head)
    then s
    else deque_push_front_node node (deque_detach node s)

-- The loop of `deque_destroy` with fuel for its rounds.
unfoldable pub deque_destroy : (junk : DequeNode) → ℕ → Store → Option Store
deque_destroy junk zero s = none
deque_destroy junk (suc fuel) s =
    let rest = deque_destroy junk fuel (deque_pop_front junk s).1 in
    if deque_is_empty s then some s else rest
