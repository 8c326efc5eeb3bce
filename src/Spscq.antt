-- ===== src/Spscq.antt =====
-- The queue of one producer and one consumer: src/include/spsc.c and src/include/spscq.h. Each
-- access to shared memory is a step, so that the calls of the two threads can interleave. Objects
-- are pointers; 0 is NULL.
pub mod Ring
pub mod Inv
pub mod Fifo
pub mod Calls
use ghetto_redis.Prelude.{ℕ, ◌+◌, ◌==◌, if◌then◌else◌, List, [], ◌∷◌, ◌++◌, Bool, true, false}

-- `struct spscq`. `buffer` has `size` cells.
pub record Spscq : Type 0 where
  pub head : ℕ
  pub tail : ℕ
  pub size : ℕ
  pub buffer : ℕ → ℕ

abbrev pub spscq_create : (size : ℕ) → Spscq
spscq_create size = record { head = 0; tail = 0; size = size; buffer = λ _. 0 }

abbrev pub spscq_is_empty : Spscq → Bool
spscq_is_empty q = q.head == q.tail

-- The position behind `i`.
abbrev pub next_position : (size i : ℕ) → ℕ
next_position size i = if i + 1 == size then 0 else i + 1

abbrev pub store : (ℕ → ℕ) → ℕ → ℕ → ℕ → ℕ
store buffer i obj j = if j == i then obj else buffer j

-- Where a call of `spscq_enqueue` stands: the access that comes next, with the local variables.
pub data Producer : Type 0 where
  returned : Producer
  load_tail : (obj : ℕ) → Producer
  load_head : (obj tail next_tail : ℕ) → Producer
  store_item : (obj tail next_tail : ℕ) → Producer
  store_tail : (obj next_tail : ℕ) → Producer

-- Where a call of `spscq_dequeue` stands.
pub data Consumer : Type 0 where
  returned : Consumer
  load_head : Consumer
  load_tail : (head : ℕ) → Consumer
  load_item : (head : ℕ) → Consumer
  store_head : (obj next_head : ℕ) → Consumer

-- `sent` holds the objects of the calls that returned true, `received` what dequeuing returned, but
-- for NULL of an empty queue.
pub record State : Type 0 where
  pub queue : Spscq
  pub producer : Producer
  pub consumer : Consumer
  pub sent : List ℕ
  pub received : List ℕ

-- The producer's next access.
unfoldable pub enqueue_access : Producer → State → State
enqueue_access Producer.returned s = s
enqueue_access (Producer.load_tail obj) s = record s {
  producer = Producer.load_head obj s.queue.tail (next_position s.queue.size s.queue.tail);
}
enqueue_access (Producer.load_head obj tail next_tail) s = record s {
  producer =
      if next_tail == s.queue.head
      then Producer.returned
      else Producer.store_item obj tail next_tail;
}
enqueue_access (Producer.store_item obj tail next_tail) s = record s {
  queue = record s.queue { buffer = store s.queue.buffer tail obj };
  producer = Producer.store_tail obj next_tail;
}
enqueue_access (Producer.store_tail obj next_tail) s = record s {
  queue = record s.queue { tail = next_tail };
  producer = Producer.returned;
  sent = s.sent ++ (obj ∷ []);
}

-- The consumer's next access.
unfoldable pub dequeue_access : Consumer → State → State
dequeue_access Consumer.returned s = s
dequeue_access Consumer.load_head s = record s { consumer = Consumer.load_tail s.queue.head }
dequeue_access (Consumer.load_tail head) s = record s {
  consumer = if head == s.queue.tail then Consumer.returned else Consumer.load_item head;
}
dequeue_access (Consumer.load_item head) s = record s {
  consumer = Consumer.store_head (s.queue.buffer head) (next_position s.queue.size head);
}
dequeue_access (Consumer.store_head obj next_head) s = record s {
  queue = record s.queue { head = next_head };
  consumer = Consumer.returned;
  received = s.received ++ (obj ∷ []);
}

-- What happens next: a thread calls, which is nothing while its last call runs, or goes on.
pub data Event : Type 0 where
  call_enqueue : (obj : ℕ) → Event
  enqueue_step : Event
  call_dequeue : Event
  dequeue_step : Event

abbrev pub call_enqueue_of : ℕ → Producer → Producer
call_enqueue_of obj Producer.returned = Producer.load_tail obj
call_enqueue_of obj p = p

abbrev pub call_dequeue_of : Consumer → Consumer
call_dequeue_of Consumer.returned = Consumer.load_head
call_dequeue_of c = c

unfoldable pub step : Event → State → State
unfolding enqueue_access dequeue_access
step (call_enqueue obj) s = record s { producer = call_enqueue_of obj s.producer }
step enqueue_step s = enqueue_access s.producer s
step call_dequeue s = record s { consumer = call_dequeue_of s.consumer }
step dequeue_step s = dequeue_access s.consumer s

-- A schedule of the two threads.
unfoldable pub run : List Event → State → State
unfolding step
run [] s = s
run (e ∷ es) s = run es (step e s)

-- A new queue, which no thread uses yet.
abbrev pub created : (size : ℕ) → State
created size = record {
  queue = spscq_create size;
  producer = Producer.returned;
  consumer = Consumer.returned;
  sent = [];
  received = [];
}
