-- ===== src/Spscq/Inv.antt =====
-- What each thread knows about the queue between its accesses to memory.
use ghetto_redis.Prelude.{ℕ, ◌+◌, ◌<◌, ◌≤◌, ◌≡◌, sym, ◌∙◌, List, ◌++◌, length, arith}
use ghetto_redis.Spscq.{Spscq, next_position, Producer, Consumer, State}
use ghetto_redis.Spscq.Ring.{Ring}

-- What the producer's local variables say, `xs` being in the queue.
abbrev pub ProducerKnows : Spscq → List ℕ → Producer → Type 0
ProducerKnows q xs Producer.returned = Unit
ProducerKnows q xs (Producer.load_tail obj) = Unit
ProducerKnows q xs (Producer.load_head obj tail next_tail) =
    (tail ≡ q.tail) × (next_tail ≡ next_position q.size q.tail)
ProducerKnows q xs (Producer.store_item obj tail next_tail) =
    (tail ≡ q.tail) × (next_tail ≡ next_position q.size q.tail) × (length xs + 1 < q.size)
ProducerKnows q xs (Producer.store_tail obj next_tail) =
    (q.buffer q.tail ≡ obj) × (next_tail ≡ next_position q.size q.tail) × (length xs + 1 < q.size)

-- What the consumer's local variables say.
abbrev pub ConsumerKnows : Spscq → List ℕ → Consumer → Type 0
ConsumerKnows q xs Consumer.returned = Unit
ConsumerKnows q xs Consumer.load_head = Unit
ConsumerKnows q xs (Consumer.load_tail head) = head ≡ q.head
ConsumerKnows q xs (Consumer.load_item head) = (head ≡ q.head) × (0 < length xs)
ConsumerKnows q xs (Consumer.store_head obj next_head) =
    (next_head ≡ next_position q.size q.head) × (q.buffer q.head ≡ obj) × (0 < length xs)

-- `xs` is in the queue, between what was sent and what was received.
pub record Inv (s : State) (xs : List ℕ) : Type 0 where
  pub ring : Ring s.queue xs
  pub history : s.sent ≡ s.received ++ xs
  pub producer_knows : ProducerKnows s.queue xs s.producer
  pub consumer_knows : ConsumerKnows s.queue xs s.consumer

-- Some objects are in the queue.
abbrev pub InvOf : State → Type 0
InvOf s = (xs : List ℕ) × Inv s xs

-- The producer's accesses leave what the consumer knows, and the other way round.
pub ConsumerKnows-stable :
    (q q' : Spscq) (xs xs' : List ℕ) (c : Consumer)
    → q'.head ≡ q.head
    → q'.size ≡ q.size
    → (0 < length xs → q'.buffer q.head ≡ q.buffer q.head)
    → length xs ≤ length xs'
    → ConsumerKnows q xs c
    → ConsumerKnows q' xs' c
ConsumerKnows-stable q q' xs xs' Consumer.returned h n b l k = tt
ConsumerKnows-stable q q' xs xs' Consumer.load_head h n b l k = tt
ConsumerKnows-stable q q' xs xs' (Consumer.load_tail head) h n b l k = k ∙ sym h
ConsumerKnows-stable q q' xs xs' (Consumer.load_item head) h n b l k = (k.0 ∙ sym h, omega arith)
ConsumerKnows-stable q q' xs xs' (Consumer.store_head obj next_head) h n b l (at, item, some_item) =
    (rw (h, n) at, rw (h, b some_item) item, omega arith)

pub ProducerKnows-stable :
    (q q' : Spscq) (xs xs' : List ℕ) (p : Producer)
    → q'.tail ≡ q.tail
    → q'.size ≡ q.size
    → q'.buffer ≡ q.buffer
    → length xs' ≤ length xs
    → ProducerKnows q xs p
    → ProducerKnows q' xs' p
ProducerKnows-stable q q' xs xs' Producer.returned t n b l k = tt
ProducerKnows-stable q q' xs xs' (Producer.load_tail obj) t n b l k = tt
ProducerKnows-stable q q' xs xs' (Producer.load_head obj tail next_tail) t n b l k =
    (rw t k.0, rw (t, n) k.1)
ProducerKnows-stable q q' xs xs' (Producer.store_item obj tail next_tail) t n b l
      (at, then_at, room) =
    (rw t at, rw (t, n) then_at, omega arith)
ProducerKnows-stable q q' xs xs' (Producer.store_tail obj next_tail) t n b l (item, then_at, room) =
    (rw (t, b) item, rw (t, n) then_at, omega arith)
