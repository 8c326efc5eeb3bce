-- ===== src/Spscq/Fifo.antt =====
-- Whatever the order in which the producer and the consumer go on, objects come out as they went in.
use ghetto_redis.Prelude.{
  ℕ, ◌<◌, ◌≡◌, refl, sym, ap, ◌∙◌, ◌==◌, if◌then◌else◌, List, [], ◌∷◌, ◌++◌, Bool, true, false,
  ==_self, length, length-append, arith,
}
use mathlib.Core.Path.{subst}
use mathlib.Core.List.{append_assoc}
use ghetto_redis.Spscq.{
  Spscq, next_position, store, Producer, Consumer, State, enqueue_access, dequeue_access, Event,
  call_enqueue, enqueue_step, call_dequeue, dequeue_step, call_enqueue_of, call_dequeue_of, step,
  run, created,
}
use ghetto_redis.Spscq.Ring.{
  ring_end, RingHolds, next_position_inside, ring_end-concat, RingHolds-store, RingHolds-concat,
  ring_full_iff, ring_empty_iff,
}
use ghetto_redis.Spscq.Inv.{
  ProducerKnows, ConsumerKnows, Inv, InvOf, ConsumerKnows-stable, ProducerKnows-stable,
}

enqueue_access-Inv :
    (p : Producer) (s : State) (xs : List ℕ)
    → ProducerKnows s.queue xs p
    → Inv s xs
    → InvOf (enqueue_access p s)
unfolding enqueue_access
enqueue_access-Inv Producer.returned s xs k inv = (xs, inv)
enqueue_access-Inv (Producer.load_tail obj) s xs k inv = (
  xs,
  record {
    ring = inv.ring;
    history = inv.history;
    producer_knows = (refl, refl);
    consumer_knows = inv.consumer_knows;
  },
)
enqueue_access-Inv (Producer.load_head obj tail next_tail) s xs (at, then_at) inv = (
  xs,
  record {
    ring = inv.ring;
    history = inv.history;
    producer_knows = by_room (next_tail == s.queue.head) refl;
    consumer_knows = inv.consumer_knows;
  },
)
  where
    by_room :
        (full : Bool)
        → (next_tail == s.queue.head) ≡ full
        → ProducerKnows s.queue xs
            (if full then Producer.returned else Producer.store_item obj tail next_tail)
    by_room true e = tt
    by_room false e =
        let full = ring_full_iff s.queue.size s.queue.head xs inv.ring.head_inside inv.ring.room in
        let behind : (next_position s.queue.size (ring_end s.queue.size s.queue.head xs)
              == s.queue.head)
            ≡ false =
          rw (← inv.ring.tail_is, ← then_at) e in
        (at, then_at, ground (arith, sym full ∙ behind))
enqueue_access-Inv (Producer.store_item obj tail next_tail) s xs (at, then_at, room) inv =
    let end : tail ≡ ring_end s.queue.size s.queue.head xs = at ∙ inv.ring.tail_is in
    let empty = ring_empty_iff s.queue.size s.queue.head xs inv.ring.head_inside inv.ring.room in
    let kept =
      RingHolds-store s.queue.size s.queue.buffer s.queue.head obj xs inv.ring.head_inside
        inv.ring.room inv.ring.items in
    (
      xs,
      record {
        ring = record {
          head_inside = inv.ring.head_inside;
          room = inv.ring.room;
          tail_is = inv.ring.tail_is;
          items =
              subst (λ t. RingHolds (store s.queue.buffer t obj) s.queue.size s.queue.head xs)
                (sym end) kept;
        };
        history = inv.history;
        producer_knows = (rw (← at, ==_self tail), then_at, room);
        consumer_knows =
            ConsumerKnows-stable s.queue (record s.queue { buffer = store s.queue.buffer tail obj })
              xs xs s.consumer refl refl (λ some_item. ground (arith, empty, end)) (omega arith)
              inv.consumer_knows;
      },
    )
enqueue_access-Inv (Producer.store_tail obj next_tail) s xs (item, then_at, room) inv =
    let size = s.queue.size in
    let longer = length-append {0} xs (obj ∷ []) in
    (
      xs ++ obj ∷ [],
      record {
        ring = record {
          head_inside = inv.ring.head_inside;
          room = omega (arith, longer);
          tail_is =
              then_at
              ∙ ap (next_position size) inv.ring.tail_is
              ∙ sym (ring_end-concat size s.queue.head xs obj);
          items =
              RingHolds-concat size s.queue.buffer s.queue.head obj xs inv.ring.items
                (rw (← inv.ring.tail_is) item);
        };
        history = rw inv.history (append_assoc s.received xs (obj ∷ []));
        producer_knows = tt;
        consumer_knows =
            ConsumerKnows-stable s.queue (record s.queue { tail = next_tail }) xs (xs ++ obj ∷ [])
              s.consumer refl refl (λ _. refl) (omega (arith, longer)) inv.consumer_knows;
      },
    )

dequeue_access-Inv :
    (c : Consumer) (s : State) (xs : List ℕ)
    → ConsumerKnows s.queue xs c
    → Inv s xs
    → InvOf (dequeue_access c s)
unfolding dequeue_access
dequeue_access-Inv Consumer.returned s xs k inv = (xs, inv)
dequeue_access-Inv Consumer.load_head s xs k inv = (
  xs,
  record {
    ring = inv.ring;
    history = inv.history;
    producer_knows = inv.producer_knows;
    consumer_knows = refl;
  },
)
dequeue_access-Inv (Consumer.load_tail head) s xs at inv = (
  xs,
  record {
    ring = inv.ring;
    history = inv.history;
    producer_knows = inv.producer_knows;
    consumer_knows = by_items (head == s.queue.tail) refl;
  },
)
  where
    by_items :
        (empty : Bool)
        → (head == s.queue.tail) ≡ empty
        → ConsumerKnows s.queue xs (if empty then Consumer.returned else Consumer.load_item head)
    by_items true e = tt
    by_items false e =
        let empty =
          ring_empty_iff s.queue.size s.queue.head xs inv.ring.head_inside inv.ring.room in
        let apart : (s.queue.head == ring_end s.queue.size s.queue.head xs) ≡ false =
          rw (← inv.ring.tail_is, ← at) e in
        (at, ground (arith, sym empty ∙ apart))
dequeue_access-Inv (Consumer.load_item head) s xs (at, some_item) inv = (
  xs,
  record {
    ring = inv.ring;
    history = inv.history;
    producer_knows = inv.producer_knows;
    consumer_knows = (ap (next_position s.queue.size) at, rw at, some_item);
  },
)
dequeue_access-Inv (Consumer.store_head obj next_head) s [] (then_at, item, some_item) inv =
    absurd (omega arith)
dequeue_access-Inv (Consumer.store_head obj next_head) s (x ∷ xs) (then_at, item, some_item) inv =
    let same : obj ≡ x = sym item ∙ inv.ring.items.0 in
    (
      xs,
      record {
        ring = record {
          head_inside =
              rw then_at (next_position_inside s.queue.size s.queue.head inv.ring.head_inside);
          room = omega (arith, inv.ring.room);
          tail_is = rw then_at inv.ring.tail_is;
          items =
              subst (λ h. RingHolds s.queue.buffer s.queue.size h xs) (sym then_at)
                inv.ring.items.1;
        };
        history = rw (same, append_assoc s.received (x ∷ []) xs) inv.history;
        producer_knows =
            ProducerKnows-stable s.queue (record s.queue { head = next_head }) (x ∷ xs) xs
              s.producer refl refl refl (omega arith) inv.producer_knows;
        consumer_knows = tt;
      },
    )

call_enqueue-Knows :
    (q : Spscq) (xs : List ℕ) (obj : ℕ) (p : Producer)
    → ProducerKnows q xs p
    → ProducerKnows q xs (call_enqueue_of obj p)
call_enqueue-Knows q xs obj Producer.returned k = tt
call_enqueue-Knows q xs obj (Producer.load_tail _) k = k
call_enqueue-Knows q xs obj (Producer.load_head _ _ _) k = k
call_enqueue-Knows q xs obj (Producer.store_item _ _ _) k = k
call_enqueue-Knows q xs obj (Producer.store_tail _ _) k = k

call_dequeue-Knows :
    (q : Spscq) (xs : List ℕ) (c : Consumer)
    → ConsumerKnows q xs c
    → ConsumerKnows q xs (call_dequeue_of c)
call_dequeue-Knows q xs Consumer.returned k = tt
call_dequeue-Knows q xs Consumer.load_head k = k
call_dequeue-Knows q xs (Consumer.load_tail _) k = k
call_dequeue-Knows q xs (Consumer.load_item _) k = k
call_dequeue-Knows q xs (Consumer.store_head _ _) k = k

step-Inv : (e : Event) (s : State) → InvOf s → InvOf (step e s)
unfolding step
step-Inv (call_enqueue obj) s (xs, inv) = (
  xs,
  record {
    ring = inv.ring;
    history = inv.history;
    producer_knows = call_enqueue-Knows s.queue xs obj s.producer inv.producer_knows;
    consumer_knows = inv.consumer_knows;
  },
)
step-Inv enqueue_step s (xs, inv) = enqueue_access-Inv s.producer s xs inv.producer_knows inv
step-Inv call_dequeue s (xs, inv) = (
  xs,
  record {
    ring = inv.ring;
    history = inv.history;
    producer_knows = inv.producer_knows;
    consumer_knows = call_dequeue-Knows s.queue xs s.consumer inv.consumer_knows;
  },
)
step-Inv dequeue_step s (xs, inv) = dequeue_access-Inv s.consumer s xs inv.consumer_knows inv

run-Inv : (es : List Event) (s : State) → InvOf s → InvOf (run es s)
unfolding run
run-Inv [] s inv = inv
run-Inv (e ∷ es) s inv = run-Inv es (step e s) (step-Inv e s inv)

-- What holds after a schedule on a new queue.
pub created-InvOf : (size : ℕ) (es : List Event) → 0 < size → InvOf (run es (created size))
created-InvOf size es positive = run-Inv es (created size) (
  [],
  record {
    ring = record { head_inside = positive; room = positive; tail_is = refl; items = tt };
    history = refl;
    producer_knows = tt;
    consumer_knows = tt;
  },
)

-- For every schedule of the two threads' calls and memory accesses on a new queue, what was received
-- is what was sent, in order, less the last objects sent, fewer than the queue's size.
pub run-created :
    (size : ℕ) (es : List Event)
    → 0 < size
    → (rest : List ℕ) × ((run es (created size)).sent ≡ (run es (created size)).received ++ rest)
      × (length rest < (run es (created size)).queue.size)
run-created size es positive =
    let (xs, inv) = created-InvOf size es positive in (xs, inv.history, inv.ring.room)
