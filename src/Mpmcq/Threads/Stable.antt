-- ===== src/Mpmcq/Threads/Stable.antt =====
-- What a thread knows is not changed by an access of another thread.
use ghetto_redis.Prelude.{
  ℕ, zero, suc, ◌+◌, ◌%◌, ◌≡◌, refl, ◌==◌, if◌then◌else◌, List, [], ◌∷◌, ◌++◌, true, some, length,
  get_elem?, arith,
}
use ghetto_redis.Mpmcq.{store_cell}
use ghetto_redis.Mpmcq.Threads.{Phase, Shared}
use ghetto_redis.Mpmcq.Threads.Inv.{claim_in, claim_out, returned_at, Filling, Emptying, Knows}

pub get_elem?-append :
    (xs ys : List ℕ) (i : ℕ) {x : ℕ} → get_elem? xs i ≡ some x → get_elem? (xs ++ ys) i ≡ some x
get_elem?-append [] ys i e = cc
get_elem?-append (y ∷ xs) ys zero e = e
get_elem?-append (y ∷ xs) ys (suc i) e = get_elem?-append xs ys i e

pub get_elem?-last : (xs : List ℕ) (x : ℕ) → get_elem? (xs ++ x ∷ []) (length xs) ≡ some x
get_elem?-last [] x = refl
get_elem?-last (y ∷ xs) x = get_elem?-last xs x

pub returned_at-concat :
    (rs : List (ℕ × ℕ)) (pos obj p : ℕ)
    → returned_at (rs ++ (pos, obj) ∷ []) p ≡ (if pos == p then true else returned_at rs p)
returned_at-concat [] pos obj p = refl
returned_at-concat ((q, x) ∷ rs) pos obj p = ground (arith, returned_at-concat rs pos obj p)

module _ (m : Shared) where
  -- The memory after each access that changes it.
  abbrev pub claimed_in : (obj : ℕ) → Shared
  claimed_in obj = record m {
    queue = record m.queue { enqueue_pos = m.queue.enqueue_pos + 1 };
    sent = m.sent ++ (obj ∷ []);
  }

  abbrev pub with_item : (obj pos : ℕ) → Shared
  with_item obj pos = record m {
    queue = record m.queue { items = store_cell m.queue.items (pos % 8192) obj };
  }

  abbrev pub with_seq : (pos v : ℕ) → List (ℕ × ℕ) → Shared
  with_seq pos v received = record m {
    queue = record m.queue { seq = store_cell m.queue.seq (pos % 8192) v };
    received = received;
  }

  abbrev pub claimed_out : Shared
  claimed_out = record m { queue = record m.queue { dequeue_pos = m.queue.dequeue_pos + 1 } }

  pub Knows-claimed_in :
      (obj : ℕ) (p : Phase)
      → m.queue.seq (m.queue.enqueue_pos % 8192) ≡ m.queue.enqueue_pos
      → Knows m p
      → Knows (claimed_in obj) p
  Knows-claimed_in obj Phase.idle free k = tt
  Knows-claimed_in obj (Phase.load_enqueue_pos _) free k = tt
  Knows-claimed_in obj (Phase.load_free_seq _ pos) free k = omega arith
  Knows-claimed_in obj (Phase.claim_enqueue _ pos) free k =
      (omega (arith, k.0), λ e. ground (arith, e, k.0))
  Knows-claimed_in obj (Phase.store_item o pos) free (a, b, c, d) =
      (a, omega arith, c, get_elem?-append m.sent (obj ∷ []) pos d)
  Knows-claimed_in obj (Phase.store_filled_seq o pos) free ((a, b, c, d), e) =
      ((a, omega arith, c, get_elem?-append m.sent (obj ∷ []) pos d), e)
  Knows-claimed_in obj Phase.load_dequeue_pos free k = tt
  Knows-claimed_in obj (Phase.load_filled_seq pos) free k = k
  Knows-claimed_in obj (Phase.claim_dequeue pos) free k = k
  Knows-claimed_in obj (Phase.load_item pos) free (a, b, c, d) = (a, ground arith, c, d)
  Knows-claimed_in obj (Phase.store_free_seq o pos) free ((a, b, c, d), e) =
      ((a, ground arith, c, d), get_elem?-append m.sent (obj ∷ []) pos e)

  pub Knows-with_item :
      (obj pos : ℕ) (p : Phase)
      → m.queue.seq (pos % 8192) ≡ pos
      → (claim_in p ≡ some pos → ⊥)
      → Knows m p
      → Knows (with_item obj pos) p
  Knows-with_item obj pos Phase.idle at ne k = tt
  Knows-with_item obj pos (Phase.load_enqueue_pos _) at ne k = tt
  Knows-with_item obj pos (Phase.load_free_seq _ _) at ne k = k
  Knows-with_item obj pos (Phase.claim_enqueue _ _) at ne k = k
  Knows-with_item obj pos (Phase.store_item _ _) at ne k = k
  Knows-with_item obj pos (Phase.store_filled_seq o p) at ne ((a, b, c, d), e) =
      ((a, b, c, d), ground (arith, at, c, e, ne))
  Knows-with_item obj pos Phase.load_dequeue_pos at ne k = tt
  Knows-with_item obj pos (Phase.load_filled_seq _) at ne k = k
  Knows-with_item obj pos (Phase.claim_dequeue _) at ne k = k
  Knows-with_item obj pos (Phase.load_item _) at ne k = k
  Knows-with_item obj pos (Phase.store_free_seq _ _) at ne k = k

  pub Knows-published :
      (obj pos : ℕ) (p : Phase)
      → Filling m obj pos
      → (claim_in p ≡ some pos → ⊥)
      → Knows m p
      → Knows (with_seq pos (pos + 1) m.received) p
  Knows-published obj pos Phase.idle f ne k = tt
  Knows-published obj pos (Phase.load_enqueue_pos _) f ne k = tt
  Knows-published obj pos (Phase.load_free_seq _ _) f ne k = k
  Knows-published obj pos (Phase.claim_enqueue _ q) (f, g, at, _) ne (a, b) =
      (a, λ e. let c = b e in ground (arith, at, c, e, g))
  Knows-published obj pos (Phase.store_item o q) (f, g, at, _) ne (a, b, c, d) =
      (a, b, ground (arith, at, c, ne), d)
  Knows-published obj pos (Phase.store_filled_seq o q) (f, g, at, _) ne ((a, b, c, d), e) =
      ((a, b, ground (arith, at, c, ne), d), e)
  Knows-published obj pos Phase.load_dequeue_pos f ne k = tt
  Knows-published obj pos (Phase.load_filled_seq _) f ne k = k
  Knows-published obj pos (Phase.claim_dequeue q) (f, g, at, _) ne (a, b) =
      (a, λ e. let c = b e in ground (arith, at, c, e))
  Knows-published obj pos (Phase.load_item q) (f, g, at, _) ne (a, b, c, d) =
      (a, b, ground (arith, at, c), d)
  Knows-published obj pos (Phase.store_free_seq _ q) (f, g, at, _) ne ((a, b, c, d), e) =
      ((a, b, ground (arith, at, c), d), e)

  pub Knows-claimed_out :
      (p : Phase)
      → m.queue.seq (m.queue.dequeue_pos % 8192) ≡ m.queue.dequeue_pos + 1
      → Knows m p
      → Knows claimed_out p
  Knows-claimed_out Phase.idle at k = tt
  Knows-claimed_out (Phase.load_enqueue_pos _) at k = tt
  Knows-claimed_out (Phase.load_free_seq _ _) at k = k
  Knows-claimed_out (Phase.claim_enqueue _ _) at k = k
  Knows-claimed_out (Phase.store_item o q) at (a, b, c, d) = (ground arith, b, c, d)
  Knows-claimed_out (Phase.store_filled_seq o q) at ((a, b, c, d), e) = ((ground arith, b, c, d), e)
  Knows-claimed_out Phase.load_dequeue_pos at k = tt
  Knows-claimed_out (Phase.load_filled_seq q) at k = omega (arith, k)
  Knows-claimed_out (Phase.claim_dequeue q) at (a, b) =
      (omega (arith, a), λ e. absurd (omega (arith, a, e)))
  Knows-claimed_out (Phase.load_item q) at (a, b, c, d) = (omega (arith, a), b, c, d)
  Knows-claimed_out (Phase.store_free_seq _ q) at ((a, b, c, d), e) =
      ((omega (arith, a), b, c, d), e)

  pub Knows-released :
      (obj pos : ℕ) (p : Phase)
      → Emptying m pos
      → (claim_out p ≡ some pos → ⊥)
      → Knows m p
      → Knows (with_seq pos (pos + 8192) (m.received ++ (pos, obj) ∷ [])) p
  Knows-released obj pos Phase.idle f ne k = tt
  Knows-released obj pos (Phase.load_enqueue_pos _) f ne k = tt
  Knows-released obj pos (Phase.load_free_seq _ _) f ne k = k
  Knows-released obj pos (Phase.claim_enqueue _ q) (f, g, at, _) ne (a, b) =
      (a, λ e. let c = b e in ground (arith, at, c, e, g))
  Knows-released obj pos (Phase.store_item o q) (f, g, at, _) ne (a, b, c, d) =
      (a, b, ground (arith, at, c), d)
  Knows-released obj pos (Phase.store_filled_seq o q) (f, g, at, _) ne ((a, b, c, d), e) =
      ((a, b, ground (arith, at, c), d), e)
  Knows-released obj pos Phase.load_dequeue_pos f ne k = tt
  Knows-released obj pos (Phase.load_filled_seq _) f ne k = k
  Knows-released obj pos (Phase.claim_dequeue q) (f, g, at, _) ne (a, b) =
      (a, λ e. let c = b e in ground (arith, at, c, e, f))
  Knows-released obj pos (Phase.load_item q) (f, g, at, _) ne (a, b, c, d) = (
    a,
    b,
    ground (arith, at, c, ne),
    ground (arith, returned_at-concat m.received pos obj q, d, at, c, ne),
  )
  Knows-released obj pos (Phase.store_free_seq _ q) (f, g, at, _) ne ((a, b, c, d), e) = (
    (
      a,
      b,
      ground (arith, at, c, ne),
      ground (arith, returned_at-concat m.received pos obj q, d, at, c, ne),
    ),
    e,
  )
