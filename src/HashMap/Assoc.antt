-- ===== src/HashMap/Assoc.antt =====
-- An association list keeps the promises of the interface: they can be met.
use ghetto_redis.Prelude.{
  ℕ, ◌≡◌, ◌≢◌, refl, Option, none, some, List, [], ◌∷◌, arith, Bool, true, false, if◌then◌else◌,
  ◌==◌, ◌&&◌, ◌↔◌,
}
use ghetto_redis.Prelude.Words.{Bytes}
use ghetto_redis.HashMap.{HashMap}

abbrev pub same : Bytes → Bytes → Bool
same [] [] = true
same (a ∷ xs) (b ∷ ys) = a == b && same xs ys
same _ _ = false

pub same_iff : (xs ys : Bytes) → (same xs ys ≡ true) ↔ (xs ≡ ys)
same_iff (a ∷ xs) (b ∷ ys) = ground (arith, same_iff xs ys)
same_iff _ _ = ground arith

module _ {ℓ} {Item : Type ℓ} (key : Item → Bytes) where
  abbrev pub find : Bytes → List Item → Option Item
  find k [] = none
  find k (x ∷ xs) = if same (key x) k then some x else find k xs

  abbrev pub remove : Bytes → List Item → List Item
  remove k [] = []
  remove k (x ∷ xs) = let rest = remove k xs in if same (key x) k then rest else x ∷ rest

  pub find-remove_self : (k : Bytes) (xs : List Item) → find k (remove k xs) ≡ none
  find-remove_self k [] = refl
  find-remove_self k (x ∷ xs) = ground (arith, find-remove_self k xs)

  pub find-remove_ne : (j k : Bytes) (xs : List Item) → k ≢ j → find k (remove j xs) ≡ find k xs
  find-remove_ne j k [] h = refl
  find-remove_ne j k (x ∷ xs) h =
      ground (arith, find-remove_ne j k xs h, same_iff (key x) j, same_iff (key x) k)

  abbrev pub put : Item → List Item → List Item
  put x xs = x ∷ remove (key x) xs

  pub find-put_self : (x : Item) (xs : List Item) → find (key x) (put x xs) ≡ some x
  find-put_self x xs = ground (arith, same_iff (key x) (key x))

  pub find-put_ne :
      (x : Item) (k : Bytes) (xs : List Item) → k ≢ key x → find k (put x xs) ≡ find k xs
  find-put_ne x k xs h = ground (arith, same_iff (key x) k, find-remove_ne (key x) k xs h)

  abbrev pub assoc : (Bytes → ℕ) → HashMap Item key
  assoc hash = record {
    Map = List Item;
    hash = hash;
    new = [];
    clear = λ _. [];
    get_with_hash = λ m k _. find k m;
    set_with_hash = λ m x _. (put x m, find (key x) m);
    delete_with_hash = λ m k _. (remove k m, find k m);
    get-new = λ k. refl;
    get-clear = λ m k. refl;
    get-set_self = λ m x. find-put_self x m;
    get-set_ne = λ m x k h. find-put_ne x k m h;
    set_replaced = λ m x. refl;
    get-delete_self = λ m k. find-remove_self k m;
    get-delete_ne = λ m j k h. find-remove_ne j k m h;
    delete_removed = λ m k. refl;
  }
