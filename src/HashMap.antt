-- ===== src/HashMap.antt =====
-- The hash table of src/include/hashmap.c, a third-party library, as the program calls it: an
-- interface with the behaviour that src/include/hashmap.h documents. Items are compared by their
-- keys. Allocation is taken to succeed.
pub mod Assoc
use ghetto_redis.Prelude.{ℕ, ◌≡◌, ◌≢◌, Option, none, some}
use ghetto_redis.Prelude.Words.{Bytes}

-- `hash` is `hashmap_xxhash3(key, keylen, 0, 0)`. The laws speak of calls that are given the hash of
-- their key, as all calls of the program are.
pub record HashMap {ℓ} (Item : Type ℓ) (key : Item → Bytes) : Type (ℓ + 1) where
  pub Map : Type ℓ
  pub hash : Bytes → ℕ
  pub new : Map
  pub clear : Map → Map
  pub get_with_hash : Map → Bytes → ℕ → Option Item
  pub set_with_hash : Map → Item → ℕ → Map × Option Item
  pub delete_with_hash : Map → Bytes → ℕ → Map × Option Item
  pub get-new : (k : Bytes) → get_with_hash new k (hash k) ≡ none
  pub get-clear : (m : Map) (k : Bytes) → get_with_hash (clear m) k (hash k) ≡ none
  pub get-set_self :
      (m : Map) (x : Item)
      → get_with_hash (set_with_hash m x (hash (key x))).0 (key x) (hash (key x)) ≡ some x
  pub get-set_ne :
      (m : Map) (x : Item) (k : Bytes)
      → k ≢ key x
      → get_with_hash (set_with_hash m x (hash (key x))).0 k (hash k) ≡ get_with_hash m k (hash k)
  pub set_replaced :
      (m : Map) (x : Item)
      → (set_with_hash m x (hash (key x))).1 ≡ get_with_hash m (key x) (hash (key x))
  pub get-delete_self :
      (m : Map) (k : Bytes) → get_with_hash (delete_with_hash m k (hash k)).0 k (hash k) ≡ none
  pub get-delete_ne :
      (m : Map) (j k : Bytes)
      → k ≢ j
      → get_with_hash (delete_with_hash m j (hash j)).0 k (hash k) ≡ get_with_hash m k (hash k)
  pub delete_removed :
      (m : Map) (k : Bytes) → (delete_with_hash m k (hash k)).1 ≡ get_with_hash m k (hash k)
