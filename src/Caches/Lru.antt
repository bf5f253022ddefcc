-- ===== src/Caches/Lru.antt =====
-- The interface of github.com/hashicorp/golang-lru/v2, and the part of its documented behaviour that
-- the cache relies on. `peek` is what a `Get` would return, without marking the entry as used.
use rr_dns.Prelude.{ℕ, List, Option, none, some, ◌≡◌, ◌≢◌, ◌⊎◌}
use rr_dns.Prelude.Bytes.{Bytes}

pub record Lru (V : Type 0) : Type 1 where
  pub State : Type 0
  pub empty : ℕ → State
  pub get : State → Bytes → State × Option V
  pub add : State → Bytes → V → State
  pub remove : State → Bytes → State
  pub len : State → ℕ
  pub keys : State → List Bytes
  pub peek : State → Bytes → Option V

-- A `Get` returns the value and changes the order of use alone; an `Add` stores the value, and may
-- evict another entry only if the key is new; a `Remove` deletes one entry.
pub record LruLaws (V : Type 0) (lru : Lru V) : Type 0 where
  pub get-peek : (s : lru.State) (k : Bytes) → (lru.get s k).1 ≡ lru.peek s k
  pub peek-get : (s : lru.State) (k j : Bytes) → lru.peek (lru.get s k).0 j ≡ lru.peek s j
  pub peek-add_self : (s : lru.State) (k : Bytes) (v : V) → lru.peek (lru.add s k v) k ≡ some v
  pub peek-add_ne :
      (s : lru.State) (k j : Bytes) (v : V)
      → k ≢ j
      → (lru.peek (lru.add s k v) j ≡ lru.peek s j) ⊎ (lru.peek (lru.add s k v) j ≡ none)
  pub peek-add_present :
      (s : lru.State) (k j : Bytes) (v w : V)
      → k ≢ j
      → lru.peek s k ≡ some w
      → lru.peek (lru.add s k v) j ≡ lru.peek s j
  pub peek-remove_self : (s : lru.State) (k : Bytes) → lru.peek (lru.remove s k) k ≡ none
  pub peek-remove_ne :
      (s : lru.State) (k j : Bytes) → k ≢ j → lru.peek (lru.remove s k) j ≡ lru.peek s j
