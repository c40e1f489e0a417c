-- ===== src/Prelude/Lru.antt =====
-- The crate `lru`: a map that holds at most `cap` entries and drops the one that was used longest
-- ago. The code is not in the repository, so the type is a parameter with its documented behaviour.
pub mod Bounded
use Prim.Native.Nat.{ℕ}
use mathlib.Core.Path.{◌≡◌}
use mathlib.Core.Logic.{◌≢◌, ◌⊎◌}
use mathlib.Core.Option.{Option, none, some}

pub record Lru (K V : Type 0) : Type 1 where
  pub Cache : Type 0
  -- LruCache::new(cap)
  pub empty : ℕ → Cache
  -- `peek` reads and leaves the order of use alone.
  pub peek : Cache → K → Option V
  pub put : Cache → K → V → Cache
  -- `get` and `get_mut` make the key the last one used. A value written through `get_mut` is a `put`.
  pub promote : Cache → K → Cache
  pub pop : Cache → K → Cache
  pub peek-promote : (c : Cache) (k j : K) → peek (promote c k) j ≡ peek c j
  pub peek-pop : (c : Cache) (k : K) → peek (pop c k) k ≡ none
  pub peek-pop_ne : (c : Cache) (k j : K) → k ≢ j → peek (pop c k) j ≡ peek c j
  pub peek-empty : (n : ℕ) (k : K) → peek (empty n) k ≡ none
  -- What was put is there, and of another key nothing but an eviction is seen.
  pub peek-put : (c : Cache) (k : K) (v : V) → peek (put c k v) k ≡ some v
  pub peek-put_ne :
      (c : Cache) (k j : K) (v : V)
      → k ≢ j
      → (peek (put c k v) j ≡ peek c j) ⊎ (peek (put c k v) j ≡ none)
