-- ===== src/Server/MapLocks.antt =====
-- src/server2.rs, `WayfinderMapOperationLocks`: a lock for each map, held weakly by its registry.
pub mod Laws
pub mod Bounds
mod Tests
use dd2_server.Prelude.{
  ℕ, zero, suc, ◌+◌, Bool, true, false, Option, none, some, List, [], ◌∷◌, String, if◌then◌else◌,
  any, string_eq, nat_eq, ◌==◌,
}
use dd2_server.Prelude.HashMap
use dd2_server.Prelude.HashMap.{HashMap}

-- The locks of the registry by their identity, each holder of an `Arc` with the map it asked for
-- and the lock it has, and the identity of the next lock that is made.
pub record Locks : Type 0 where
  pub locks : HashMap String ℕ
  pub holders : List (String × ℕ)
  pub next_lock : ℕ

abbrev pub no_locks : Locks
no_locks = record { locks = []; holders = []; next_lock = 0 }

-- `strong_count() > 0`.
pub is_alive : List (String × ℕ) → ℕ → Bool
is_alive holders lock = any (λ holder. holder.1 == lock) holders

pub prune : Locks → Locks
unfolding is_alive
prune s = record s { locks = HashMap.retain (λ uid lock. is_alive s.holders lock) s.locks }

-- `Weak::upgrade`.
pub upgrade : List (String × ℕ) → Option ℕ → Option ℕ
unfolding is_alive
upgrade holders none = none
upgrade holders (some lock) = if is_alive holders lock then some lock else none

abbrev pub handed : String → Option ℕ → Locks → ℕ × Locks
handed map_uid (some lock) s = (lock, record s { holders = (map_uid, lock) ∷ s.holders })
handed map_uid none s = (
  s.next_lock,
  record {
    locks = HashMap.insert map_uid s.next_lock s.locks;
    holders = (map_uid, s.next_lock) ∷ s.holders;
    next_lock = suc s.next_lock;
  },
)

pub find_or_make : String → Locks → ℕ × Locks
unfolding upgrade
find_or_make map_uid s = handed map_uid (upgrade s.holders (HashMap.get map_uid s.locks)) s

abbrev pub drop_nth : ℕ → List (String × ℕ) → List (String × ℕ)
drop_nth n [] = []
drop_nth zero (holder ∷ holders) = holders
drop_nth (suc n) (holder ∷ holders) = holder ∷ drop_nth n holders

abbrev pub drop_holder : ℕ → Locks → Locks
drop_holder n s = record s { holders = drop_nth n s.holders }

abbrev pub drop_holders : List ℕ → Locks → Locks
drop_holders [] s = s
drop_holders (n ∷ ns) s = drop_holders ns (drop_holder n s)

-- The registry is locked through the call; other tasks drop the holders `ended` between its
-- `retain` and its lookup.
pub for_map : String → List ℕ → Locks → ℕ × Locks
unfolding prune find_or_make
for_map map_uid ended s = find_or_make map_uid (drop_holders ended (prune s))

-- Tasks ask for the locks of maps and drop what they hold, in any order.
pub data Reach : Locks → Type 0 where
  start : Reach no_locks
  asks :
      {s : Locks} (map_uid : String) (ended : List ℕ) → Reach s → Reach (for_map map_uid ended s).1
  drops : {s : Locks} (n : ℕ) → Reach s → Reach (drop_holder n s)
