-- ===== src/Server/MapLocks/Tests.antt =====
-- Runs of the locks of src/server2.rs.
use dd2_server.Prelude.{ℕ, ◌≡◌, refl, ◌↔◌, [], ◌∷◌, String, string_eq, nat_eq, pair_eq}
use dd2_server.Prelude.HashMap
use dd2_server.Prelude.HashSet
use dd2_server.Server.MapLocks.{
  Locks, is_alive, prune, upgrade, find_or_make, drop_holder, for_map, Reach, start, asks,
}
use dd2_server.Server.MapLocks.Laws.{Reach-same_lock_iff}

-- Two tasks ask for one map and one for another.
abbrev three : Locks
three = record {
  locks = ("a", 0) ∷ ("b", 1) ∷ [];
  holders = ("a", 0) ∷ ("b", 1) ∷ ("a", 0) ∷ [];
  next_lock = 2;
}

reach_three : Reach three
unfolding for_map prune find_or_make upgrade is_alive HashMap.get HashMap.insert HashMap.retain
reach_three = asks "a" [] (asks "b" [] (asks "a" [] start))

-- Once the first lock is dropped, another is made for its map.
remade : for_map "a" [] (drop_holder 0 (drop_holder 2 three)) ≡ (
  2,
  record { locks = ("b", 1) ∷ ("a", 2) ∷ []; holders = ("a", 2) ∷ ("b", 1) ∷ []; next_lock = 3 },
)
unfolding for_map prune find_or_make upgrade is_alive HashMap.get HashMap.insert HashMap.retain
remade = refl

Reach-same_lock_iff_example : (◌≡◌ {A = String} "a" "b") ↔ (◌≡◌ {A = ℕ} 0 1)
unfolding HashSet.member
Reach-same_lock_iff_example = Reach-same_lock_iff "a" "b" 0 1 reach_three refl refl
