-- ===== src/Server/PendingHatUnlocks/Tests.antt =====
-- Runs of the hat unlocks of src/server2.rs: two of one map, answered by the last release.
use dd2_server.Prelude.{◌≡◌, refl, true, false, none, some, [], ◌∷◌, string_eq, pair_eq}
use dd2_server.Prelude.HashSet
use dd2_server.Server.PendingHatUnlocks.{
  Owed, Connection, begin, any_for_map, remove, release, drop_guard, begin_step, drop_nth, Reach,
  start, next, begins, drops,
}
use dd2_server.Server.PendingHatUnlocks.Guards.{IsCovered, Reach-IsCovered}

abbrev two : Owed
two = ("map", "b") ∷ ("map", "a") ∷ []

-- The first release leaves the map's other hat, the second drains it; a duplicate is refused.
answered :
    (begin "map" "a" [] ≡ (some (some ("map", "a")), ("map", "a") ∷ []))
    × (begin "map" "a" two ≡ (none, two))
    × ((release (some ("map", "a")) two).0 ≡ false)
    × ((release (some ("map", "b")) (("map", "b") ∷ [])).0 ≡ true)
unfolding begin release remove any_for_map HashSet.insert HashSet.member HashSet.without
answered = (refl, refl, refl, refl)

abbrev begun : Connection
begun = record { owed = ("map", "a") ∷ []; guards = some ("map", "a") ∷ [] }

reached : Reach begun
unfolding begin_step begin HashSet.insert HashSet.member
reached = next start (begins _ "map" "a")

ended : Reach (record { owed = []; guards = [] })
unfolding drop_nth drop_guard remove any_for_map HashSet.without
ended = next reached (drops _ 0)

Reach-IsCovered_example : IsCovered begun
Reach-IsCovered_example = Reach-IsCovered reached
