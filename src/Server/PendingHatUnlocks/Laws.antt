-- ===== src/Server/PendingHatUnlocks/Laws.antt =====
-- When `PendingHatUnlocks` of src/server2.rs takes an unlock, and which release answers.
use dd2_server.Prelude.{
  ◌≡◌, refl, ◌↔◌, true, false, not, ◌&&◌, none, some, [], ◌∷◌, String, if◌then◌else◌, length,
  string_eq, pair_eq, ◌==◌, arith, beq_refl, ltb,
}
use dd2_server.Prelude.HashSet
use dd2_server.Prelude.HashSet.{member-without}
use dd2_server.Server.PendingHatUnlocks.{Owed, begin, any_for_map, release}

-- An unlock is taken exactly when it is not owed yet and fewer than 16 are; it is then owed, and
-- nothing changes otherwise.
pub begin_exact :
    (map_uid slug : String) (owed : Owed)
    → begin map_uid slug owed ≡ (
        if not (HashSet.member (map_uid, slug) owed) && ltb (length owed) 16
        then (some (some (map_uid, slug)), (map_uid, slug) ∷ owed)
        else (none, owed))
unfolding begin HashSet.insert
begin_exact map_uid slug owed = ground arith

any_for_map-member :
    (map_uid slug : String) (owed : Owed)
    → any_for_map map_uid owed ≡ false
    → HashSet.member (map_uid, slug) owed ≡ false
unfolding any_for_map HashSet.member
any_for_map-member map_uid slug [] h = refl
any_for_map-member map_uid slug ((m, t) ∷ owed) h =
    ground (arith, any_for_map-member map_uid slug owed)

pub member-any_for_map :
    (map_uid : String) (owed : Owed)
    → ((slug : String) → HashSet.member (map_uid, slug) owed ≡ false)
    → any_for_map map_uid owed ≡ false
unfolding any_for_map HashSet.member
member-any_for_map map_uid [] h = refl
member-any_for_map map_uid ((m, t) ∷ owed) h =
    ground
      (arith, h t, beq_refl t, member-any_for_map map_uid owed (λ slug. ground (arith, h slug)))

drains→ :
    (map_uid slug : String) (owed : Owed) (other : String)
    → any_for_map map_uid (HashSet.without (map_uid, slug) owed) ≡ false
    → (HashSet.member (map_uid, other) owed && not (other == slug)) ≡ false
drains→ map_uid slug owed other h = ground (
  arith,
  any_for_map-member map_uid other (HashSet.without (map_uid, slug) owed) h,
  member-without (map_uid, slug) (map_uid, other) owed,
  beq_refl map_uid,
  string_eq.beq_iff slug other,
  string_eq.beq_iff other slug,
)

drains← :
    (map_uid slug : String) (owed : Owed) (other : String)
    → (HashSet.member (map_uid, other) owed && not (other == slug)) ≡ false
    → HashSet.member (map_uid, other) (HashSet.without (map_uid, slug) owed) ≡ false
drains← map_uid slug owed other h = ground (
  arith,
  member-without (map_uid, slug) (map_uid, other) owed,
  beq_refl map_uid,
  string_eq.beq_iff slug other,
  string_eq.beq_iff other slug,
)

-- Releasing an unlock reports true exactly when no other hat of its map is owed an answer: only
-- the release that drains the map pushes the answer.
pub release-drains_iff :
    (map_uid slug : String) (owed : Owed)
    → ((release (some (map_uid, slug)) owed).0 ≡ true)
      ↔ ((other : String) → (HashSet.member (map_uid, other) owed && not (other == slug)) ≡ false)
unfolding release
release-drains_iff map_uid slug owed = (
  (λ h other. drains→ map_uid slug owed other (ground arith)),
  λ h.
      let none_left =
        member-any_for_map map_uid (HashSet.without (map_uid, slug) owed)
          (λ other. drains← map_uid slug owed other (h other)) in
      rw none_left,
)
