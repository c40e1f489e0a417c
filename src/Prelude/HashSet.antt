-- ===== src/Prelude/HashSet.antt =====
-- std::collections::HashSet as a list of its members. The code never reads their order.
use Prim.Native.Nat.{◌≤◌, ◌<◌}
use mathlib.Core.Path.{◌≡◌}
use mathlib.Core.Bool.{Bool, true, false, ◌||◌}
use mathlib.Core.List.{List, [], ◌∷◌}
use native.Mathlib.Omega.{arith}
use dd2_server.Prelude.Tests.{if◌then◌else◌}
use dd2_server.Prelude.Lists.{length}
use dd2_server.Prelude.Equality.{Eq, ◌==◌}

abbrev pub HashSet : Type 0 → Type 0
HashSet K = List K

module _ {K : Type 0} ⦃e : Eq K⦄ where
  unfoldable pub member : K → HashSet K → Bool
  member k [] = false
  member k (x ∷ set) = x == k || member k set

  unfoldable pub without : K → HashSet K → HashSet K
  without k [] = []
  without k (x ∷ set) = let rest = without k set in if x == k then rest else x ∷ rest

  -- `insert`, with whether the member is new.
  unfoldable pub insert : K → HashSet K → Bool × HashSet K
  unfolding member
  insert k set = if member k set then (false, set) else (true, k ∷ set)

  pub member-without :
      (k j : K) (set : HashSet K)
      → member j (without k set) ≡ (if k == j then false else member j set)
  unfolding member without
  member-without k j [] = ground arith
  member-without k j (x ∷ set) =
      ground (arith, member-without k j set, e.beq_iff x k, e.beq_iff x j, e.beq_iff k j)

  pub length-without_le : (k : K) (set : HashSet K) → length (without k set) ≤ length set
  unfolding without
  length-without_le k [] = omega arith
  length-without_le k (x ∷ set) = ground (arith, length-without_le k set)

  pub length-without_lt :
      (k : K) (set : HashSet K) → member k set ≡ true → length (without k set) < length set
  unfolding member without
  length-without_lt k [] h = cc
  length-without_lt k (x ∷ set) h = ground (arith, length-without_lt k set, length-without_le k set)

  -- A set with no member twice is no longer than one that has its members.
  abbrev pub IsDistinct : HashSet K → Type 0
  IsDistinct [] = Unit
  IsDistinct (x ∷ set) = (member x set ≡ false) × IsDistinct set

  pub length-member_le :
      (a b : HashSet K)
      → IsDistinct a
      → ((k : K) → member k a ≡ true → member k b ≡ true)
      → length a ≤ length b
  unfolding member
  length-member_le [] b h sub = omega arith
  length-member_le (x ∷ a) b (new, h) sub =
      let ih =
        length-member_le a (without x b) h
          (λ k i. ground (arith, member-without x k b, sub k, e.beq_iff x k)) in
      let here : member x b ≡ true = sub x (ground (arith, e.beq_iff x x)) in
      omega (arith, ih, length-without_lt x b here)
