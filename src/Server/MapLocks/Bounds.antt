-- ===== src/Server/MapLocks/Bounds.antt =====
-- The registry of locks in src/server2.rs does not outgrow the tasks that hold locks.
use dd2_server.Prelude.{
  ℕ, ◌≤◌, ◌≡◌, inl, inr, true, Option, none, some, List, [], ◌∷◌, String, if◌then◌else◌, length,
  string_eq, nat_eq, pair_eq, ◌==◌, arith, Bool-cases,
}
use dd2_server.Prelude.HashMap
use dd2_server.Prelude.HashMap.{HashMap, get-retain, retain_value, IsUnique, retain-IsUnique}
use dd2_server.Prelude.HashSet
use dd2_server.Prelude.HashSet.{IsDistinct, length-member_le}
use dd2_server.Server.MapLocks.{Locks, is_alive, prune, Reach}
use dd2_server.Server.MapLocks.Laws.{is_held, IsRegistry, Reach-IsRegistry, prune-IsRegistry}

get-member :
    (m : String) (l : ℕ) (locks : HashMap String ℕ)
    → IsUnique locks
    → is_held m l locks ≡ true
    → HashMap.get m locks ≡ some l
unfolding HashMap.get HashSet.member
get-member m l [] u h = cc
get-member m l ((n, k) ∷ locks) (new, u) h =
    ground (arith, get-member m l locks u, string_eq.beq_iff n m, nat_eq.beq_iff k l)

unique-IsDistinct : (locks : HashMap String ℕ) → IsUnique locks → IsDistinct locks
unfolding HashSet.member
unique-IsDistinct [] u = tt
unique-IsDistinct ((m, l) ∷ locks) (new, u) = (
  elim (Bool-cases (is_held m l locks)) [
    | inl twice ↦ ground (arith, get-member m l locks u twice, new)
    | inr once ↦ once
  ],
  unique-IsDistinct locks u,
)

-- The map that a lock is held for.
holder_of : (l : ℕ) → List (String × ℕ) → String
holder_of l [] = ""
holder_of l ((m, k) ∷ holders) = if k == l then m else holder_of l holders

holder_of_lem :
    (l : ℕ) (holders : List (String × ℕ))
    → is_alive holders l ≡ true
    → is_held (holder_of l holders) l holders ≡ true
unfolding is_alive holder_of HashSet.member
holder_of_lem l [] h = cc
holder_of_lem l ((m, k) ∷ holders) h =
    ground (arith, holder_of_lem l holders, string_eq.beq_iff m m)

module _ (s : Locks) (v : IsRegistry s) where
  retained :
      (r : Option ℕ) (l : ℕ)
      → retain_value (is_alive s.holders) r ≡ some l
      → (r ≡ some l) × (is_alive s.holders l ≡ true)
  retained none l h = cc
  retained (some k) l h = ground arith

  pruned-held :
      (m : String) (l : ℕ) → is_held m l (prune s).locks ≡ true → is_held m l s.holders ≡ true
  unfolding prune
  pruned-held m l h =
      let w = prune-IsRegistry s v in
      let found = get-member m l (prune s).locks w.unique h in
      let (was, alive) =
        retained (HashMap.get m s.locks) l
          (rw (get-retain (λ uid lock. is_alive s.holders lock) m s.locks v.unique) at found) in
      let holder = holder_of_lem l s.holders alive in
      let same = v.apart m _ l was (v.registered _ l holder) in rw same holder

-- A request's `retain` leaves no more locks in the registry than are held at that time.
pub length-prune_le : {s : Locks} → Reach s → length (prune s).locks ≤ length s.holders
length-prune_le {s} r =
    let v = Reach-IsRegistry r in
    length-member_le (prune s).locks s.holders
      (unique-IsDistinct (prune s).locks (prune-IsRegistry s v).unique)
      (λ (m, l) h. pruned-held s v m l h)
