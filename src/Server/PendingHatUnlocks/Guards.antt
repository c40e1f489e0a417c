-- ===== src/Server/PendingHatUnlocks/Guards.antt =====
-- What is owed by `PendingHatUnlocks` of src/server2.rs is what its live guards stand for.
use dd2_server.Prelude.{
  ℕ, zero, suc, ◌+◌, ◌≤◌, ◌≡◌, refl, inl, inr, Bool, true, false, none, some, List, [], ◌∷◌, String,
  if◌then◌else◌, length, string_eq, pair_eq, ◌==◌, arith, Bool-cases, not, ◌&&◌, ltb, ltb→lt,
}
use dd2_server.Prelude.HashSet
use dd2_server.Prelude.HashSet.{member-without, length-without_le}
use dd2_server.RateLimit.{bit}
use dd2_server.Server.PendingHatUnlocks.{
  Key, Owed, Guard, Connection, any_for_map, begin_step, release_nth, drop_nth, after, Step, begins,
  releases, drops, Reach, start, next, max_pending_hat_unlocks,
}
use dd2_server.Server.PendingHatUnlocks.Laws.{begin_exact, member-any_for_map}

abbrev pub holds : Key → Guard → ℕ
holds k none = 0
holds k (some key) = bit (key == k)

-- How many guards hold a key.
abbrev pub held : Key → List Guard → ℕ
held k [] = 0
held k (guard ∷ guards) = holds k guard + held k guards

-- Each key is held by one guard if it is owed and by none if it is not, and 16 at most are owed.
pub record IsCovered (c : Connection) : Type 0 where
  pub covered : (k : Key) → held k c.guards ≡ bit (HashSet.member k c.owed)
  pub bounded : length c.owed ≤ max_pending_hat_unlocks

-- A step of the guards takes nothing away, or one key from a guard and from what is owed.
pub data Taken (guards : List Guard) (owed : Owed) (r : List Guard × Owed) : Type 0 where
  nothing : ((k : Key) → held k r.0 ≡ held k guards) → r.1 ≡ owed → Taken guards owed r
  one :
      (key : Key)
      → ((k : Key) → held k r.0 + bit (key == k) ≡ held k guards)
      → r.1 ≡ HashSet.without key owed
      → Taken guards owed r

Taken-cons :
    (guard : Guard) (guards : List Guard) (owed : Owed) (r : List Guard × Owed)
    → Taken guards owed r
    → Taken (guard ∷ guards) owed (guard ∷ r.0, r.1)
Taken-cons guard guards owed r (nothing same e) = nothing (λ k. omega (arith, same k)) e
Taken-cons guard guards owed r (one key less e) = one key (λ k. omega (arith, less k)) e

release_nth-Taken :
    (n : ℕ) (guards : List Guard) (owed : Owed) → Taken guards owed (release_nth n guards owed)
unfolding release_nth
release_nth-Taken n [] owed = nothing (λ k. refl) refl
release_nth-Taken zero (none ∷ guards) owed = nothing (λ k. refl) refl
release_nth-Taken zero (some key ∷ guards) owed = one key (λ k. omega arith) refl
release_nth-Taken (suc n) (guard ∷ guards) owed =
    Taken-cons guard guards owed (release_nth n guards owed) (release_nth-Taken n guards owed)

drop_nth-Taken :
    (n : ℕ) (guards : List Guard) (owed : Owed) → Taken guards owed (drop_nth n guards owed)
unfolding drop_nth
drop_nth-Taken n [] owed = nothing (λ k. refl) refl
drop_nth-Taken zero (none ∷ guards) owed = nothing (λ k. omega arith) refl
drop_nth-Taken zero (some key ∷ guards) owed = one key (λ k. omega arith) refl
drop_nth-Taken (suc n) (guard ∷ guards) owed =
    Taken-cons guard guards owed (drop_nth n guards owed) (drop_nth-Taken n guards owed)

Taken-IsCovered :
    (c : Connection) (r : List Guard × Owed)
    → Taken c.guards c.owed r
    → IsCovered c
    → IsCovered (after r)
Taken-IsCovered c r (nothing same e) v = record {
  covered = λ k. rw e (omega (arith, same k, v.covered k));
  bounded = rw e v.bounded;
}
Taken-IsCovered c r (one key less e) v = record {
  covered = λ k. rw (e, member-without) (ground (arith, less k, v.covered k));
  bounded = rw e (omega (arith, length-without_le key c.owed, v.bounded));
}

begin_step_lem :
    (map_uid slug : String) (c : Connection)
    → begin_step map_uid slug c ≡ (
        if not (HashSet.member (map_uid, slug) c.owed) && ltb (length c.owed) 16
        then record { owed = (map_uid, slug) ∷ c.owed; guards = some (map_uid, slug) ∷ c.guards }
        else c)
unfolding begin_step
begin_step_lem map_uid slug c =
    rw begin_exact
      (elim (Bool-cases (not (HashSet.member (map_uid, slug) c.owed) && ltb (length c.owed) 16)) [
        | inl taken ↦ rw taken
        | inr refused ↦ rw refused
      ])

covers :
    (key k : Key) (owed : Owed) (n : ℕ)
    → HashSet.member key owed ≡ false
    → n ≡ bit (HashSet.member k owed)
    → bit (key == k) + n ≡ bit (HashSet.member k (key ∷ owed))
unfolding HashSet.member
covers key k owed n new e = elim (Bool-cases (key == k)) [
  | inl same ↦
      let absent : HashSet.member k owed ≡ false = rw ((pair_eq.beq_iff key k).0 same) at new in
      rw same (rw e (rw absent))
  | inr other ↦ rw other (omega (arith, e))
]

taken_test : (a b : Bool) → (not a && b) ≡ true → (a ≡ false) × (b ≡ true)
taken_test a b h = ground arith

begin_step-IsCovered :
    (map_uid slug : String) (c : Connection) → IsCovered c → IsCovered (begin_step map_uid slug c)
begin_step-IsCovered map_uid slug c v =
    rw begin_step_lem
      (elim (Bool-cases (not (HashSet.member (map_uid, slug) c.owed) && ltb (length c.owed) 16)) [
        | inl taken ↦
            let (new, room) = taken_test _ _ taken in
            rw taken (record {
              covered = λ k. covers (map_uid, slug) k c.owed _ new (v.covered k);
              bounded = ltb→lt _ _ room;
            })
        | inr refused ↦ rw refused v
      ])

Step-IsCovered : {c d : Connection} → Step c d → IsCovered c → IsCovered d
Step-IsCovered (begins c map_uid slug) v = begin_step-IsCovered map_uid slug c v
Step-IsCovered (releases c n) v = Taken-IsCovered c _ (release_nth-Taken n c.guards c.owed) v
Step-IsCovered (drops c n) v = Taken-IsCovered c _ (drop_nth-Taken n c.guards c.owed) v

-- In every connection that requests, releases and drops lead to, in any order, a key is owed
-- exactly when one live guard holds it, no key is held twice, and 16 at most are owed.
pub Reach-IsCovered : {c : Connection} → Reach c → IsCovered c
unfolding HashSet.member
Reach-IsCovered start = record { covered = λ k. refl; bounded = omega arith }
Reach-IsCovered (next r s) = Step-IsCovered s (Reach-IsCovered r)

not_held : (k : Key) (owed : Owed) → 0 ≡ bit (HashSet.member k owed) → HashSet.member k owed ≡ false
not_held k owed h = ground arith

-- Once every validation has ended, however it ended, no answer is withheld for any map.
pub any_for_map-ended :
    {owed : Owed} (map_uid : String)
    → Reach (record { owed = owed; guards = [] })
    → any_for_map map_uid owed ≡ false
any_for_map-ended {owed} map_uid r =
    member-any_for_map map_uid owed
      (λ slug. not_held (map_uid, slug) owed ((Reach-IsCovered r).covered (map_uid, slug)))
