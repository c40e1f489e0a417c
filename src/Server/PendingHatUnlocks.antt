-- ===== src/Server/PendingHatUnlocks.antt =====
-- src/server2.rs, `PendingHatUnlocks`: the hat unlocks of one connection whose answer is owed.
pub mod Laws
pub mod Guards
mod Tests
use dd2_server.Prelude.{
  ℕ, zero, suc, Bool, true, false, not, Option, none, some, List, [], ◌∷◌, ◌++◌, String,
  if◌then◌else◌, leb, length, any, string_eq, pair_eq, ◌==◌,
}
use dd2_server.Prelude.HashSet
use dd2_server.Prelude.HashSet.{HashSet}

-- A map and a hat.
abbrev pub Key : Type 0
Key = String × String

abbrev pub Owed : Type 0
Owed = HashSet Key

abbrev pub max_pending_hat_unlocks : ℕ
max_pending_hat_unlocks = 16

-- `PendingHatUnlock`, by its key.
abbrev pub Guard : Type 0
Guard = Option Key

pub begin : String → String → Owed → Option Guard × Owed
begin map_uid slug owed =
    if leb max_pending_hat_unlocks (length owed)
    then (none, owed)
    else (let (new, owed') = HashSet.insert (map_uid, slug) owed in
        if new then (some (some (map_uid, slug)), owed') else (none, owed'))

pub any_for_map : String → Owed → Bool
any_for_map map_uid owed = any (λ pending. pending.0 == map_uid) owed

pub remove : Key → Owed → Bool × Owed
unfolding any_for_map
remove key owed = let owed' = HashSet.without key owed in (not (any_for_map key.0 owed'), owed')

-- The result, what the guard holds after it, and what is owed.
pub release : Guard → Owed → Bool × Guard × Owed
unfolding remove
release none owed = (false, none, owed)
release (some key) owed = let (drained, owed') = remove key owed in (drained, none, owed')

pub drop_guard : Guard → Owed → Owed
unfolding remove
drop_guard none owed = owed
drop_guard (some key) owed = (remove key owed).1

-- A connection: what is owed, and the guards of the validations that run.
pub record Connection : Type 0 where
  pub owed : Owed
  pub guards : List Guard

abbrev pub joined : Option Guard → List Guard → List Guard
joined none guards = guards
joined (some guard) guards = guard ∷ guards

pub begin_step : String → String → Connection → Connection
unfolding begin
begin_step map_uid slug c =
    let (guard, owed') = begin map_uid slug c.owed in
    record { owed = owed'; guards = joined guard c.guards }

-- The n-th validation releases its guard, which it still holds.
pub release_nth : ℕ → List Guard → Owed → List Guard × Owed
unfolding release
release_nth n [] owed = ([], owed)
release_nth zero (guard ∷ guards) owed =
    let (drained, guard', owed') = release guard owed in (guard' ∷ guards, owed')
release_nth (suc n) (guard ∷ guards) owed =
    let (guards', owed') = release_nth n guards owed in (guard ∷ guards', owed')

-- The n-th validation ends, normally or by a panic, and its guard is dropped.
pub drop_nth : ℕ → List Guard → Owed → List Guard × Owed
unfolding drop_guard
drop_nth n [] owed = ([], owed)
drop_nth zero (guard ∷ guards) owed = (guards, drop_guard guard owed)
drop_nth (suc n) (guard ∷ guards) owed =
    let (guards', owed') = drop_nth n guards owed in (guard ∷ guards', owed')

abbrev pub after : List Guard × Owed → Connection
after (guards, owed) = record { owed = owed; guards = guards }

-- Requests begin validations, and these release and drop their guards, in any order.
pub data Step : Connection → Connection → Type 0 where
  begins : (c : Connection) (map_uid slug : String) → Step c (begin_step map_uid slug c)
  releases : (c : Connection) (n : ℕ) → Step c (after (release_nth n c.guards c.owed))
  drops : (c : Connection) (n : ℕ) → Step c (after (drop_nth n c.guards c.owed))

pub data Reach : Connection → Type 0 where
  start : Reach (record { owed = []; guards = [] })
  next : {c d : Connection} → Reach c → Step c d → Reach d
