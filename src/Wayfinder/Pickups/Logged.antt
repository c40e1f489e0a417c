-- ===== src/Wayfinder/Pickups/Logged.antt =====
-- The progress and the log of src/queries/collectibles.rs agree.
use dd2_server.Prelude.{
  ℕ, ◌≡◌, refl, sym, ap, ◌∙◌, Bool, true, false, ◌||◌, Option, none, some, [], String, ◌==◌, nat_eq,
  string_eq, pair_eq, if◌then◌else◌, Bool-cases, inl, inr,
}
use dd2_server.Prelude.HashMap
use dd2_server.Prelude.HashMap.{HashMap, get-insert}
use dd2_server.Catalog.{Json}
use dd2_server.Catalog.Collectibles.{Numbers}
use dd2_server.Wayfinder.Tables.{Db, is_some}
use dd2_server.Wayfinder.Pickups.{
  Progress, LogRow, Pickups, OnMapRow, collect_log_source, collect_position_is_plausible,
  source_allowed, with_unlock, with_collect, or_now, was_collected, insert_log, log_first,
  record_collect_transition, lock_materialized_row, unlock_row, report_unlock, collect_row,
  collect_from, report_collect,
}

abbrev pub is_unlocked : Option Progress → Bool
is_unlocked none = false
is_unlocked (some row) = is_some row.unlocked_at

-- A source that is logged, with a position that can be.
pub record IsSound (entry : LogRow) : Type 0 where
  pub source : collect_log_source entry.source ≡ some entry.source
  pub place : collect_position_is_plausible entry.pos_x entry.pos_y entry.pos_z ≡ true

pub record IsEntry (progress : Option Progress) (entry : LogRow) : Type 0 where
  pub collected_at : was_collected progress ≡ some entry.collected_at
  pub unlocked : is_unlocked progress ≡ true
  pub sound : IsSound entry

abbrev pub IsLogged : Option Progress → Option LogRow → Type 0
IsLogged progress none = was_collected progress ≡ none
IsLogged progress (some entry) = IsEntry progress entry

abbrev pub AreLogged : Pickups → Type 0
AreLogged pickups =
    (at : ℕ × String) → IsLogged (HashMap.get at pickups.progress) (HashMap.get at pickups.log)

or_now_some : (t : Option ℕ) (now : ℕ) → is_some (or_now t now) ≡ true
or_now_some none now = refl
or_now_some (some t) now = refl

with_unlock-IsLogged :
    (map_uid slug : String) (now : ℕ) (progress : Option Progress) (entry : Option LogRow)
    → IsLogged progress entry
    → IsLogged (some (with_unlock map_uid slug now progress)) entry
with_unlock-IsLogged map_uid slug now none none h = refl
with_unlock-IsLogged map_uid slug now none (some entry) h = absurd (cc h.collected_at)
with_unlock-IsLogged map_uid slug now (some row) none h = h
with_unlock-IsLogged map_uid slug now (some row) (some entry) h = record {
  collected_at = h.collected_at;
  unlocked = or_now_some row.unlocked_at now;
  sound = h.sound;
}

-- What the log has after a first collection.
abbrev logged_by : LogRow → Option ℕ → Option LogRow → Option LogRow
logged_by entry (some t) old = old
logged_by entry none (some old) = some old
logged_by entry none none = some entry

-- A row that is collected now if it was not before.
collected_row :
    (entry : LogRow) (row : Progress) (t : Option ℕ) (old : Option LogRow)
    → IsSound entry
    → row.collected_at ≡ t
    → IsLogged (some row) old
    → IsLogged
        (some (with_collect entry.map_uid entry.slug entry.collected_at (some row)))
        (logged_by entry t old)
collected_row entry row none none s c h = record {
  collected_at = rw c refl;
  unlocked = or_now_some row.unlocked_at entry.collected_at;
  sound = s;
}
collected_row entry row none (some old) s c h = absurd (cc (c, h.collected_at))
collected_row entry row (some t) none s c h = absurd (cc (c, h))
collected_row entry row (some t) (some old) s c h = record {
  collected_at = rw c (sym c ∙ h.collected_at);
  unlocked = or_now_some row.unlocked_at entry.collected_at;
  sound = h.sound;
}

with_collect-IsLogged :
    (entry : LogRow) (progress : Option Progress) (old : Option LogRow)
    → IsSound entry
    → IsLogged progress old
    → IsLogged
        (some (with_collect entry.map_uid entry.slug entry.collected_at progress))
        (logged_by entry (was_collected progress) old)
with_collect-IsLogged entry none none s h = record {
  collected_at = refl;
  unlocked = refl;
  sound = s;
}
with_collect-IsLogged entry none (some old) s h = absurd (cc h.collected_at)
with_collect-IsLogged entry (some row) old s h =
    collected_row entry row row.collected_at old s refl h

module _ (at j : ℕ × String) (entry : LogRow) where
  unchanged :
      (log : HashMap (ℕ × String) LogRow)
      → HashMap.get j log ≡ (if at == j then HashMap.get at log else HashMap.get j log)
  unchanged log = elim (Bool-cases (at == j)) [
    | inl same ↦
        let k : at ≡ j = ((pair_eq {A = ℕ} {B = String}).beq_iff at j).0 same in
        rw same (ap (λ key. HashMap.get key log) (sym k))
    | inr other ↦ rw other refl
  ]

  get-insert_log :
      (old : Option LogRow) (log : HashMap (ℕ × String) LogRow)
      → HashMap.get at log ≡ old
      → HashMap.get j (insert_log at entry old log)
        ≡ (if at == j then logged_by entry none old else HashMap.get j log)
  get-insert_log none log e = get-insert at entry log j
  get-insert_log (some old) log e =
      unchanged log ∙ ap (λ o. if at == j then o else HashMap.get j log) e

  get-log_first :
      (t : Option ℕ) (log : HashMap (ℕ × String) LogRow)
      → HashMap.get j (log_first at entry t log)
        ≡ (if at == j then logged_by entry t (HashMap.get at log) else HashMap.get j log)
  get-log_first none log = get-insert_log (HashMap.get at log) log refl
  get-log_first (some t) log = unchanged log

record_collect_transition-AreLogged :
    (at : ℕ × String) (entry : LogRow) (pickups : Pickups)
    → IsSound entry
    → AreLogged pickups
    → AreLogged (record_collect_transition at entry pickups)
unfolding record_collect_transition
record_collect_transition-AreLogged at entry pickups s h j =
    let previous = HashMap.get at pickups.progress in
    let next = with_collect entry.map_uid entry.slug entry.collected_at previous in
    elim (Bool-cases (at == j)) [
      | inl same ↦
          rw
            (
              get-insert at next pickups.progress j,
              get-log_first at j entry (was_collected previous) pickups.log,
              same,
            )
            (with_collect-IsLogged entry previous (HashMap.get at pickups.log) s (h at))
      | inr other ↦
          rw
            (
              get-insert at next pickups.progress j,
              get-log_first at j entry (was_collected previous) pickups.log,
              other,
            )
            (h j)
    ]

unlock_row-AreLogged :
    (user_id : ℕ) (map_uid slug : String) (now : ℕ) (row : Option OnMapRow) (pickups : Pickups)
    → AreLogged pickups
    → AreLogged (unlock_row user_id map_uid slug now row pickups)
unlock_row-AreLogged user_id map_uid slug now none pickups h j = h j
unlock_row-AreLogged user_id map_uid slug now (some row) pickups h j =
    let at : ℕ × String = (user_id, row.collectible_key) in
    let next = with_unlock map_uid slug now (HashMap.get at pickups.progress) in
    elim (Bool-cases (at == j)) [
      | inl same ↦
          let k : at ≡ j = ((pair_eq {A = ℕ} {B = String}).beq_iff at j).0 same in
          rw (get-insert at next pickups.progress j, same, sym k)
            (with_unlock-IsLogged map_uid slug now (HashMap.get at pickups.progress)
              (HashMap.get at pickups.log) (h at))
      | inr other ↦ rw (get-insert at next pickups.progress j, other) (h j)
    ]

collect_row-AreLogged :
    (user_id : ℕ) (entry : LogRow) (row : Option OnMapRow) (pickups : Pickups)
    → IsSound entry
    → AreLogged pickups
    → AreLogged (collect_row user_id entry row pickups)
collect_row-AreLogged user_id entry none pickups s h = h
collect_row-AreLogged user_id entry (some row) pickups s h =
    elim (Bool-cases (source_allowed entry.source row)) [
      | inl allowed ↦
          rw allowed
            (record_collect_transition-AreLogged (user_id, row.collectible_key) entry pickups s h)
      | inr refused ↦ rw refused h
    ]

collect_log_source-again :
    (raw source : String)
    → collect_log_source raw ≡ some source
    → collect_log_source source ≡ some source
unfolding collect_log_source
collect_log_source-again raw source h = elim (Bool-cases ((raw == "zone") || (raw == "grant"))) [
  | inl known ↦ let k : raw ≡ source = cc (rw known at h) in rw (sym k, known) refl
  | inr other ↦ absurd (cc (rw other at h))
]

module _ {V : Type 0} (json : Json V) (numbers : Numbers V) (hash : V → String)
    (collectible_key : String → String → String) where
  collect_from-AreLogged :
      (user_id spec_id : ℕ) (entry : LogRow) (source : Option String) (db : Db V)
      (pickups : Pickups)
      → collect_log_source entry.source ≡ source
      → AreLogged pickups
      → AreLogged
          (collect_from json numbers hash collectible_key user_id spec_id entry source db pickups)
  collect_from-AreLogged user_id spec_id entry none db pickups e h = h
  collect_from-AreLogged user_id spec_id entry (some source) db pickups e h =
      elim (Bool-cases (collect_position_is_plausible entry.pos_x entry.pos_y entry.pos_z)) [
        | inl good ↦ rw good (
            collect_row-AreLogged user_id (record entry { source = source })
              (lock_materialized_row json numbers hash collectible_key entry.map_uid spec_id
                entry.slug db)
              pickups
              (record { source = collect_log_source-again entry.source source e; place = good }) h)
        | inr bad ↦ rw bad h
      ]

  -- The reports of players, in any order, whatever the other tables have when one is handled.
  pub data Reach : Pickups → Type 0 where
    start : Reach (record { progress = []; log = [] })
    unlocks :
        {pickups : Pickups} (user_id : ℕ) (map_uid slug : String) (spec_id now : ℕ) (db : Db V)
        → Reach pickups
        → Reach (
            report_unlock json numbers hash collectible_key user_id map_uid slug spec_id now db
              pickups)
    collects :
        {pickups : Pickups} (user_id spec_id : ℕ) (entry : LogRow) (db : Db V)
        → Reach pickups
        → Reach (report_collect json numbers hash collectible_key user_id spec_id entry db pickups)

  -- Whatever players report, in whatever order: where a player has no log row for a collectible,
  -- the progress does not have it collected, and where there is one, the progress has it collected
  -- at the same time and unlocked, the source is zone or grant, and the position is plausible.
  pub Reach-IsLogged :
      {pickups : Pickups}
      → Reach pickups
      → (at : ℕ × String) → IsLogged (HashMap.get at pickups.progress) (HashMap.get at pickups.log)
  unfolding report_unlock report_collect HashMap.get
  Reach-IsLogged start at = refl
  Reach-IsLogged (unlocks {pickups} user_id map_uid slug spec_id now db r) at =
      unlock_row-AreLogged user_id map_uid slug now
        (lock_materialized_row json numbers hash collectible_key map_uid spec_id slug db) pickups
        (Reach-IsLogged r) at
  Reach-IsLogged (collects {pickups} user_id spec_id entry db r) at =
      collect_from-AreLogged user_id spec_id entry (collect_log_source entry.source) db pickups refl
        (Reach-IsLogged r) at
