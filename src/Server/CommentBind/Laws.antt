-- ===== src/Server/CommentBind/Laws.antt =====
-- How `comment_bind_admit` of src/server2.rs spaces the lookups of a map's comment.
use dd2_server.Prelude.{
  ℕ, ◌+◌, ◌*◌, ◌≤◌, ◌<◌, ◌≡◌, refl, inl, inr, Bool, true, false, Option, none, some, [], String,
  if◌then◌else◌, length, string_eq, ◌==◌, arith, Bool-cases, beq_refl, ap, ◌∙◌, List, ◌∷◌, All,
}
use dd2_server.Prelude.HashMap
use dd2_server.Prelude.HashMap.{
  IsUnique, get-insert, get-retain, retain-IsUnique, insert-IsUnique, length-insert_le,
  length-insert_old, length-retain_le,
}
use dd2_server.Server.CommentBind.{
  CommentBindState, States, skip, schedule, comment_bind_backoff, prune, next_attempts, is_waiting,
  admit_found, comment_bind_admit, rescheduled, comment_bind_reschedule, CommentBindOutcome, bound,
  not_on_nadeo, no_comment, no_dpp_url, spec_not_found, off_nadeo, conclude,
}

-- Below the cap after pruning, so one more entry fits.
length-prune : (now cap : ℕ) (state : States) → 0 < cap → length (prune now cap state) < cap
unfolding prune
length-prune now cap state h = ground arith

-- The table never outgrows the cap, whatever map is reported.
pub length-comment_bind_admit :
    (map_uid : String) (now cap : ℕ) (state : States)
    → 0 < cap
    → length (comment_bind_admit map_uid now cap state).1 ≤ cap
unfolding comment_bind_admit admit_found
length-comment_bind_admit map_uid now cap state h = ground (
  arith,
  length-prune now cap state h,
  length-insert_le map_uid
      (record {
        next_attempt =
            now + comment_bind_backoff (next_attempts (HashMap.get map_uid (prune now cap state)));
        attempts = next_attempts (HashMap.get map_uid (prune now cap state));
      })
      (prune now cap state),
)

prune_roomy : (now cap : ℕ) (state : States) → length state < cap → prune now cap state ≡ state
unfolding prune
prune_roomy now cap state h = ground arith

pub comment_bind_admit_exact :
    (map_uid : String) (now cap : ℕ) (state : States)
    → length state < cap
    → ((comment_bind_admit map_uid now cap state).0
        ≡ (if is_waiting now (HashMap.get map_uid state) then skip else schedule))
      × (HashMap.get map_uid (comment_bind_admit map_uid now cap state).1 ≡ (
          if is_waiting now (HashMap.get map_uid state)
          then HashMap.get map_uid state
          else some (record {
            next_attempt = now + comment_bind_backoff (next_attempts (HashMap.get map_uid state));
            attempts = next_attempts (HashMap.get map_uid state);
          })))
unfolding comment_bind_admit admit_found
comment_bind_admit_exact map_uid now cap state h =
    rw (prune_roomy now cap state h)
      (elim (Bool-cases (is_waiting now (HashMap.get map_uid state))) [
        | inl w ↦ rw w (refl, refl)
        | inr d ↦ rw d (refl, rw (get-insert, beq_refl map_uid))
      ])

-- How many of a run of reports, each a map and an instant, schedule a lookup of one map.
unfoldable pub scheduled : String → ℕ → States → List (String × ℕ) → ℕ
scheduled uid cap state [] = 0
scheduled uid cap state ((map_uid, now) ∷ reports) =
    let (admission, state') = comment_bind_admit map_uid now cap state in
    (if map_uid == uid then elim admission [ skip ↦ 0 | schedule ↦ 1 ] else 0)
    + scheduled uid cap state' reports

get-comment_bind_admit_ne :
    (map_uid uid : String) (now cap : ℕ) (state : States)
    → length state < cap
    → (map_uid == uid) ≡ false
    → HashMap.get uid (comment_bind_admit map_uid now cap state).1 ≡ HashMap.get uid state
unfolding comment_bind_admit admit_found
get-comment_bind_admit_ne map_uid uid now cap state h other =
    rw (prune_roomy now cap state h)
      (elim (Bool-cases (is_waiting now (HashMap.get map_uid state))) [
        | inl w ↦ rw w refl
        | inr d ↦ rw d (rw (get-insert, other))
      ])

length-comment_bind_admit_suc :
    (map_uid : String) (now cap : ℕ) (state : States)
    → length state < cap
    → length (comment_bind_admit map_uid now cap state).1 ≤ length state + 1
unfolding comment_bind_admit admit_found
length-comment_bind_admit_suc map_uid now cap state h = rw (prune_roomy now cap state h) (
    ground (
      arith,
      length-insert_le map_uid
          (record {
            next_attempt = now + comment_bind_backoff (next_attempts (HashMap.get map_uid state));
            attempts = next_attempts (HashMap.get map_uid state);
          })
          state,
    ))

waiting_skips :
    (uid : String) (now cap : ℕ) (state : States) (entry : CommentBindState)
    → length state < cap
    → HashMap.get uid state ≡ some entry
    → now < entry.next_attempt
    → comment_bind_admit uid now cap state ≡ (skip, state)
unfolding comment_bind_admit admit_found
waiting_skips uid now cap state entry h found soon = rw (prune_roomy now cap state h) (ground arith)

-- While a map waits for its next attempt, and the reports leave room in the table, no report of any
-- map schedules a lookup of that map.
pub scheduled-eq-zero :
    (uid : String) (cap : ℕ) (state : States) (entry : CommentBindState)
    (reports : List (String × ℕ))
    → HashMap.get uid state ≡ some entry
    → length state + length reports ≤ cap
    → All (λ report. report.1 < entry.next_attempt) reports
    → scheduled uid cap state reports ≡ 0
unfolding scheduled
scheduled-eq-zero uid cap state entry [] found room early = refl
scheduled-eq-zero uid cap state entry ((map_uid, now) ∷ reports) found room (soon, early) =
    let grown = length-comment_bind_admit_suc map_uid now cap state (omega arith) in
    elim (Bool-cases (map_uid == uid)) [
      | inl same ↦
          rw
            (
              (string_eq.beq_iff map_uid uid).0 same,
              beq_refl uid,
              waiting_skips uid now cap state entry (omega arith) found soon,
            )
            (omega (arith, scheduled-eq-zero uid cap state entry reports found (omega arith) early))
      | inr other ↦ rw other (
          omega (
            arith,
            scheduled-eq-zero uid cap (comment_bind_admit map_uid now cap state).1 entry reports
                (get-comment_bind_admit_ne map_uid uid now cap state (omega arith) other ∙ found)
                (omega (arith, grown)) early,
          ))
    ]

-- The outcomes after which only the mapper can change what a lookup finds.
abbrev pub settles : CommentBindOutcome → Bool
settles bound = true
settles not_on_nadeo = false
settles no_comment = true
settles no_dpp_url = true
settles spec_not_found = true
settles off_nadeo = false

conclude_settled :
    (map_uid : String) (now : ℕ) (outcome : CommentBindOutcome) (state : States)
    → settles outcome ≡ true
    → conclude map_uid now outcome state ≡ comment_bind_reschedule map_uid now (60 * 60) true state
unfolding conclude
conclude_settled map_uid now bound state h = refl
conclude_settled map_uid now not_on_nadeo state h = cc
conclude_settled map_uid now no_comment state h = refl
conclude_settled map_uid now no_dpp_url state h = refl
conclude_settled map_uid now spec_not_found state h = refl
conclude_settled map_uid now off_nadeo state h = cc

rescheduled_reset :
    (next : ℕ) (found : Option CommentBindState)
    → rescheduled next true found ≡ record { next_attempt = next; attempts = 0 }
rescheduled_reset next none = refl
rescheduled_reset next (some entry) = refl

get-conclude :
    (map_uid : String) (now : ℕ) (outcome : CommentBindOutcome) (state : States)
    → settles outcome ≡ true
    → HashMap.get map_uid (conclude map_uid now outcome state)
      ≡ some (record { next_attempt = now + 3600; attempts = 0 })
unfolding comment_bind_reschedule
get-conclude map_uid now outcome state h =
    rw (conclude_settled map_uid now outcome state h, get-insert, beq_refl map_uid)
      (ap some (rescheduled_reset (now + 3600) (HashMap.get map_uid state)))

-- After an attempt that bound the map, or that found no comment, no link or no spec, the table has
-- the next attempt an hour later with the count of attempts at 0. So with room in the table a
-- report of the map within the hour schedules nothing and changes nothing.
pub comment_bind_admit-conclude :
    (map_uid : String) (now later cap : ℕ) (outcome : CommentBindOutcome) (state : States)
    → settles outcome ≡ true
    → length (conclude map_uid now outcome state) < cap
    → later < now + 3600
    → (HashMap.get map_uid (conclude map_uid now outcome state)
        ≡ some (record { next_attempt = now + 3600; attempts = 0 }))
      × (comment_bind_admit map_uid later cap (conclude map_uid now outcome state)
          ≡ (skip, conclude map_uid now outcome state))
comment_bind_admit-conclude map_uid now later cap outcome state settled room soon =
    let found = get-conclude map_uid now outcome state settled in
    (found, waiting_skips map_uid later cap _ _ room found soon)
