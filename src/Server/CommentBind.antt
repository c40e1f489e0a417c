-- ===== src/Server/CommentBind.antt =====
-- src/server2.rs, `comment_bind_admit` and its neighbours: how often a map's published comment is
-- looked up. Instants and durations are numbers of seconds.
pub mod Laws
mod Tests
use dd2_server.Prelude.{
  ℕ, zero, suc, ◌+◌, ◌*◌, min, Bool, true, false, not, ◌||◌, Option, none, some, [], String,
  if◌then◌else◌, ltb, leb, length, string_eq, nat_eq, ◌==◌,
}
use Prim.Native.String.{len}
use dd2_server.Prelude.HashMap
use dd2_server.Prelude.HashMap.{HashMap}

pub record CommentBindState : Type 0 where
  pub next_attempt : ℕ
  pub attempts : ℕ

abbrev pub States : Type 0
States = HashMap String CommentBindState

pub data CommentBindAdmission : Type 0 where
  skip schedule : CommentBindAdmission

pub comment_bind_backoff : ℕ → ℕ
comment_bind_backoff zero = 5 * 60
comment_bind_backoff (suc zero) = 15 * 60
comment_bind_backoff (suc (suc n)) = 60 * 60

-- `u8::saturating_add(1)`
abbrev pub saturating_suc : ℕ → ℕ
saturating_suc n = min (n + 1) 255

-- Full: entries that are due are dropped, and all of them if that makes no room.
pub prune : ℕ → ℕ → States → States
prune now cap state =
    if leb cap (length state)
    then (let kept = HashMap.retain (λ _ entry. ltb now entry.next_attempt) state in
        if leb cap (length kept) then [] else kept)
    else state

abbrev pub next_attempts : Option CommentBindState → ℕ
next_attempts none = 0
next_attempts (some entry) = saturating_suc entry.attempts

abbrev pub is_waiting : ℕ → Option CommentBindState → Bool
is_waiting now none = false
is_waiting now (some entry) = ltb now entry.next_attempt

pub admit_found : String → ℕ → Option CommentBindState → States → CommentBindAdmission × States
admit_found map_uid now found state =
    if is_waiting now found
    then (skip, state)
    else (let attempts' = next_attempts found in
        (
          schedule,
          HashMap.insert map_uid
              (record { next_attempt = now + comment_bind_backoff attempts'; attempts = attempts' })
              state,
        ))

pub comment_bind_admit : String → ℕ → ℕ → States → CommentBindAdmission × States
comment_bind_admit map_uid now cap state =
    let pruned = prune now cap state in admit_found map_uid now (HashMap.get map_uid pruned) pruned

abbrev pub rescheduled : ℕ → Bool → Option CommentBindState → CommentBindState
rescheduled next reset none = record { next_attempt = next; attempts = 0 }
rescheduled next reset (some entry) = record {
  next_attempt = next;
  attempts = (if reset then 0 else entry.attempts);
}

pub comment_bind_reschedule : String → ℕ → ℕ → Bool → States → States
comment_bind_reschedule map_uid now delay reset state =
    HashMap.insert map_uid (rescheduled (now + delay) reset (HashMap.get map_uid state)) state

-- How an attempt ended.
pub data CommentBindOutcome : Type 0 where
  bound not_on_nadeo no_comment no_dpp_url spec_not_found off_nadeo : CommentBindOutcome

-- What the attempt's end does to the debounce, at the instant `now`.
pub conclude : String → ℕ → CommentBindOutcome → States → States
conclude map_uid now bound state = comment_bind_reschedule map_uid now (60 * 60) true state
conclude map_uid now not_on_nadeo state = state
conclude map_uid now no_comment state = comment_bind_reschedule map_uid now (60 * 60) true state
conclude map_uid now no_dpp_url state = comment_bind_reschedule map_uid now (60 * 60) true state
conclude map_uid now spec_not_found state = comment_bind_reschedule map_uid now (60 * 60) true state
conclude map_uid now off_nadeo state = state

abbrev pub dd2_map_uid : String
dd2_map_uid = "DeepDip2__The_Storm_Is_Here"

-- The part of `observe_map_for_comment_bind` before its task: whether one is spawned.
unfoldable pub observe_map : Bool → String → ℕ → States → Bool × States
observe_map configured map_uid now state =
    if map_uid == dd2_map_uid || not (len map_uid == 27)
    then (false, state)
    else if not configured
    then (false, state)
    else (let (admission, state') = comment_bind_admit map_uid now 8192 state in
        (elim admission [ skip ↦ false | schedule ↦ true ], state'))
