-- ===== src/Hats/EquipLimiter/Laws.antt =====
-- What `HatEquipRateLimiter` of src/queries/hats.rs lets through.
use dd2_server.Prelude.{
  ℕ, ◌+◌, ◌-◌, ◌*◌, ◌≤◌, ◌<◌, ◌≡◌, refl, ◌⊎◌, ◌↔◌, inl, inr, Bool, true, false, some, List, [], ◌∷◌,
  All, arith, Option-cases, ap,
}
use dd2_server.Prelude.Lru.{Lru}
use dd2_server.RateLimit.{FixedWindow, bit, admitted, admitted-le}
use dd2_server.Hats.EquipLimiter.{
  HatEquipRateVerdict, allowed, per_user, global, Limits, HatEquipRateState, check_at,
}

abbrev pub is_allowed : HatEquipRateVerdict → Bool
is_allowed allowed = true
is_allowed per_user = false
is_allowed global = false

module _ (lru : Lru ℕ ℕ) (l : Limits) where
  open lru use {peek, put, peek-put}

  too_soon-previous :
      (user now : ℕ) (s : HatEquipRateState lru)
      → (check_at lru l user now s).0 ≡ per_user
      → (previous : ℕ) × (peek s.attempts user ≡ some previous)
        × (now - previous < l.per_user_interval)
        × ((check_at lru l user now s).1 ≡ s)
  unfolding check_at
  too_soon-previous user now s h = elim (Option-cases (peek s.attempts user)) [
    | inl e ↦ absurd (ground arith)
    | inr (previous, e) ↦ (previous, e, ground arith, ground arith)
  ]

  previous-too_soon :
      (user now previous : ℕ) (s : HatEquipRateState lru)
      → peek s.attempts user ≡ some previous
      → now - previous < l.per_user_interval
      → check_at lru l user now s ≡ (per_user, s)
  unfolding check_at
  previous-too_soon user now previous s e h = ground arith

  -- A change is refused as too early exactly when the previous one on record is less than
  -- `per_user_interval` ago, and then nothing is recorded.
  pub per_user_iff :
      (user now : ℕ) (s : HatEquipRateState lru)
      → ((check_at lru l user now s).0 ≡ per_user) ↔ (
          (previous : ℕ) × (peek s.attempts user ≡ some previous)
          × (now - previous < l.per_user_interval)
          × ((check_at lru l user now s).1 ≡ s))
  per_user_iff user now s = (
    too_soon-previous user now s,
    λ (previous, e, h, _). ap (λ r. r.0) (previous-too_soon user now previous s e h),
  )

  attempts-check_at :
      (user now : ℕ) (s : HatEquipRateState lru)
      → (check_at lru l user now s).0 ≡ allowed
      → (check_at lru l user now s).1.attempts ≡ put s.attempts user now
  unfolding check_at
  attempts-check_at user now s h = ground arith

  -- After an allowed change of a player, one that comes less than `per_user_interval` later is
  -- refused as too early, and leaves the state as it is.
  pub check_at-check_at :
      (user now later : ℕ) (s : HatEquipRateState lru)
      → (check_at lru l user now s).0 ≡ allowed
      → later - now < l.per_user_interval
      → check_at lru l user later (check_at lru l user now s).1
        ≡ (per_user, (check_at lru l user now s).1)
  check_at-check_at user now later s h soon =
      previous-too_soon user later now _
        (rw (attempts-check_at user now s h) (peek-put s.attempts user now)) soon

  check_at-within :
      (call : ℕ × ℕ) (s : HatEquipRateState lru)
      → call.1 - s.global_started < l.global_window
      → s.global_count ≤ l.global_limit
      → ((check_at lru l call.0 call.1 s).1.global_started ≡ s.global_started)
        × ((check_at lru l call.0 call.1 s).1.global_count
            ≡ s.global_count + bit (is_allowed (check_at lru l call.0 call.1 s).0))
        × ((check_at lru l call.0 call.1 s).1.global_count ≤ l.global_limit)
  unfolding check_at
  check_at-within (user, now) s h k = ground arith

  check_at-after :
      (call : ℕ × ℕ) (s : HatEquipRateState lru)
      → 0 < l.global_limit
      → l.global_window ≤ call.1 - s.global_started
      → ((is_allowed (check_at lru l call.0 call.1 s).0 ≡ false)
          × ((check_at lru l call.0 call.1 s).1.global_started ≡ s.global_started)
          × ((check_at lru l call.0 call.1 s).1.global_count ≡ s.global_count))
        ⊎ (((check_at lru l call.0 call.1 s).1.global_started ≡ call.1)
            × ((check_at lru l call.0 call.1 s).1.global_count
                ≡ bit (is_allowed (check_at lru l call.0 call.1 s).0))
            × ((check_at lru l call.0 call.1 s).1.global_count ≤ l.global_limit))
  unfolding check_at
  check_at-after (user, now) s pos h = ground arith

  pub equip_window : 0 < l.global_limit → FixedWindow (HatEquipRateState lru) (ℕ × ℕ)
  equip_window pos = record {
    window = l.global_window;
    limit = l.global_limit;
    started = λ s. s.global_started;
    count = λ s. s.global_count;
    time = λ call. call.1;
    step = λ call s.
        (is_allowed (check_at lru l call.0 call.1 s).0, (check_at lru l call.0 call.1 s).1);
    within = check_at-within;
    after = λ call s h. check_at-after call s pos h;
  }

-- How many of a run of changes, each a user and an instant, are allowed.
unfoldable pub allowed_count : (lru : Lru ℕ ℕ) → Limits → HatEquipRateState lru → List (ℕ × ℕ) → ℕ
allowed_count lru l s [] = 0
allowed_count lru l s ((user, now) ∷ calls) =
    bit (is_allowed (check_at lru l user now s).0)
    + allowed_count lru l (check_at lru l user now s).1 calls

allowed_count-admitted :
    (lru : Lru ℕ ℕ) (l : Limits) (pos : 0 < l.global_limit) (s : HatEquipRateState lru)
    (calls : List (ℕ × ℕ))
    → allowed_count lru l s calls ≡ admitted (equip_window lru l pos) s calls
unfolding allowed_count equip_window admitted
allowed_count-admitted lru l pos s [] = refl
allowed_count-admitted lru l pos s ((user, now) ∷ calls) =
    ap (λ (n : ℕ). bit (is_allowed (check_at lru l user now s).0) + n)
      (allowed_count-admitted lru l pos (check_at lru l user now s).1 calls)

-- In any stretch of time as long as the global window, whatever users ask in whatever order, at
-- most twice the global limit of changes is allowed.
pub allowed_count-le :
    (lru : Lru ℕ ℕ) (l : Limits) (a : ℕ) (s : HatEquipRateState lru) (calls : List (ℕ × ℕ))
    → 0 < l.global_limit
    → s.global_count ≤ l.global_limit
    → All (λ call. (a ≤ call.1) × (call.1 < a + l.global_window)) calls
    → allowed_count lru l s calls + s.global_count ≤ 2 * l.global_limit
unfolding equip_window
allowed_count-le lru l a s calls pos h times =
    rw (allowed_count-admitted lru l pos s calls)
      (admitted-le (equip_window lru l pos) a s calls h times)
