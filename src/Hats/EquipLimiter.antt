-- ===== src/Hats/EquipLimiter.antt =====
-- src/queries/hats.rs, `HatEquipRateLimiter`: how often players may change their hats. Users are
-- numbers, instants are numbers of nanoseconds, and the `LruCache` of the last changes is a
-- parameter.
pub mod Laws
mod Tests
use dd2_server.Prelude.{
  ℕ, ◌+◌, ◌-◌, Bool, true, false, Option, none, some, if◌then◌else◌, ltb, leb, max,
}
use dd2_server.Prelude.Lru.{Lru}

pub data HatEquipRateVerdict : Type 0 where
  allowed per_user global : HatEquipRateVerdict

-- The fields of the limiter that never change.
pub record Limits : Type 0 where
  pub per_user_interval : ℕ
  pub global_window : ℕ
  pub global_limit : ℕ

abbrev pub limits_of : ℕ → ℕ → ℕ → Limits
limits_of interval window limit = record {
  per_user_interval = interval;
  global_window = window;
  global_limit = max limit 1;
}

-- The previous change was less than `interval` before `now`.
abbrev pub too_soon : ℕ → ℕ → Option ℕ → Bool
too_soon interval now none = false
too_soon interval now (some previous) = ltb (now - previous) interval

module _ (lru : Lru ℕ ℕ) where
  open lru use {Cache, empty, peek, put}

  pub record HatEquipRateState : Type 0 where
    pub attempts : Cache
    pub global_started : ℕ
    pub global_count : ℕ

  abbrev pub new : ℕ → ℕ → HatEquipRateState
  new capacity now = record {
    attempts = empty (max capacity 1);
    global_started = now;
    global_count = 0;
  }

  -- A window that is over is started anew.
  pub renew : Limits → ℕ → HatEquipRateState → HatEquipRateState
  renew l now s =
      if leb l.global_window (now - s.global_started)
      then record s { global_started = now; global_count = 0 }
      else s

  pub spend : Limits → ℕ → ℕ → HatEquipRateState → HatEquipRateVerdict × HatEquipRateState
  spend l user now s = if leb l.global_limit s.global_count then (global, s) else (
    allowed,
    record s { attempts = put s.attempts user now; global_count = s.global_count + 1 },
  )

  pub check_at : Limits → ℕ → ℕ → HatEquipRateState → HatEquipRateVerdict × HatEquipRateState
  unfolding renew spend
  check_at l user now s =
      if too_soon l.per_user_interval now (peek s.attempts user)
      then (per_user, s)
      else spend l user now (renew l now s)
