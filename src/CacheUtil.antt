-- ===== src/CacheUtil.antt =====
-- src/cache_util.rs: the cache with a time to live that the HTTP routes and the leaderboards share.
-- An `Instant` is a number of nanoseconds, and `-` on it saturates as in Rust. Each section that
-- holds the lock is one function of the state; what other tasks do while the lock is free is an
-- argument, `Tasks`. The values have the `PartialEq` test `same`, which need not be equality.
mod Sections
mod Lookup
mod Invariant
mod Tests
use dd2_server.Prelude.{Result, ok, err}
use dd2_server.Prelude.{
  ℕ, ◌+◌, ◌-◌, ◌*◌, Bool, true, false, Option, none, some, [], if◌then◌else◌, ltb, Eq,
}
use dd2_server.Prelude.HashMap
use dd2_server.Prelude.HashMap.{HashMap}

pub record CacheEntry (V : Type 0) : Type 0 where
  pub value : V
  pub first_seen : ℕ
  pub last_checked : ℕ

pub record InnerCache (K V : Type 0) : Type 0 where
  pub map : HashMap K (CacheEntry V)
  pub last_scanned : ℕ
  pub purge_after : ℕ

abbrev pub nanos_per_second : ℕ
nanos_per_second = 1000000000

-- `Default`, at the instant `now`.
abbrev pub default_cache : {K V : Type 0} → ℕ → InnerCache K V
default_cache now = record { map = []; last_scanned = now; purge_after = 600 * nanos_per_second }

-- What `Instant::now()` returns at each of its calls in one lookup.
pub record Clock : Type 0 where
  pub start : ℕ
  pub recheck : ℕ
  pub cached_at : ℕ
  pub purge : ℕ

-- What other tasks do to the cache at the three points where this one waits for the lock.
pub record Tasks (K V : Type 0) : Type 0 where
  pub before_write : InnerCache K V → InnerCache K V
  pub before_purge : InnerCache K V → InnerCache K V
  pub before_retain : InnerCache K V → InnerCache K V

-- How the section that writes ends: with the entry of another task, with the error of
-- `get_fresh`, or with a new entry of this age in this state.
pub data Written (K V E : Type 0) : Type 0 where
  served : ℕ × V → Written K V E
  failed : E → Written K V E
  stored : ℕ → V → InnerCache K V → Written K V E

-- A lookup's result, the state that it leaves and whether it called `get_fresh`.
pub record Outcome (K V E : Type 0) : Type 0 where
  pub reply : Result E (ℕ × V)
  pub inner : InnerCache K V
  pub fetched : Bool

-- The entry answers if it was checked less than `ttl` ago: with its age and its value.
pub serve : {V : Type 0} → ℕ → ℕ → Option (CacheEntry V) → Option (ℕ × V)
serve ttl now none = none
serve ttl now (some entry) =
    if ltb now (entry.last_checked + ttl) then some (now - entry.first_seen, entry.value) else none

module _ {V : Type 0} (same : V → V → Bool) where
  -- `and_modify`: a value that differs restarts the age.
  pub refresh : V → ℕ → CacheEntry V → CacheEntry V
  refresh value cached_at e =
      if same e.value value
      then record e { last_checked = cached_at }
      else record { value = value; first_seen = cached_at; last_checked = cached_at }

  -- The entry after `and_modify(..).or_insert_with(..)`, and `age`.
  pub upsert : V → ℕ → Option (CacheEntry V) → CacheEntry V × ℕ
  unfolding refresh
  upsert value cached_at none =
      (record { value = value; first_seen = cached_at; last_checked = cached_at }, 0)
  upsert value cached_at (some e) =
      (refresh value cached_at e, cached_at - (refresh value cached_at e).first_seen)

module _ {K V : Type 0} ⦃k_eq : Eq K⦄ (same : V → V → Bool) where
  -- The store of a value under the write lock, and `age`.
  pub store : K → V → ℕ → InnerCache K V → InnerCache K V × ℕ
  unfolding upsert
  store key value cached_at inner =
      let (entry, age) = upsert same value cached_at (HashMap.get key inner.map) in
      (record inner { map = HashMap.insert key entry inner.map }, age)

module _ {K V E : Type 0} ⦃k_eq : Eq K⦄ (same : V → V → Bool) where
  pub write_fresh : K → ℕ → Result E V → InnerCache K V → Written K V E
  unfolding store
  write_fresh key cached_at (err e) inner = failed e
  write_fresh key cached_at (ok value) inner =
      let (inner', age) = store same key value cached_at inner in stored age value inner'

  -- The section under the write lock: the entry is looked up again before the fetch.
  pub write_section : K → ℕ → Clock → Result E V → InnerCache K V → Written K V E
  unfolding serve write_fresh
  write_section key ttl clock fresh inner =
      elim (serve ttl clock.recheck (HashMap.get key inner.map)) [
        | some hit ↦ served hit
        | none ↦ write_fresh key clock.cached_at fresh inner
      ]

module _ {K V : Type 0} where
  pub retain_recent : ℕ → InnerCache K V → InnerCache K V
  retain_recent now inner = record inner {
    map = HashMap.retain (λ _ entry. ltb (now - entry.last_checked) inner.purge_after) inner.map;
    last_scanned = now;
  }

  -- `now` is read before the read lock is taken, and is the time of the scan too.
  pub check_purge_old : ℕ → (InnerCache K V → InnerCache K V) → InnerCache K V → InnerCache K V
  unfolding retain_recent
  check_purge_old now before_retain inner =
      if ltb (now - inner.last_scanned) inner.purge_after
      then inner
      else retain_recent now (before_retain inner)

module _ {K V E : Type 0} where
  pub finish : Tasks K V → Clock → InnerCache K V → Written K V E → Outcome K V E
  unfolding check_purge_old
  finish tasks clock seen (served hit) = record { reply = ok hit; inner = seen; fetched = false }
  finish tasks clock seen (failed e) = record { reply = err e; inner = seen; fetched = true }
  finish tasks clock seen (stored age value inner) = record {
    reply = ok (age, value);
    inner = check_purge_old clock.purge tasks.before_retain (tasks.before_purge inner);
    fetched = true;
  }

module _ {K V E : Type 0} ⦃k_eq : Eq K⦄ (same : V → V → Bool) where
  pub get_or_insert_with : K → ℕ → Clock → Result E V → Tasks K V → InnerCache K V → Outcome K V E
  unfolding serve finish write_section
  get_or_insert_with key ttl clock fresh tasks inner =
      elim (serve ttl clock.start (HashMap.get key inner.map)) [
        | some hit ↦ record { reply = ok hit; inner = inner; fetched = false }
        | none ↦
            let seen = tasks.before_write inner in
            finish tasks clock seen (write_section same key ttl clock fresh seen)
      ]
