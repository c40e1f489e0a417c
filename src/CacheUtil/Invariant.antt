-- ===== src/CacheUtil/Invariant.antt =====
-- The entries of the cache of src/cache_util.rs stay ordered in time, whatever the tasks do in turn.
use dd2_server.Prelude.{Result, ok, err}
use dd2_server.Prelude.{
  ℕ, ◌-◌, ◌≤◌, Bool, true, false, Option, none, some, Eq, arith, if◌then◌else◌, ltb, Option-cases,
  inl, inr, Bool-cases, ◌==◌,
}
use dd2_server.Prelude.HashMap.{IsUnique, insert-IsUnique, retain-IsUnique, retain_value}
use dd2_server.CacheUtil.{
  CacheEntry, InnerCache, Clock, Tasks, Written, served, failed, stored, upsert, store, write_fresh,
  write_section, serve, retain_recent, check_purge_old, finish, get_or_insert_with,
}
use dd2_server.CacheUtil.Sections.{entry_of, entry_of-store, entry_of-retain_recent}

abbrev pub IsOrdered : {V : Type 0} → ℕ → Option (CacheEntry V) → Type 0
IsOrdered now none = Unit
IsOrdered now (some e) = (e.first_seen ≤ e.last_checked) × (e.last_checked ≤ now)

-- No key occurs twice, and each value was first seen no later than it was last checked, which is
-- no later than `now`.
pub record IsValid {K V : Type 0} ⦃k_eq : Eq K⦄ (now : ℕ) (inner : InnerCache K V) : Type 0 where
  pub unique : IsUnique inner.map
  pub ordered : (k : K) → IsOrdered now (entry_of k inner)

module _ {V : Type 0} where
  IsOrdered-later :
      (now later : ℕ) (found : Option (CacheEntry V))
      → now ≤ later
      → IsOrdered now found
      → IsOrdered later found
  IsOrdered-later now later none h o = tt
  IsOrdered-later now later (some e) h o = omega arith

  upsert-IsOrdered :
      (same : V → V → Bool) (value : V) (now : ℕ) (found : Option (CacheEntry V))
      → IsOrdered now found
      → IsOrdered now (some (upsert same value now found).0)
  unfolding upsert
  upsert-IsOrdered same value now none h = omega arith
  upsert-IsOrdered same value now (some e) h = ground arith

  IsOrdered-if :
      (now : ℕ) (b : Bool) (e : CacheEntry V) (found : Option (CacheEntry V))
      → IsOrdered now (some e)
      → IsOrdered now found
      → IsOrdered now (if b then some e else found)
  IsOrdered-if now true e found h k = h
  IsOrdered-if now false e found h k = k

  IsOrdered-retain_value :
      (p : CacheEntry V → Bool) (now : ℕ) (found : Option (CacheEntry V))
      → IsOrdered now found
      → IsOrdered now (retain_value p found)
  IsOrdered-retain_value p now none h = tt
  IsOrdered-retain_value p now (some e) h = ground arith

module _ {K V : Type 0} ⦃k_eq : Eq K⦄ where
  pub IsValid-later :
      (now later : ℕ) (inner : InnerCache K V)
      → now ≤ later
      → IsValid now inner
      → IsValid later inner
  IsValid-later now later inner h v = record {
    unique = v.unique;
    ordered = λ k. IsOrdered-later now later _ h (v.ordered k);
  }

  store-IsValid :
      (same : V → V → Bool) (key : K) (value : V) (now : ℕ) (inner : InnerCache K V)
      → IsValid now inner
      → IsValid now (store same key value now inner).0
  store-IsValid same key value now inner v = record {
    unique = unfold store in insert-IsUnique key _ inner.map v.unique;
    ordered = λ j. rw entry_of-store (
        IsOrdered-if now (key == j) _ _ (upsert-IsOrdered same value now _ (v.ordered key))
          (v.ordered j));
  }

  retain_recent-IsValid :
      (scan now : ℕ) (inner : InnerCache K V)
      → IsValid now inner
      → IsValid now (retain_recent scan inner)
  retain_recent-IsValid scan now inner v = record {
    unique = unfold retain_recent in retain-IsUnique _ inner.map v.unique;
    ordered = λ k.
        rw (entry_of-retain_recent scan k inner v.unique)
          (IsOrdered-retain_value _ now _ (v.ordered k));
  }

  check_purge_old-IsValid :
      (scan now : ℕ) (before_retain : InnerCache K V → InnerCache K V) (inner : InnerCache K V)
      → ((s : InnerCache K V) → IsValid now s → IsValid now (before_retain s))
      → IsValid now inner
      → IsValid now (check_purge_old scan before_retain inner)
  unfolding check_purge_old
  check_purge_old-IsValid scan now before_retain inner keep v =
      elim (Bool-cases (ltb (scan - inner.last_scanned) inner.purge_after)) [
        | inl early ↦ rw early v
        | inr late ↦ rw late (retain_recent-IsValid scan now _ (keep inner v))
      ]

-- The new state, where the section under the write lock makes one, is valid.
abbrev StoresValid : {K V E : Type 0} ⦃k_eq : Eq K⦄ → ℕ → Written K V E → Type 0
StoresValid now (stored age value inner) = IsValid now inner
StoresValid now (served hit) = Unit
StoresValid now (failed e) = Unit

module _ {K V E : Type 0} ⦃k_eq : Eq K⦄ where
  write_fresh-StoresValid :
      (same : V → V → Bool) (key : K) (now : ℕ) (fresh : Result E V) (inner : InnerCache K V)
      → IsValid now inner
      → StoresValid now (write_fresh same key now fresh inner)
  unfolding write_fresh
  write_fresh-StoresValid same key now (ok value) inner v = store-IsValid same key value now inner v
  write_fresh-StoresValid same key now (err e) inner v = tt

  write_section-StoresValid :
      (same : V → V → Bool) (key : K) (ttl : ℕ) (clock : Clock) (fresh : Result E V)
      (inner : InnerCache K V)
      → IsValid clock.cached_at inner
      → StoresValid clock.cached_at (write_section same key ttl clock fresh inner)
  unfolding write_section
  write_section-StoresValid same key ttl clock fresh inner v =
      elim (Option-cases (serve ttl clock.recheck (entry_of key inner))) [
        | inr (hit, e) ↦ rw (e, write_section) tt
        | inl e ↦
            rw (e, write_section) (write_fresh-StoresValid same key clock.cached_at fresh inner v)
      ]

  finish-IsValid :
      (clock : Clock) (end : ℕ) (tasks : Tasks K V) (seen : InnerCache K V) (w : Written K V E)
      → clock.cached_at ≤ end
      → ((s : InnerCache K V) → IsValid clock.cached_at s → IsValid end (tasks.before_purge s))
      → ((s : InnerCache K V) → IsValid end s → IsValid end (tasks.before_retain s))
      → IsValid clock.cached_at seen
      → StoresValid clock.cached_at w
      → IsValid end (finish tasks clock seen w).inner
  unfolding finish
  finish-IsValid clock end tasks seen (served hit) k p r v s =
      IsValid-later clock.cached_at end seen k v
  finish-IsValid clock end tasks seen (failed e) k p r v s =
      IsValid-later clock.cached_at end seen k v
  finish-IsValid clock end tasks seen (stored age value inner) k p r v s =
      check_purge_old-IsValid clock.purge end tasks.before_retain (tasks.before_purge inner) r
        (p inner s)

-- From a valid cache a lookup leaves a valid one, if the other tasks leave it valid whenever they
-- have it: until the fetch, until the purge, and until the end of the lookup.
pub get_or_insert_with-IsValid :
    {K V E : Type 0} ⦃k_eq : Eq K⦄ (same : V → V → Bool) (key : K) (ttl : ℕ) (clock : Clock)
    (fresh : Result E V) (tasks : Tasks K V) (inner : InnerCache K V) (end : ℕ)
    → clock.start ≤ clock.cached_at
    → clock.cached_at ≤ end
    → ((s : InnerCache K V)
        → IsValid clock.start s
        → IsValid clock.cached_at (tasks.before_write s))
    → ((s : InnerCache K V) → IsValid clock.cached_at s → IsValid end (tasks.before_purge s))
    → ((s : InnerCache K V) → IsValid end s → IsValid end (tasks.before_retain s))
    → IsValid clock.start inner
    → IsValid end (get_or_insert_with same key ttl clock fresh tasks inner).inner
unfolding get_or_insert_with
get_or_insert_with-IsValid same key ttl clock fresh tasks inner end h k w p r v =
    elim (Option-cases (serve ttl clock.start (entry_of key inner))) [
      | inr (hit, e) ↦
          rw (e, get_or_insert_with) (IsValid-later clock.start end inner (omega arith) v)
      | inl e ↦
          rw (e, get_or_insert_with)
            (finish-IsValid clock end tasks _ _ k p r (w inner v) (
              write_section-StoresValid same key ttl clock fresh (tasks.before_write inner)
                (w inner v)))
    ]
