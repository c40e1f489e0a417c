-- ===== src/CacheUtil/Tests.antt =====
-- Runs of the cache of src/cache_util.rs: a miss that fetches, then a hit.
use dd2_server.Prelude.{Result, ok, err}
use dd2_server.Prelude.{
  nat_eq, ℕ, ◌+◌, ◌≡◌, refl, Bool, true, false, none, ◌==◌, arith, [], ◌∷◌, ◌≤◌, ◌-◌,
}
use dd2_server.Prelude.HashMap
use dd2_server.Prelude.HashMap.{IsUnique, retain_value}
use dd2_server.CacheUtil.{
  InnerCache, CacheEntry, Clock, Tasks, Outcome, default_cache, get_or_insert_with,
}
use dd2_server.CacheUtil.Sections.{entry_of}
use dd2_server.CacheUtil.Lookup.{lookup-lookup, calm_after, IsStored}
use dd2_server.CacheUtil.Invariant.{IsValid, IsValid-later}

abbrev same : ℕ → ℕ → Bool
same a b = a == b

abbrev start : InnerCache ℕ ℕ
start = default_cache 100

abbrev at_time : ℕ → Clock
at_time n = record { start = n; recheck = n + 1; cached_at = n + 2; purge = n + 3 }

abbrev calm : Tasks ℕ ℕ
calm = calm_after (λ s. s)

abbrev lookup_at : ℕ → Result Bool ℕ → InnerCache ℕ ℕ → Outcome ℕ ℕ Bool
lookup_at n fresh inner = get_or_insert_with same 7 50 (at_time n) fresh calm inner

abbrev filled : InnerCache ℕ ℕ
filled = record {
  map = (7, record { value = 10; first_seen = 202; last_checked = 202 }) ∷ [];
  last_scanned = 100;
  purge_after = 600000000000;
}

abbrev first : Outcome ℕ ℕ Bool
first = record { reply = ok (0, 10); inner = filled; fetched = true }

miss_then_hit :
    (lookup_at 200 (ok 10) start ≡ first)
    × (lookup_at 220 (err true) filled
        ≡ record { reply = ok (18, 10); inner = filled; fetched = false })
unfolding get_or_insert_with HashMap.get HashMap.insert HashMap.retain
miss_then_hit = (refl, refl)

failed_fetch :
    lookup_at 300 (err true) filled ≡ record { reply = err true; inner = filled; fetched = true }
unfolding get_or_insert_with HashMap.get HashMap.insert HashMap.retain
failed_fetch = refl

empty_get : (k : ℕ) → entry_of k start ≡ none
unfolding HashMap.get
empty_get k = refl

lookup-lookup_example :
    (e : CacheEntry ℕ) × IsStored same 10 202 (entry_of 7 start) e
    × (get_or_insert_with same 7 50 (at_time 220) (err true) calm first.inner
        ≡ record { reply = ok (220 - e.first_seen, e.value); inner = first.inner; fetched = false })
lookup-lookup_example =
    lookup-lookup same 7 50 50 (at_time 200) (at_time 220) 10 (λ s. s) start (err true) calm tt
      miss_then_hit.0 refl (omega arith) (omega arith)

abbrev stale : InnerCache ℕ ℕ
stale = record {
  map = (7, record { value = 10; first_seen = 202; last_checked = 202 }) ∷ [];
  last_scanned = 100;
  purge_after = 200;
}

stale-IsUnique : IsUnique stale.map
unfolding HashMap.get
stale-IsUnique = (refl, tt)

later : (now end : ℕ) → now ≤ end → (s : InnerCache ℕ ℕ) → IsValid now s → IsValid end s
later now end h s v = IsValid-later now end s h v

start-IsValid : IsValid 200 start
unfolding HashMap.get
start-IsValid = record { unique = tt; ordered = λ k. tt }
