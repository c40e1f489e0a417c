-- ===== src/CacheUtil/Sections.antt =====
-- What the sections of src/cache_util.rs do to the entries of the map.
use dd2_server.Prelude.{
  ℕ, ◌-◌, ◌≡◌, refl, Bool, Option, some, if◌then◌else◌, ltb, Eq, ◌==◌, inl, inr, Bool-cases,
}
use dd2_server.Prelude.HashMap
use dd2_server.Prelude.HashMap.{retain_value, get-insert, get-retain, IsUnique}
use dd2_server.CacheUtil.{CacheEntry, InnerCache, upsert, store, retain_recent, check_purge_old}

abbrev pub entry_of : {K V : Type 0} ⦃k_eq : Eq K⦄ → K → InnerCache K V → Option (CacheEntry V)
entry_of key inner = HashMap.get key inner.map

-- The entry was checked less than `purge_after` before `now`.
abbrev pub is_recent : {V : Type 0} → ℕ → ℕ → CacheEntry V → Bool
is_recent now purge_after e = ltb (now - e.last_checked) purge_after

module _ {K V : Type 0} ⦃k_eq : Eq K⦄ where
  pub entry_of-store :
      (same : V → V → Bool) (key j : K) (value : V) (cached_at : ℕ) (inner : InnerCache K V)
      → entry_of j (store same key value cached_at inner).0 ≡ (
          if key == j
          then some (upsert same value cached_at (entry_of key inner)).0
          else entry_of j inner)
  unfolding store
  entry_of-store same key j value cached_at inner = get-insert key _ inner.map j

  pub entry_of-retain_recent :
      (now : ℕ) (k : K) (inner : InnerCache K V)
      → IsUnique inner.map
      → entry_of k (retain_recent now inner)
        ≡ retain_value (is_recent now inner.purge_after) (entry_of k inner)
  unfolding retain_recent
  entry_of-retain_recent now k inner h = get-retain _ k inner.map h

  -- A purge less than `purge_after` after the last scan leaves every entry and the time of the scan.
  -- A later one works on the state that it finds under the write lock: it keeps, as they are,
  -- exactly the entries checked less than `purge_after` ago, and records its time.
  pub check_purge_old_exact :
      (now : ℕ) (before_retain : InnerCache K V → InnerCache K V) (inner : InnerCache K V) (k : K)
      → IsUnique (before_retain inner).map
      → (entry_of k (check_purge_old now before_retain inner) ≡ (
          if ltb (now - inner.last_scanned) inner.purge_after
          then entry_of k inner
          else retain_value
              (is_recent now (before_retain inner).purge_after)
              (entry_of k (before_retain inner))))
        × ((check_purge_old now before_retain inner).last_scanned ≡ (
            if ltb (now - inner.last_scanned) inner.purge_after then inner.last_scanned else now))
  unfolding check_purge_old
  check_purge_old_exact now before_retain inner k h =
      elim (Bool-cases (ltb (now - inner.last_scanned) inner.purge_after)) [
        | inl early ↦ rw early (refl, refl)
        | inr late ↦ rw late (entry_of-retain_recent now k (before_retain inner) h, refl)
      ]
