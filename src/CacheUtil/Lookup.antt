-- ===== src/CacheUtil/Lookup.antt =====
-- What one call of `get_or_insert_with` of src/cache_util.rs returns and leaves.
use dd2_server.Prelude.{Result, ok, err}
use dd2_server.Prelude.{
  ℕ, ◌+◌, ◌-◌, ◌<◌, ◌≡◌, refl, ◌⊎◌, inl, inr, ◌↔◌, Bool, true, false, Option, none, some, Eq, ltb,
  lt→ltb, beq_refl, arith, Option-cases, Bool-cases, ltb→lt, if◌then◌else◌,
}
use dd2_server.Prelude.HashMap.{IsUnique, insert-IsUnique}
use dd2_server.CacheUtil.{
  CacheEntry, InnerCache, Clock, Tasks, Outcome, serve, upsert, store, check_purge_old,
  get_or_insert_with,
}
use dd2_server.CacheUtil.Sections.{entry_of, entry_of-store, check_purge_old_exact}

-- A value that a cached entry gave, checked less than `ttl` before the instant `now`.
pub record IsHit {V : Type 0} (ttl now age : ℕ) (value : V) (found : Option (CacheEntry V))
    : Type 0 where
  pub entry : CacheEntry V
  pub present : found ≡ some entry
  pub fresh : now < entry.last_checked + ttl
  pub value_of : value ≡ entry.value
  pub age_of : age ≡ now - entry.first_seen

pub serve-IsHit :
    {V : Type 0} (ttl now age : ℕ) (value : V) (found : Option (CacheEntry V))
    → serve ttl now found ≡ some (age, value)
    → IsHit ttl now age value found
unfolding serve
serve-IsHit ttl now age value none h = cc
serve-IsHit ttl now age value (some entry) h =
    elim (Bool-cases (ltb now (entry.last_checked + ttl))) [
      | inl p ↦ record {
        entry = entry;
        present = refl;
        fresh = ltb→lt _ _ p;
        value_of = ground arith;
        age_of = ground arith;
      }
      | inr p ↦ ground arith
    ]

module _ {K V E : Type 0} ⦃k_eq : Eq K⦄ (same : V → V → Bool) (key : K) (ttl : ℕ) (clock : Clock)
    (fresh : Result E V) (tasks : Tasks K V) (inner : InnerCache K V) where
  abbrev pub outcome : Outcome K V E
  outcome = get_or_insert_with same key ttl clock fresh tasks inner

  -- `get_fresh` is called exactly when neither look at the entry finds it fresh: not the first,
  -- and not the one under the write lock, in the state that the other tasks have left.
  pub fetched_iff : (outcome.fetched ≡ true) ↔ (
      (serve ttl clock.start (entry_of key inner) ≡ none)
      × (serve ttl clock.recheck (entry_of key (tasks.before_write inner)) ≡ none))
  unfolding get_or_insert_with
  fetched_iff = elim (Option-cases (serve ttl clock.start (entry_of key inner))) [
    | inr (hit, e) ↦ ground arith
    | inl e ↦
        elim (Option-cases (serve ttl clock.recheck (entry_of key (tasks.before_write inner)))) [
          | inr (hit, e') ↦ ground arith
          | inl e' ↦ ground arith
        ]
  ]

  -- An answer is the value that was fetched, or that of an entry checked less than `ttl` before
  -- one of the two looks; then its age is the time since the entry's value was first seen.
  pub reply_sound :
      (age : ℕ) (value : V)
      → outcome.reply ≡ ok (age, value)
      → ((fresh ≡ ok value) × (outcome.fetched ≡ true))
        ⊎ (IsHit ttl clock.start age value (entry_of key inner)
            ⊎ IsHit ttl clock.recheck age value (entry_of key (tasks.before_write inner)))
  unfolding get_or_insert_with
  reply_sound age value h = elim (Option-cases (serve ttl clock.start (entry_of key inner))) [
    | inr (hit, e) ↦ inr (inl (serve-IsHit ttl clock.start age value _ (ground arith)))
    | inl e ↦
        elim (Option-cases (serve ttl clock.recheck (entry_of key (tasks.before_write inner)))) [
          | inr (hit, e') ↦ inr (inr (serve-IsHit ttl clock.recheck age value _ (ground arith)))
          | inl e' ↦ inl (ground arith)
        ]
  ]

  -- An error is the error of `get_fresh`, and a lookup that fails stores nothing.
  pub error_stores_nothing :
      (e : E)
      → outcome.reply ≡ err e
      → (fresh ≡ err e) × (outcome.fetched ≡ true) × (outcome.inner ≡ tasks.before_write inner)
  unfolding get_or_insert_with
  error_stores_nothing e h = ground arith

-- The entry that a stored value leads to.
abbrev pub IsStored :
    {V : Type 0} (same : V → V → Bool) → V → ℕ → Option (CacheEntry V) → CacheEntry V → Type 0
IsStored same value cached_at none e =
    (e.value ≡ value) × (e.first_seen ≡ cached_at) × (e.last_checked ≡ cached_at)
IsStored same value cached_at (some old) e =
    (e.last_checked ≡ cached_at)
    × (if same old.value value
        then (e.value ≡ old.value) × (e.first_seen ≡ old.first_seen)
        else (e.value ≡ value) × (e.first_seen ≡ cached_at))

upsert-IsStored :
    {V : Type 0} (same : V → V → Bool) (value : V) (cached_at : ℕ) (found : Option (CacheEntry V))
    → IsStored same value cached_at found (upsert same value cached_at found).0
unfolding upsert
upsert-IsStored same value cached_at none = (refl, refl, refl)
upsert-IsStored same value cached_at (some e) = elim (Bool-cases (same e.value value)) [
  | inl p ↦ rw p (refl, (refl, refl))
  | inr p ↦ rw p (refl, (refl, refl))
]

-- The tasks that touch the cache before the write lock is taken, and not after it.
abbrev pub calm_after : {K V : Type 0} → (InnerCache K V → InnerCache K V) → Tasks K V
calm_after w = record { before_write = w; before_purge = λ s. s; before_retain = λ s. s }

module _ {K V : Type 0} ⦃k_eq : Eq K⦄ (same : V → V → Bool) (key : K) (value : V) (clock : Clock)
    (seen : InnerCache K V) (unique : IsUnique seen.map) where
  abbrev pub stored_entry : CacheEntry V
  stored_entry = (upsert same value clock.cached_at (entry_of key seen)).0

  abbrev pub after_store : InnerCache K V
  after_store = (store same key value clock.cached_at seen).0

  after_store-IsUnique : IsUnique after_store.map
  unfolding store
  after_store-IsUnique = insert-IsUnique key _ seen.map unique

  purge_after-after_store : after_store.purge_after ≡ seen.purge_after
  unfolding store
  purge_after-after_store = refl

  entry_of-after_store : entry_of key after_store ≡ some stored_entry
  entry_of-after_store = rw (entry_of-store, beq_refl key)

  last_checked-stored_entry : stored_entry.last_checked ≡ clock.cached_at
  unfolding upsert
  last_checked-stored_entry = ground arith

  -- The purge keeps an entry that it finds recent.
  entry_of-purged :
      clock.purge - clock.cached_at < seen.purge_after
      → entry_of key (check_purge_old clock.purge (λ s. s) after_store) ≡ some stored_entry
  entry_of-purged soon =
      let purged =
        check_purge_old_exact clock.purge (λ s. s) after_store key after_store-IsUnique in
      elim (Bool-cases (ltb (clock.purge - after_store.last_scanned) after_store.purge_after)) [
        | inl early ↦ rw (purged.0, early) entry_of-after_store
        | inr late ↦ rw (
          purged.0,
          late,
          entry_of-after_store,
          last_checked-stored_entry,
          purge_after-after_store,
          lt→ltb _ _ soon,
        )
      ]

module _ {K V : Type 0} ⦃k_eq : Eq K⦄ (same : V → V → Bool) (key : K) where
  inner-fetched :
      (E : Type 0) (ttl : ℕ) (clock : Clock) (value : V) (w : InnerCache K V → InnerCache K V)
      (inner : InnerCache K V)
      → (get_or_insert_with {E = E} same key ttl clock (ok value) (calm_after w) inner).fetched
        ≡ true
      → (get_or_insert_with {E = E} same key ttl clock (ok value) (calm_after w) inner).inner
        ≡ check_purge_old clock.purge (λ s. s) (store same key value clock.cached_at (w inner)).0
  unfolding get_or_insert_with
  inner-fetched E ttl clock value w inner h = ground arith

module _ {K V E : Type 0} ⦃k_eq : Eq K⦄ (same : V → V → Bool) (key : K) where
  hit_lem :
      (ttl : ℕ) (clock : Clock) (fresh : Result E V) (tasks : Tasks K V) (inner : InnerCache K V)
      (e : CacheEntry V)
      → entry_of key inner ≡ some e
      → clock.start < e.last_checked + ttl
      → get_or_insert_with same key ttl clock fresh tasks inner ≡ record {
        reply = ok (clock.start - e.first_seen, e.value);
        inner = inner;
        fetched = false;
      }
  unfolding get_or_insert_with
  hit_lem ttl clock fresh tasks inner e h soon = ground arith

  -- After a lookup that fetched `value`, while no other task touches the cache from the write lock
  -- to the end of the purge and the purge comes less than `purge_after` after the fetch, a lookup
  -- of the same key that starts less than `ttl'` after the fetch calls nothing, changes nothing
  -- and returns the stored entry.
  pub lookup-lookup :
      (ttl ttl' : ℕ) (clock clock' : Clock) (value : V) (w : InnerCache K V → InnerCache K V)
      (inner : InnerCache K V) (fresh' : Result E V) (tasks' : Tasks K V) {first : Outcome K V E}
      → IsUnique (w inner).map
      → get_or_insert_with same key ttl clock (ok value) (calm_after w) inner ≡ first
      → first.fetched ≡ true
      → clock.purge - clock.cached_at < (w inner).purge_after
      → clock'.start < clock.cached_at + ttl'
      → (e : CacheEntry V) × IsStored same value clock.cached_at (entry_of key (w inner)) e
        × (get_or_insert_with same key ttl' clock' fresh' tasks' first.inner ≡ record {
          reply = ok (clock'.start - e.first_seen, e.value);
          inner = first.inner;
          fetched = false;
        })
  lookup-lookup ttl ttl' clock clock' value w inner fresh' tasks' unique same_first fetched soon
        start =
      let e = stored_entry same key value clock (w inner) unique in
      (
        e,
        upsert-IsStored same value clock.cached_at (entry_of key (w inner)),
        hit_lem ttl' clock' fresh' tasks' _ e
            (rw (← same_first) (
              rw (inner-fetched same key E ttl clock value w inner (rw same_first fetched))
                (entry_of-purged same key value clock (w inner) unique soon)))
            (rw (last_checked-stored_entry same key value clock (w inner) unique) start),
      )
