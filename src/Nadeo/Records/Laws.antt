-- ===== src/Nadeo/Records/Laws.antt =====
-- What one lookup of `CachedOfficialRecordVerifier` of src/nadeo.rs answers and keeps.
use dd2_server.Prelude.{Result, ok, err}
use dd2_server.Prelude.{
  ℕ, ◌-◌, ◌<◌, ◌≡◌, refl, ap, ◌⊎◌, inl, inr, Bool, true, false, not, ◌&&◌, Option, none, some,
  arith, leb, if◌then◌else◌, Option-cases, Bool-cases, String, pair_eq, nat_eq, string_eq, ◌==◌,
  ◌∙◌,
}
use dd2_server.Prelude.Lru.{Lru}
use dd2_server.Nadeo.Admission.{AdmissionWindow, admit_at}
use dd2_server.Nadeo.Records.{
  allow_unlock_validation_at, CachedRecord, Key, Config, LookupError, ttl, is_before, usable,
  cached_record, State, World, store_answer, lookup_outbound, lookup_gated, lookup,
}

twice :
    {A : Type 0} {a b b' d : Option A}
    → (a ≡ b) ⊎ (a ≡ none)
    → b ≡ b'
    → (b' ≡ d) ⊎ (b' ≡ none)
    → (a ≡ d) ⊎ (a ≡ none)
twice (inl p) e (inl q) = inl (p ∙ e ∙ q)
twice (inl p) e (inr q) = inr (p ∙ e ∙ q)
twice (inr p) e r = inr p

-- A cached answer that may be used at `now`: younger than its time to live, and, if it denies, not
-- from before the required instant.
pub record IsUsable (c : Config) (not_before : Option ℕ) (now : ℕ) (value : Bool)
    (found : Option CachedRecord) : Type 0 where
  pub cached : CachedRecord
  pub present : found ≡ some cached
  pub value_of : cached.value ≡ value
  pub fresh : now - cached.obtained < ttl c cached
  pub recent : (not value && is_before not_before cached.obtained) ≡ false

module _ (records : Lru Key CachedRecord) (c : Config) (not_before : Option ℕ) (key : Key) where
  open records use {peek, promote, peek-pop, peek-pop_ne, peek-promote}

  cached_record-IsUsable :
      (now : ℕ) (cache : records.Cache) (value : Bool)
      → (cached_record records c not_before now key cache).0 ≡ some value
      → IsUsable c not_before now value (peek cache key)
  unfolding cached_record
  cached_record-IsUsable now cache value h = elim (Option-cases (peek cache key)) [
    | inl e ↦ absurd (ground arith)
    | inr (cached, e) ↦ record {
      cached = cached;
      present = e;
      value_of = ground arith;
      fresh = ground arith;
      recent = ground arith;
    }
  ]

  peek-usable :
      (now : ℕ) (j : Key) (cached : CachedRecord) (cache : records.Cache)
      → (peek (usable records c not_before now key cached (promote cache key)).1 j ≡ peek cache j)
        ⊎ (peek (usable records c not_before now key cached (promote cache key)).1 j ≡ none)
  unfolding usable
  peek-usable now j cached cache = elim (Bool-cases (leb (ttl c cached) (now - cached.obtained))) [
    | inl old ↦ rw old (elim (Bool-cases (key == j)) [
      | inl same ↦ inr (rw (← (pair_eq.beq_iff key j).0 same) (peek-pop (promote cache key) key))
      | inr other ↦ inl (
          peek-pop_ne (promote cache key) key j (λ e. cc ((pair_eq.beq_iff key j).1 e))
          ∙ peek-promote cache key j)
    ])
    | inr young ↦ inl (ground (arith, peek-promote cache key j))
  ]

  -- The first look never adds an entry.
  peek-cached_record :
      (now : ℕ) (cache : records.Cache) (j : Key)
      → (peek (cached_record records c not_before now key cache).1 j ≡ peek cache j)
        ⊎ (peek (cached_record records c not_before now key cache).1 j ≡ none)
  unfolding cached_record
  peek-cached_record now cache j = elim (Option-cases (peek cache key)) [
    | inl e ↦ rw (e, cached_record) (inl refl)
    | inr (cached, e) ↦ rw (e, cached_record) (peek-usable now j cached cache)
  ]

module _ {E : Type 0} (records : Lru Key CachedRecord) (windows : Lru ℕ AdmissionWindow)
    (c : Config) (key : Key) where
  store_answer_sound :
      (obtained : ℕ) (answer : Result E Bool) (s : State records windows) (value : Bool)
      → (store_answer records windows key obtained answer s).0 ≡ ok value
      → (answer ≡ ok value)
        × (records.peek (store_answer records windows key obtained answer s).1.cache key
            ≡ some (record { value = value; obtained = obtained }))
  unfolding store_answer
  store_answer_sound obtained (err e) s value h = absurd (ground arith)
  store_answer_sound obtained (ok v) s value h = (
    ground arith,
    ground (arith, records.peek-put s.cache key (record { value = v; obtained = obtained })),
  )

  lookup_outbound_sound :
      (w : World records windows E) (s : State records windows) (value : Bool)
      → (lookup_outbound records windows c key w s).0 ≡ ok value
      → (w.fetch ≡ ok value)
        × (records.peek (lookup_outbound records windows c key w s).1.cache key
            ≡ some (record { value = value; obtained = w.clock.obtained }))
  unfolding lookup_outbound
  lookup_outbound_sound w s value h =
      elim (Bool-cases (admit_at windows c.limits key.0 w.clock.admission s.admission).0) [
        | inr refused ↦ absurd (ground arith)
        | inl admitted ↦ elim (Bool-cases w.open_) [
          | inr closed ↦ absurd (ground arith)
          | inl opened ↦
              rw (admitted, opened)
                (store_answer_sound w.clock.obtained w.fetch _ value (rw (admitted, opened) at h))
        ]
      ]

module _ {E : Type 0} (records : Lru Key CachedRecord) (windows : Lru ℕ AdmissionWindow)
    (c : Config) (key : Key) where
  store_answer_failed :
      (obtained : ℕ) (answer : Result E Bool) (s : State records windows) (e : LookupError E)
      → (store_answer records windows key obtained answer s).0 ≡ err e
      → (store_answer records windows key obtained answer s).1 ≡ s
  unfolding store_answer
  store_answer_failed obtained (err e) s _ h = refl
  store_answer_failed obtained (ok v) s e h = absurd (ground arith)

  lookup_outbound_failed :
      (w : World records windows E) (s : State records windows) (e : LookupError E)
      → ((t : State records windows) → w.before_store t ≡ t)
      → (lookup_outbound records windows c key w s).0 ≡ err e
      → (lookup_outbound records windows c key w s).1.cache ≡ s.cache
  unfolding lookup_outbound
  lookup_outbound_failed w s e quiet h =
      elim (Bool-cases (admit_at windows c.limits key.0 w.clock.admission s.admission).0) [
        | inr refused ↦ ground arith
        | inl admitted ↦ elim (Bool-cases w.open_) [
          | inr closed ↦ ground arith
          | inl opened ↦
              rw (admitted, opened)
                (ap (λ t. t.cache)
                  (store_answer_failed w.clock.obtained w.fetch _ e (rw (admitted, opened) at h)
                    ∙ quiet _))
        ]
      ]

module _ {E : Type 0} (records : Lru Key CachedRecord) (windows : Lru ℕ AdmissionWindow)
    (c : Config) (not_before : Option ℕ) (key : Key) (w : World records windows E)
    (s : State records windows) where
  abbrev pub after_first : State records windows
  after_first = record s {
    cache = (cached_record records c not_before w.clock.first key s.cache).1;
  }

  abbrev pub looked_up : Result (LookupError E) Bool × State records windows
  looked_up = lookup records windows c not_before key w s

  abbrev pub after_second : State records windows
  after_second = record (w.before_second after_first) {
    cache =
        (cached_record records c not_before w.clock.second key
          (w.before_second after_first).cache).1;
  }

  reaches_outbound :
      (cached_record records c not_before w.clock.first key s.cache).0 ≡ none
      → w.gate ≡ true
      → (cached_record records c not_before w.clock.second key
          (w.before_second after_first).cache).0
        ≡ none
      → looked_up ≡ lookup_outbound records windows c key w (w.before_admission after_second)
  unfolding lookup lookup_gated
  reaches_outbound e gate e' = ground arith

  -- An answer comes from an entry that may be used at the first look, and then the admissions are
  -- as they were; or from one that may be used at the second look, in the state that other tasks
  -- left; or it is the backend's, and then it is in the cache with the time at which it came.
  pub lookup_sound :
      (value : Bool)
      → looked_up.0 ≡ ok value
      → (IsUsable c not_before w.clock.first value (records.peek s.cache key)
          × (looked_up.1.admission ≡ s.admission))
        ⊎ (IsUsable c not_before w.clock.second value
              (records.peek (w.before_second after_first).cache key)
            ⊎ ((w.fetch ≡ ok value)
                × (records.peek looked_up.1.cache key
                    ≡ some (record { value = value; obtained = w.clock.obtained }))))
  unfolding lookup lookup_gated
  lookup_sound value h =
      elim (Option-cases (cached_record records c not_before w.clock.first key s.cache).0) [
        | inr (v, e) ↦ inl (
          cached_record-IsUsable records c not_before key w.clock.first s.cache value
              (ground arith),
          ground arith,
        )
        | inl e ↦
            elim (Option-cases
              (cached_record records c not_before w.clock.second key
                (w.before_second after_first).cache).0) [
                  | inr (v, e') ↦ inr (
                      inl (
                        cached_record-IsUsable records c not_before key w.clock.second _ value
                          (ground arith)))
                  | inl e' ↦ elim (Bool-cases w.gate) [
                    | inr shut ↦ absurd (ground arith)
                    | inl gate ↦ inr (
                        inr (
                          rw (reaches_outbound e gate e') (
                            lookup_outbound_sound records windows c key w _ value
                              (rw (reaches_outbound e gate e') at h))))
                  ]
                ]
      ]

  -- Where no other task touches the verifier meanwhile, a lookup that ends in an error adds nothing
  -- to the cache: each entry is as it was, or gone because it had expired.
  pub failed_lookup_stores_nothing :
      (e : LookupError E) (j : Key)
      → ((t : State records windows) → w.before_second t ≡ t)
      → ((t : State records windows) → w.before_admission t ≡ t)
      → ((t : State records windows) → w.before_store t ≡ t)
      → looked_up.0 ≡ err e
      → (records.peek looked_up.1.cache j ≡ records.peek s.cache j)
        ⊎ (records.peek looked_up.1.cache j ≡ none)
  unfolding lookup lookup_gated
  failed_lookup_stores_nothing e j quiet₁ quiet₂ quiet₃ h =
      elim (Option-cases (cached_record records c not_before w.clock.first key s.cache).0) [
        | inr (v, hit) ↦ absurd (ground arith)
        | inl e₁ ↦ elim (Bool-cases w.gate) [
          | inr shut ↦
              ground (arith, peek-cached_record records c not_before key w.clock.first s.cache j)
          | inl gate ↦
              elim (Option-cases
                (cached_record records c not_before w.clock.second key
                  (w.before_second after_first).cache).0) [
                    | inr (v, hit) ↦ absurd (ground arith)
                    | inl e₂ ↦
                        let same : looked_up.1.cache ≡ after_second.cache =
                          rw (reaches_outbound e₁ gate e₂) (
                            lookup_outbound_failed records windows c key w _ e quiet₃
                              (rw (reaches_outbound e₁ gate e₂) at h)
                            ∙ ap (λ t. t.cache) (quiet₂ _)) in
                        rw same (
                          twice
                            (peek-cached_record records c not_before key w.clock.second
                              (w.before_second after_first).cache j)
                            (ap (λ t. records.peek t.cache j) (quiet₁ after_first))
                            (peek-cached_record records c not_before key w.clock.first s.cache j))
                  ]
        ]
      ]

-- Of two attempts at one hat, the first one allowed, the second is allowed exactly when it comes at
-- least `unlock_throttle` later; a refused one is not recorded.
pub allow_unlock_validation_at_twice :
    (attempts : Lru (ℕ × (String × String)) ℕ) (c : Config) (key : ℕ × (String × String))
    (now later : ℕ) (cache : attempts.Cache)
    → (allow_unlock_validation_at attempts c key now cache).0 ≡ true
    → allow_unlock_validation_at attempts c key later
        (allow_unlock_validation_at attempts c key now cache).1
      ≡ (if leb c.unlock_throttle (later - now)
          then (true, attempts.put (attempts.put cache key now) key later)
          else (false, attempts.put cache key now))
unfolding allow_unlock_validation_at
allow_unlock_validation_at_twice attempts c key now later cache h =
    ground (arith, attempts.peek-put cache key now)
