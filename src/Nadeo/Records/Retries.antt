-- ===== src/Nadeo/Records/Retries.antt =====
-- `has_recent_official_record` of src/nadeo.rs: a denial that may be stale is asked for again.
use dd2_server.Prelude.{
  ℕ, ◌+◌, ◌≤◌, ◌≡◌, refl, ◌⊎◌, ◌↔◌, true, false, some, List, [], ◌∷◌, arith, ltb, if◌then◌else◌,
}
use dd2_server.Prelude.Lru.{Lru}
use dd2_server.Nadeo.Admission.{AdmissionWindow}
use dd2_server.Nadeo.Records.{
  CachedRecord, Key, Config, ok, State, World, lookup, recent_record_attempts, retry_sleep,
  retry_from, has_recent_official_record,
}

module _ {E : Type 0} (records : Lru Key CachedRecord) (windows : Lru ℕ AdmissionWindow)
    (c : Config) (key : Key) where
  -- The passes in turn, each from the state that the one before it left.
  abbrev pub state_after :
      List (ℕ × World records windows E) → State records windows → State records windows
  state_after [] s = s
  state_after ((started, w) ∷ later) s =
      state_after later (lookup records windows c (some started) key w s).1

  -- Every pass was denied.
  abbrev pub AllDenied : List (ℕ × World records windows E) → State records windows → Type 0
  AllDenied [] s = Unit
  AllDenied ((started, w) ∷ later) s =
      ((lookup records windows c (some started) key w s).0 ≡ ok false)
      × AllDenied later (lookup records windows c (some started) key w s).1

  retry_from-denied_iff :
      (attempt slept : ℕ) (worlds : List (ℕ × World records windows E)) (s : State records windows)
      → ((retry_from records windows c key attempt slept worlds s).reply ≡ ok false)
        ↔ AllDenied worlds s
  unfolding retry_from
  retry_from-denied_iff attempt slept [] s = ((λ _. tt), (λ _. refl))
  retry_from-denied_iff attempt slept ((started, w) ∷ later) s = ground (
    arith,
    retry_from-denied_iff (attempt + 1)
        (slept + (if ltb (attempt + 1) recent_record_attempts then retry_sleep attempt else 0))
        later (lookup records windows c (some started) key w s).1,
  )

  -- One pass found the record, after passes that were denied.
  abbrev pub FoundOnce : List (ℕ × World records windows E) → State records windows → Type 0
  FoundOnce [] s = ⊥
  FoundOnce ((started, w) ∷ later) s =
      ((lookup records windows c (some started) key w s).0 ≡ ok true)
      ⊎ (((lookup records windows c (some started) key w s).0 ≡ ok false)
          × FoundOnce later (lookup records windows c (some started) key w s).1)

  retry_from-found_iff :
      (attempt slept : ℕ) (worlds : List (ℕ × World records windows E)) (s : State records windows)
      → ((retry_from records windows c key attempt slept worlds s).reply ≡ ok true)
        ↔ FoundOnce worlds s
  unfolding retry_from
  retry_from-found_iff attempt slept [] s = ((λ h. cc), (λ h. absurd h))
  retry_from-found_iff attempt slept ((started, w) ∷ later) s = ground (
    arith,
    retry_from-found_iff (attempt + 1)
        (slept + (if ltb (attempt + 1) recent_record_attempts then retry_sleep attempt else 0))
        later (lookup records windows c (some started) key w s).1,
  )

  module _ (first second third : ℕ × World records windows E) (s : State records windows) where
    pub has_recent_official_record_exact :
        (((has_recent_official_record records windows c key (first, second, third) s).reply
            ≡ ok false)
          ↔ AllDenied (first ∷ second ∷ third ∷ []) s)
        × (((has_recent_official_record records windows c key (first, second, third) s).reply
              ≡ ok true)
            ↔ FoundOnce (first ∷ second ∷ third ∷ []) s)
        × ((has_recent_official_record records windows c key (first, second, third) s).slept
            ≤ 750000000)
    unfolding has_recent_official_record
    has_recent_official_record_exact = (
      retry_from-denied_iff 0 0 (first ∷ second ∷ third ∷ []) s,
      retry_from-found_iff 0 0 (first ∷ second ∷ third ∷ []) s,
      ground arith,
    )
