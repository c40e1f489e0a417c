-- ===== src/Nadeo/Records.antt =====
-- src/nadeo.rs, `CachedOfficialRecordVerifier`: whether an account has an official record on a map.
-- Accounts are numbers, instants and durations are numbers of nanoseconds. The caches of the crate
-- `lru`, the answer of the backend and what other tasks do while this one waits are arguments.
pub mod Laws
pub mod Retries
mod Tests
use dd2_server.Prelude.{Result, ok, err}
use dd2_server.Prelude.{
  ℕ, ◌+◌, ◌-◌, ◌*◌, ◌^◌, Bool, true, false, not, ◌&&◌, Option, none, some, List, [], ◌∷◌, String,
  if◌then◌else◌, ltb, leb,
}
use dd2_server.Prelude.Lru.{Lru}
use dd2_server.Nadeo.Admission.{AdmissionWindow, Limits, Admission, admit_at}

pub record CachedRecord : Type 0 where
  pub value : Bool
  pub obtained : ℕ

abbrev pub Key : Type 0
Key = ℕ × String

-- The fields of the verifier that never change.
pub record Config : Type 0 where
  pub positive_ttl : ℕ
  pub negative_ttl : ℕ
  pub unlock_throttle : ℕ
  pub limits : Limits

pub data LookupError (E : Type 0) : Type 0 where
  capacity_exceeded admission_limit_exceeded admission_closed : LookupError E
  backend : E → LookupError E

-- What `Instant::now()` returns at each of its calls in one lookup.
pub record Clock : Type 0 where
  pub first : ℕ
  pub second : ℕ
  pub admission : ℕ
  pub obtained : ℕ

abbrev pub ttl : Config → CachedRecord → ℕ
ttl c cached = if cached.value then c.positive_ttl else c.negative_ttl

-- `negative_not_before.is_some_and(|required| obtained < required)`
abbrev pub is_before : Option ℕ → ℕ → Bool
is_before none obtained = false
is_before (some required) obtained = ltb obtained required

module _ (records : Lru Key CachedRecord) where
  open records use {Cache, peek, promote, pop}

  -- The test on the entry that `get` found: none, expired or too old to deny, or its value.
  pub usable : Config → Option ℕ → ℕ → Key → CachedRecord → Cache → Option Bool × Cache
  usable c not_before now key cached cache =
      if leb (ttl c cached) (now - cached.obtained)
      then (none, pop cache key)
      else if not cached.value && is_before not_before cached.obtained
      then (none, cache)
      else (some cached.value, cache)

  pub cached_record : Config → Option ℕ → ℕ → Key → Cache → Option Bool × Cache
  unfolding usable
  cached_record c not_before now key cache = elim (peek cache key) [
    | none ↦ (none, cache)
    | some cached ↦ usable c not_before now key cached (promote cache key)
  ]

module _ (records : Lru Key CachedRecord) (windows : Lru ℕ AdmissionWindow) where
  pub record State : Type 0 where
    pub cache : records.Cache
    pub admission : Admission windows

  -- What the world answers to one lookup: whether `key_gate` gave a gate, whether the semaphore is
  -- open, the backend's reply, and what other tasks do to the state before the second look, before
  -- the admission and before the answer is stored.
  pub record World (E : Type 0) : Type 0 where
    pub clock : Clock
    pub gate : Bool
    pub open_ : Bool
    pub fetch : Result E Bool
    pub before_second : State → State
    pub before_admission : State → State
    pub before_store : State → State

module _ (records : Lru Key CachedRecord) (windows : Lru ℕ AdmissionWindow) {E : Type 0} where
  -- The answer of the backend: an error stores nothing.
  pub store_answer :
      Key
      → ℕ
      → Result E Bool
      → State records windows
      → Result (LookupError E) Bool × State records windows
  store_answer key obtained (err e) s = (err (backend e), s)
  store_answer key obtained (ok value) s = (
    ok value,
    record s { cache = records.put s.cache key (record { value = value; obtained = obtained }) },
  )

  -- From the admission on.
  pub lookup_outbound :
      Config
      → Key
      → World records windows E
      → State records windows
      → Result (LookupError E) Bool × State records windows
  lookup_outbound c key w s =
      let (admitted, admission') = admit_at windows c.limits key.0 w.clock.admission s.admission in
      let s' = record s { admission = admission' } in
      if not admitted
      then (err admission_limit_exceeded, s')
      else if not w.open_
      then (err admission_closed, s')
      else store_answer key w.clock.obtained w.fetch (w.before_store s')

  -- The second look at the cache, under the lock of the key.
  pub lookup_gated :
      Config
      → Option ℕ
      → Key
      → World records windows E
      → State records windows
      → Result (LookupError E) Bool × State records windows
  lookup_gated c not_before key w s =
      let (hit, cache') = cached_record records c not_before w.clock.second key s.cache in
      let s' = record s { cache = cache' } in
      elim hit [
        | some value ↦ (ok value, s')
        | none ↦ lookup_outbound c key w (w.before_admission s')
      ]

  pub lookup :
      Config
      → Option ℕ
      → Key
      → World records windows E
      → State records windows
      → Result (LookupError E) Bool × State records windows
  lookup c not_before key w s =
      let (hit, cache') = cached_record records c not_before w.clock.first key s.cache in
      let s' = record s { cache = cache' } in
      elim hit [
        | some value ↦ (ok value, s')
        | none ↦
            if not w.gate
            then (err capacity_exceeded, s')
            else lookup_gated c not_before key w (w.before_second s')
      ]

  pub has_official_record :
      Config
      → Key
      → World records windows E
      → State records windows
      → Result (LookupError E) Bool × State records windows
  has_official_record c key w s = lookup c none key w s

abbrev pub recent_record_attempts : ℕ
recent_record_attempts = 3

-- 250 milliseconds, doubled with each attempt.
abbrev pub retry_sleep : ℕ → ℕ
retry_sleep attempt = 250000000 * 2 ^ attempt

-- A result of the retries, the state, and how long they slept.
pub record Retried (records : Lru Key CachedRecord) (windows : Lru ℕ AdmissionWindow) (E : Type 0)
    : Type 0 where
  pub reply : Result (LookupError E) Bool
  pub state : State records windows
  pub slept : ℕ

module _ (records : Lru Key CachedRecord) (windows : Lru ℕ AdmissionWindow) {E : Type 0} where
  -- One pass of the loop for each world: `started` is `Instant::now()` at its top. The last pass
  -- does not sleep.
  pub retry_from :
      Config
      → Key
      → ℕ
      → ℕ
      → List (ℕ × World records windows E)
      → State records windows
      → Retried records windows E
  retry_from c key attempt slept [] s = record { reply = ok false; state = s; slept = slept }
  retry_from c key attempt slept ((started, w) ∷ later) s =
      let (reply, s') = lookup records windows c (some started) key w s in
      let pause = (if ltb (attempt + 1) recent_record_attempts then retry_sleep attempt else 0) in
      let rest = retry_from c key (attempt + 1) (slept + pause) later s' in
      elim reply [
        | err e ↦ record { reply = err e; state = s'; slept = slept }
        | ok value ↦ if value then record { reply = ok true; state = s'; slept = slept } else rest
      ]

  pub has_recent_official_record :
      Config
      → Key
      → (ℕ × World records windows E)
        × (ℕ × World records windows E)
        × (ℕ × World records windows E)
      → State records windows
      → Retried records windows E
  unfolding retry_from
  has_recent_official_record c key (a, b, d) s = retry_from c key 0 0 (a ∷ b ∷ d ∷ []) s

abbrev pub is_throttled : ℕ → ℕ → Option ℕ → Bool
is_throttled throttle now none = false
is_throttled throttle now (some previous) = ltb (now - previous) throttle

-- `allow_unlock_validation_at`, on the instants of the last attempts.
module _ (attempts : Lru (ℕ × (String × String)) ℕ) where
  pub allow_unlock_validation_at :
      Config → ℕ × (String × String) → ℕ → attempts.Cache → Bool × attempts.Cache
  allow_unlock_validation_at c key now cache =
      if is_throttled c.unlock_throttle now (attempts.peek cache key)
      then (false, cache)
      else (true, attempts.put cache key now)
