-- ===== src/Nadeo/Records/Tests.antt =====
-- Runs of `CachedOfficialRecordVerifier` of src/nadeo.rs.
use dd2_server.Prelude.{Result, ok, err}
use dd2_server.Prelude.{
  ℕ, ◌+◌, ◌≤◌, ◌≡◌, refl, ap, ◌⊎◌, ◌↔◌, Bool, true, false, none, some, List, [], ◌∷◌, String,
  nat_eq, string_eq, pair_eq,
}
use dd2_server.Prelude.HashMap.{get, remove}
use dd2_server.Prelude.Lru.{Lru}
use dd2_server.Prelude.Lru.Bounded.{Bounded, bounded_lru, bounded_promote}
use dd2_server.Nadeo.Admission.{AdmissionWindow, admit_at}
use dd2_server.Nadeo.Records.{
  CachedRecord, Key, Config, admission_limit_exceeded, backend, cached_record, State, World,
  store_answer, lookup_outbound, lookup_gated, lookup, has_recent_official_record,
  allow_unlock_validation_at,
}
use dd2_server.Nadeo.Records.Laws.{IsUsable, after_first, lookup_sound}
use dd2_server.Nadeo.Records.Retries.{AllDenied, FoundOnce, has_recent_official_record_exact}

abbrev record_cache : Lru Key CachedRecord
record_cache = bounded_lru

abbrev windows : Lru ℕ AdmissionWindow
windows = bounded_lru

abbrev config : Config
config = record {
  positive_ttl = 900;
  negative_ttl = 90;
  unlock_throttle = 2;
  limits = record { admission_window = 60; global_limit = 128; account_limit = 1 };
}

abbrev start : State record_cache windows
start = record {
  cache = record { room = 7; entries = [] };
  admission = record {
    global = record { started = 0; count = 0 };
    accounts = record { room = 7; entries = [] };
  };
}

abbrev world_at : ℕ → Result String Bool → World record_cache windows String
world_at n answer = record {
  clock = record { first = n; second = n; admission = n; obtained = n + 1 };
  gate = true;
  open_ = true;
  fetch = answer;
  before_second = λ t. t;
  before_admission = λ t. t;
  before_store = λ t. t;
}

abbrev key : Key
key = (5, "map")

abbrev denied : State record_cache windows
denied = record {
  cache = record { room = 7; entries = (key, record { value = false; obtained = 11 }) ∷ [] };
  admission = record {
    global = record { started = 0; count = 1 };
    accounts = record { room = 7; entries = (5, record { started = 10; count = 1 }) ∷ [] };
  };
}

runs : Unit {0}
unfolding lookup lookup_gated lookup_outbound store_answer cached_record admit_at get remove
    bounded_promote
runs = tt

fetched :
    lookup record_cache windows config none key (world_at 10 (ok false)) start ≡ (ok false, denied)
unfolding runs
fetched = refl

-- The denial is cached, and one that must be newer is not used: the account's budget is spent.
again : (lookup record_cache windows config none key (world_at 20 (err "down")) denied).0 ≡ ok false
unfolding runs
again = refl

stale :
    (lookup record_cache windows config (some 12) key (world_at 20 (ok true)) denied).0
    ≡ err admission_limit_exceeded
unfolding runs
stale = refl

failed :
    (lookup record_cache windows config none key (world_at 10 (err "down")) start).0
    ≡ err (backend "down")
unfolding runs
failed = refl

lookup_sound_example :
    (IsUsable config none 10 false (get key start.cache.entries)
      × ((lookup record_cache windows config none key (world_at 10 (ok false)) start).1.admission
          ≡ start.admission))
    ⊎ (IsUsable config none 10 false (
          get key
            (after_first record_cache windows config none key
              (world_at 10 (ok false))
              start).cache.entries)
        ⊎ ((◌≡◌ {A = Result String Bool} (ok false) (ok false))
            × (get key
                  (lookup record_cache windows config none key
                    (world_at 10 (ok false))
                    start).1.cache.entries
                ≡ some (record { value = false; obtained = 11 }))))
lookup_sound_example =
    lookup_sound record_cache windows config none key (world_at 10 (ok false)) start false
      (ap (λ r. r.0) fetched)

abbrev attempt_cache : Lru (ℕ × (String × String)) ℕ
attempt_cache = bounded_lru

abbrev no_attempts : Bounded (ℕ × (String × String)) ℕ
no_attempts = record { room = 7; entries = [] }

first_attempt :
    (allow_unlock_validation_at attempt_cache config (5, ("map", "hat")) 10 no_attempts).0 ≡ true
unfolding allow_unlock_validation_at get
first_attempt = refl

abbrev passes : List (ℕ × World record_cache windows String)
passes =
    (10, world_at 10 (ok false)) ∷ (20, world_at 20 (ok true)) ∷ (30, world_at 30 (err "down")) ∷ []

has_recent_official_record_exact_example :
    (((has_recent_official_record record_cache windows config key
          (
            (10, world_at 10 (ok false)),
            (20, world_at 20 (ok true)),
            (30, world_at 30 (err "down")),
          )
          start).reply
        ≡ ok false)
      ↔ AllDenied record_cache windows config key passes start)
    × (((has_recent_official_record record_cache windows config key
            (
              (10, world_at 10 (ok false)),
              (20, world_at 20 (ok true)),
              (30, world_at 30 (err "down")),
            )
            start).reply
          ≡ ok true)
        ↔ FoundOnce record_cache windows config key passes start)
    × ((has_recent_official_record record_cache windows config key
          (
            (10, world_at 10 (ok false)),
            (20, world_at 20 (ok true)),
            (30, world_at 30 (err "down")),
          )
          start).slept
        ≤ 750000000)
has_recent_official_record_exact_example =
    has_recent_official_record_exact record_cache windows config key (10, world_at 10 (ok false))
      (20, world_at 20 (ok true)) (30, world_at 30 (err "down")) start
