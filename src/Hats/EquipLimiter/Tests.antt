-- ===== src/Hats/EquipLimiter/Tests.antt =====
-- Runs of `HatEquipRateLimiter` of src/queries/hats.rs, with the numbers of its own test.
use dd2_server.Prelude.{ℕ, ◌+◌, ◌*◌, ◌≤◌, ◌≡◌, refl, [], ◌∷◌, arith, nat_eq}
use dd2_server.Prelude.HashMap.{get, remove}
use dd2_server.Prelude.Lru.Bounded.{bounded_lru}
use dd2_server.Hats.EquipLimiter
use dd2_server.Hats.EquipLimiter.{
  Limits, limits_of, HatEquipRateState, allowed, per_user, global, check_at,
}
use dd2_server.Hats.EquipLimiter.Laws.{allowed_count, allowed_count-le}

abbrev limits : Limits
limits = limits_of 250 1000 3

abbrev start : HatEquipRateState (bounded_lru {K = ℕ} {V = ℕ})
start = EquipLimiter.new (bounded_lru {K = ℕ} {V = ℕ}) 4 10

abbrev after_one : HatEquipRateState (bounded_lru {K = ℕ} {V = ℕ})
after_one = record {
  attempts = record { room = 3; entries = (7, 10) ∷ [] };
  global_started = 10;
  global_count = 1;
}

first_is_allowed : check_at bounded_lru limits 7 10 start ≡ (allowed, after_one)
unfolding check_at get remove
first_is_allowed = refl

five_calls :
    allowed_count bounded_lru limits start
      ((7, 10) ∷ (7, 259) ∷ (8, 11) ∷ (9, 12) ∷ (5, 13) ∷ (7, 1010) ∷ [])
    ≡ 4
unfolding allowed_count check_at get remove
five_calls = refl

allowed_count-le_example :
    allowed_count bounded_lru limits start ((7, 10) ∷ (7, 259) ∷ (8, 11) ∷ []) + 0 ≤ 2 * 3
allowed_count-le_example =
    allowed_count-le bounded_lru limits 10 start ((7, 10) ∷ (7, 259) ∷ (8, 11) ∷ []) (omega arith)
      (omega arith) (omega arith)
