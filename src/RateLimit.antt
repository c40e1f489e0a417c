-- ===== src/RateLimit.antt =====
-- Counting admissions in windows of a fixed length, as src/queries/hats.rs does for hat changes and
-- src/nadeo.rs for lookups: what such a limiter promises, and what follows for a run of calls.
use dd2_server.Prelude.{
  ℕ, ◌+◌, ◌-◌, ◌*◌, ◌≤◌, ◌<◌, ◌≡◌, ◌⊎◌, inl, inr, Bool, true, false, List, [], ◌∷◌, All, arith,
}
use native.Mathlib.Decide.{dec_lt}

abbrev pub bit : Bool → ℕ
bit true = 1
bit false = 0

-- A limiter with the time at which its window started and the calls that it admitted since.
pub record FixedWindow (S Call : Type 0) : Type 0 where
  pub window : ℕ
  pub limit : ℕ
  pub started : S → ℕ
  pub count : S → ℕ
  pub time : Call → ℕ
  pub step : Call → S → Bool × S
  -- Within the window an admitted call is counted, up to the limit.
  pub within :
      (c : Call) (s : S)
      → time c - started s < window
      → count s ≤ limit
      → (started (step c s).1 ≡ started s)
        × (count (step c s).1 ≡ count s + bit (step c s).0)
        × (count (step c s).1 ≤ limit)
  -- After it the call is refused and nothing changes, or a window starts with this call.
  pub after :
      (c : Call) (s : S)
      → window ≤ time c - started s
      → (((step c s).0 ≡ false)
          × (started (step c s).1 ≡ started s)
          × (count (step c s).1 ≡ count s))
        ⊎ ((started (step c s).1 ≡ time c)
            × (count (step c s).1 ≡ bit (step c s).0)
            × (count (step c s).1 ≤ limit))

module _ {S Call : Type 0} (w : FixedWindow S Call) where
  -- How many calls of a run are admitted.
  unfoldable pub admitted : S → List Call → ℕ
  admitted s [] = 0
  admitted s (c ∷ calls) = bit (w.step c s).0 + admitted (w.step c s).1 calls

  -- While the window of the state lasts, the calls share what is left of the limit.
  pub admitted-le_left :
      (s : S) (calls : List Call)
      → w.count s ≤ w.limit
      → All (λ c. w.time c - w.started s < w.window) calls
      → admitted s calls + w.count s ≤ w.limit
  unfolding admitted
  admitted-le_left s [] h _ = omega arith
  admitted-le_left s (c ∷ calls) h (now, later) =
      let (same, counted, fits) = w.within c s now h in
      omega (arith, admitted-le_left (w.step c s).1 calls fits (rw same later))

  restarted :
      (a : ℕ) (c : Call) (calls : List Call) (s : S)
      → a ≤ w.time c
      → w.started s ≡ w.time c
      → All (λ d. (a ≤ w.time d) × (w.time d < a + w.window)) calls
      → All (λ d. w.time d - w.started s < w.window) calls
  restarted a c [] s h e _ = tt
  restarted a c (d ∷ calls) s h e (bounds, later) = (omega arith, restarted a c calls s h e later)

  -- In any stretch of time as long as the window, at most twice the limit is admitted.
  pub admitted-le :
      (a : ℕ) (s : S) (calls : List Call)
      → w.count s ≤ w.limit
      → All (λ c. (a ≤ w.time c) × (w.time c < a + w.window)) calls
      → admitted s calls + w.count s ≤ 2 * w.limit
  unfolding admitted
  admitted-le a s [] h _ = omega arith
  admitted-le a s (c ∷ calls) h (bounds, later) = elim (dec_lt (w.time c - w.started s) w.window) [
    | yes now ↦
        let (same, counted, fits) = w.within c s now h in
        omega (arith, admitted-le a (w.step c s).1 calls fits later)
    | no past ↦ elim (w.after c s (omega arith)) [
      | inl (refused, same, counted) ↦
          rw refused (omega (arith, admitted-le a (w.step c s).1 calls (rw counted h) later))
      | inr (start, counted, fits) ↦ omega (
        arith,
        admitted-le_left (w.step c s).1 calls fits
            (restarted a c calls (w.step c s).1 bounds.0 start later),
      )
    ]
  ]
