-- ===== src/Nadeo/Admission/Laws.antt =====
-- What `admit_at` of src/nadeo.rs lets through.
use dd2_server.Prelude.{
  ℕ, ◌+◌, ◌-◌, ◌*◌, ◌≤◌, ◌<◌, ◌≡◌, refl, ap, ◌⊎◌, ◌↔◌, inl, inr, true, false, Option, none, some,
  List, [], ◌∷◌, All, arith, leb, Option-cases, Bool-cases,
}
use dd2_server.Prelude.Lru.{Lru}
use dd2_server.RateLimit.{FixedWindow, bit, admitted, admitted-le}
use dd2_server.Nadeo.Admission.{AdmissionWindow, Limits, renew, Admission, admit_account, admit_at}

module _ (lru : Lru ℕ AdmissionWindow) (l : Limits) where
  open lru use {peek, put, peek-put}

  admit_at-within :
      (call : ℕ × ℕ) (s : Admission lru)
      → call.1 - s.global.started < l.admission_window
      → s.global.count ≤ l.global_limit
      → ((admit_at lru l call.0 call.1 s).1.global.started ≡ s.global.started)
        × ((admit_at lru l call.0 call.1 s).1.global.count
            ≡ s.global.count + bit (admit_at lru l call.0 call.1 s).0)
        × ((admit_at lru l call.0 call.1 s).1.global.count ≤ l.global_limit)
  unfolding admit_at
  admit_at-within (account, now) s h k = ground arith

  admit_at-after :
      (call : ℕ × ℕ) (s : Admission lru)
      → l.admission_window ≤ call.1 - s.global.started
      → ((admit_at lru l call.0 call.1 s).1.global.started ≡ call.1)
        × ((admit_at lru l call.0 call.1 s).1.global.count ≡ bit (admit_at lru l call.0 call.1 s).0)
        × ((admit_at lru l call.0 call.1 s).1.global.count ≤ l.global_limit)
  unfolding admit_at
  admit_at-after (account, now) s h = ground arith

  pub admission_window_of : FixedWindow (Admission lru) (ℕ × ℕ)
  admission_window_of = record {
    window = l.admission_window;
    limit = l.global_limit;
    started = λ s. s.global.started;
    count = λ s. s.global.count;
    time = λ call. call.1;
    step = λ call s. admit_at lru l call.0 call.1 s;
    within = admit_at-within;
    after = λ call s h. inr (admit_at-after call s h);
  }

  -- What is left for an account, from its window on record.
  abbrev pub HasRoom : ℕ → Option AdmissionWindow → Type 0
  HasRoom now none = Unit
  HasRoom now (some w) = (renew l now w).count < l.account_limit

  admit_account_iff :
      (account now : ℕ) (found : Option AdmissionWindow) (accounts : lru.Cache)
      → ((admit_account lru l account now found accounts).0 ≡ true) ↔ HasRoom now found
  unfolding admit_account
  admit_account_iff account now none accounts = ((λ _. tt), (λ _. refl))
  admit_account_iff account now (some w) accounts = ground arith

  -- A lookup goes out exactly when the global window, renewed if it is over, has room, and the
  -- account has no window or one that has room after being renewed in the same way.
  pub admitted_iff :
      (account now : ℕ) (s : Admission lru)
      → ((admit_at lru l account now s).0 ≡ true)
        ↔ (((renew l now s.global).count < l.global_limit) × HasRoom now (peek s.accounts account))
  unfolding admit_at
  admitted_iff account now s =
      ground (arith, admit_account_iff account now (peek s.accounts account) s.accounts)

  -- A refused lookup spends nothing: the global window is what renewing makes of it, and so is the
  -- account's window where there is one.
  pub refused_spends_nothing :
      (account now : ℕ) (s : Admission lru)
      → (admit_at lru l account now s).0 ≡ false
      → ((admit_at lru l account now s).1.global ≡ renew l now s.global)
        × ((peek (admit_at lru l account now s).1.accounts account ≡ peek s.accounts account)
            ⊎ ((w : AdmissionWindow) × (peek s.accounts account ≡ some w)
                × (peek (admit_at lru l account now s).1.accounts account ≡ some (renew l now w))))
  unfolding admit_at
  refused_spends_nothing account now s h =
      elim (Bool-cases (leb l.global_limit (renew l now s.global).count)) [
        | inl full ↦ (ground arith, inl (ground arith))
        | inr room ↦ elim (Option-cases (peek s.accounts account)) [
          | inl e ↦ absurd (ground arith)
          | inr (w, e) ↦ (
            ground arith,
            inr (w, e, ground (arith, peek-put s.accounts account (renew l now w))),
          )
        ]
      ]

-- How many of a run of lookups, each an account and an instant, are let out.
unfoldable pub admitted_count :
    (lru : Lru ℕ AdmissionWindow) → Limits → Admission lru → List (ℕ × ℕ) → ℕ
admitted_count lru l s [] = 0
admitted_count lru l s ((account, now) ∷ calls) =
    bit (admit_at lru l account now s).0
    + admitted_count lru l (admit_at lru l account now s).1 calls

admitted_count-admitted :
    (lru : Lru ℕ AdmissionWindow) (l : Limits) (s : Admission lru) (calls : List (ℕ × ℕ))
    → admitted_count lru l s calls ≡ admitted (admission_window_of lru l) s calls
unfolding admitted_count admission_window_of admitted
admitted_count-admitted lru l s [] = refl
admitted_count-admitted lru l s ((account, now) ∷ calls) =
    ap (λ (n : ℕ). bit (admit_at lru l account now s).0 + n)
      (admitted_count-admitted lru l (admit_at lru l account now s).1 calls)

-- In any stretch of time as long as the admission window, whatever accounts ask in whatever order,
-- at most twice the global limit of lookups goes out.
pub admitted_count-le :
    (lru : Lru ℕ AdmissionWindow) (l : Limits) (a : ℕ) (s : Admission lru) (calls : List (ℕ × ℕ))
    → s.global.count ≤ l.global_limit
    → All (λ call. (a ≤ call.1) × (call.1 < a + l.admission_window)) calls
    → admitted_count lru l s calls + s.global.count ≤ 2 * l.global_limit
unfolding admission_window_of
admitted_count-le lru l a s calls h times =
    rw (admitted_count-admitted lru l s calls)
      (admitted-le (admission_window_of lru l) a s calls h times)
