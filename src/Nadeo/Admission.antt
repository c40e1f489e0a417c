-- ===== src/Nadeo/Admission.antt =====
-- src/nadeo.rs, `admit_at`: how many lookups may go out to Nadeo, in all and for one account.
-- Accounts are numbers, instants are numbers of nanoseconds.
pub mod Laws
mod Tests
use dd2_server.Prelude.{ℕ, ◌+◌, ◌-◌, Bool, true, false, Option, none, some, if◌then◌else◌, leb}
use dd2_server.Prelude.Lru.{Lru}

pub record AdmissionWindow : Type 0 where
  pub started : ℕ
  pub count : ℕ

-- The fields of the verifier that bound its admissions.
pub record Limits : Type 0 where
  pub admission_window : ℕ
  pub global_limit : ℕ
  pub account_limit : ℕ

-- A window that is over is started anew.
pub renew : Limits → ℕ → AdmissionWindow → AdmissionWindow
renew l now w =
    if leb l.admission_window (now - w.started) then record { started = now; count = 0 } else w

module _ (lru : Lru ℕ AdmissionWindow) where
  open lru use {Cache, peek, put, promote}

  pub record Admission : Type 0 where
    pub global : AdmissionWindow
    pub accounts : Cache

  -- The account's part, with its window if it has one: `get_mut`, or a first `put`.
  pub admit_account : Limits → ℕ → ℕ → Option AdmissionWindow → Cache → Bool × Cache
  unfolding renew
  admit_account l account now none accounts =
      (true, put accounts account (record { started = now; count = 1 }))
  admit_account l account now (some window) accounts =
      let window' = renew l now window in
      if leb l.account_limit window'.count
      then (false, put accounts account window')
      else (true, put accounts account (record window' { count = window'.count + 1 }))

  pub admit_global : Limits → ℕ → ℕ → AdmissionWindow → Cache → Bool × Admission
  unfolding admit_account
  admit_global l account now global accounts =
      if leb l.global_limit global.count
      then (false, record { global = global; accounts = accounts })
      else (let (admitted, accounts') =
            admit_account l account now (peek accounts account) accounts in
          if admitted
          then (
            true,
            record { global = record global { count = global.count + 1 }; accounts = accounts' },
          )
          else (false, record { global = global; accounts = accounts' }))

  unfoldable pub admit_at : Limits → ℕ → ℕ → Admission → Bool × Admission
  unfolding admit_global
  admit_at l account now s = admit_global l account now (renew l now s.global) s.accounts
