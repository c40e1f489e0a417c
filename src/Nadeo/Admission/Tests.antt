-- ===== src/Nadeo/Admission/Tests.antt =====
-- Runs of `admit_at` of src/nadeo.rs.
use dd2_server.Prelude.{ℕ, ◌≡◌, refl, false, [], ◌∷◌, nat_eq}
use dd2_server.Prelude.HashMap.{get, remove}
use dd2_server.Prelude.Lru.{Lru}
use dd2_server.Prelude.Lru.Bounded.{bounded_lru}
use dd2_server.Nadeo.Admission.{AdmissionWindow, Limits, Admission, admit_at}
use dd2_server.Nadeo.Admission.Laws.{admitted_count}

abbrev windows : Lru ℕ AdmissionWindow
windows = bounded_lru

abbrev limits : Limits
limits = record { admission_window = 100; global_limit = 3; account_limit = 2 }

abbrev start : Admission windows
start = record {
  global = record { started = 0; count = 0 };
  accounts = record { room = 7; entries = [] };
}

-- Two calls of account 5 go out, the third is refused, and another account has the last place.
account_is_bounded :
    admitted_count windows limits start ((5, 1) ∷ (5, 2) ∷ (5, 3) ∷ (6, 4) ∷ (7, 5) ∷ []) ≡ 3
unfolding admitted_count admit_at get remove
account_is_bounded = refl

abbrev used_up : Admission windows
used_up = record {
  global = record { started = 0; count = 2 };
  accounts = record { room = 7; entries = (5, record { started = 1; count = 2 }) ∷ [] };
}

account_refused : (admit_at windows limits 5 3 used_up).0 ≡ false
unfolding admit_at get remove
account_refused = refl
