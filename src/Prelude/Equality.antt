-- ===== src/Prelude/Equality.antt =====
-- Types with a Boolean equality, as `Eq` bounds in the Rust code.
use Prim.Native.Nat.{ℕ}
use Prim.Native.String.{String}
use mathlib.Core.Path.{◌≡◌, refl}
use mathlib.Core.Logic.{◌↔◌, ◌≢◌}
use mathlib.Core.Bool.{Bool, true, false, ◌&&◌}
use mathlib.Core.Option.{Option, none, some}
use native.Mathlib.Omega.{arith}
use text.Mathlib.Text.{◌==◌ as str_eq}
use text.Mathlib.TextEquality.{eq_iff}
use dd2_server.Prelude.Tests.{nat_beq, nat_beq_iff}

-- A test that decides equality.
pub record Eq {ℓ} (T : Type ℓ) : Type ℓ where
  pub beq : (x y : T) → Bool
  pub beq_iff : (x y : T) → (beq x y ≡ true) ↔ (x ≡ y)

module _ {ℓ} {A : Type ℓ} ⦃e : Eq A⦄ where
  infix 50 ◌==◌
  abbrev pub ◌==◌ : A → A → Bool
  x == y = e.beq x y

  pub beq_refl : (a : A) → (a == a) ≡ true
  beq_refl a = (e.beq_iff a a).1 refl

  pub beq_ne : (a b : A) → a ≢ b → (a == b) ≡ false
  beq_ne a b h = ground (arith, e.beq_iff a b)

abbrev pub pair_beq : {A B : Type 0} → Eq A → Eq B → A × B → A × B → Bool
pair_beq e f p q = e.beq p.0 q.0 && f.beq p.1 q.1

pub pair_beq_iff :
    {A B : Type 0} (e : Eq A) (f : Eq B) (p q : A × B) → (pair_beq e f p q ≡ true) ↔ (p ≡ q)
pair_beq_iff e f (a, b) (c, d) = ground (arith, e.beq_iff a c, f.beq_iff b d)

instance abbrev pub pair_eq : {A B : Type 0} ⦃e : Eq A⦄ ⦃f : Eq B⦄ → Eq (A × B)
pair_eq ⦃e⦄ ⦃f⦄ = record { beq = pair_beq e f; beq_iff = pair_beq_iff e f }

instance abbrev pub string_eq : Eq String
string_eq = record { beq_iff = eq_iff; beq = str_eq }

instance abbrev pub nat_eq : Eq ℕ
nat_eq = record { beq_iff = nat_beq_iff; beq = nat_beq }

abbrev pub option_beq : {A : Type 0} → Eq A → Option A → Option A → Bool
option_beq e none none = true
option_beq e none (some y) = false
option_beq e (some x) none = false
option_beq e (some x) (some y) = e.beq x y

pub option_beq_iff : {A : Type 0} (e : Eq A) (p q : Option A) → (option_beq e p q ≡ true) ↔ (p ≡ q)
option_beq_iff e none none = ground arith
option_beq_iff e none (some y) = ground arith
option_beq_iff e (some x) none = ground arith
option_beq_iff e (some x) (some y) = ground (arith, e.beq_iff x y)

instance abbrev pub option_eq : {A : Type 0} ⦃e : Eq A⦄ → Eq (Option A)
option_eq ⦃e⦄ = record { beq = option_beq e; beq_iff = option_beq_iff e }
