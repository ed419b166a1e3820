-- ===== src/Base/Equality.antt =====
-- Python's `==` on the types that serve as keys.
use Prim.Native.Nat.{ℕ}
use Prim.Native.String.{String}
use mathlib.Core.Path.{◌≡◌}
use mathlib.Core.Logic.{◌↔◌}
use mathlib.Core.Bool.{Bool, true, false}
use mathlib.Core.Option.{Option, none, some}
use native.Mathlib.Omega.{arith}
use text.Mathlib.Text.{◌==◌ as str_eq}
use text.Mathlib.TextEquality.{eq_iff}
use beyond_kvtransfer.Base.Tests.{eqb, eqb_iff}
use beyond_kvtransfer.Base.Int.{ℤ, eqb_ℤ, eqb_ℤ_iff}

-- `same` is what `==` computes to on `A`, and it decides equality
pub record Eq {ℓ} (A : Type ℓ) : Type ℓ where
  pub same : A → A → Bool
  pub same_iff : (x y : A) → (same x y ≡ true) ↔ (x ≡ y)

instance abbrev pub string_eq : Eq String
string_eq = record { same = str_eq; same_iff = eq_iff }

instance abbrev pub nat_eq : Eq ℕ
nat_eq = record { same_iff = eqb_iff; same = eqb }

infix 50 ◌==◌
abbrev pub ◌==◌ {ℓ} : {A : Type ℓ} ⦃eq : Eq A⦄ → A → A → Bool
◌==◌ ⦃eq⦄ x y = eq.same x y

-- `==` decides equality, at whatever type has it
pub ==_iff {ℓ} : {A : Type ℓ} ⦃eq : Eq A⦄ (x y : A) → ((x == y) ≡ true) ↔ (x ≡ y)
==_iff ⦃eq⦄ = eq.same_iff

abbrev opt_beq : Option ℤ → Option ℤ → Bool
opt_beq none none = true
opt_beq none (some b) = false
opt_beq (some a) none = false
opt_beq (some a) (some b) = eqb_ℤ a b

pub opt_beq_iff : (a b : Option ℤ) → (opt_beq a b ≡ true) ↔ (a ≡ b)
opt_beq_iff none none = ground arith
opt_beq_iff none (some b) = ground arith
opt_beq_iff (some a) none = ground arith
opt_beq_iff (some a) (some b) = ground (arith, eqb_ℤ_iff a b)

instance abbrev pub opt_int_eq : Eq (Option ℤ)
opt_int_eq = record { same = opt_beq; same_iff = opt_beq_iff }
