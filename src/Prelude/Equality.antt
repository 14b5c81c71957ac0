-- ===== src/Prelude/Equality.antt =====
-- Equality of values as an interface (the traits `Eq` and `PartialEq` of the element types).
use mathlib.Core.Path.{◌≡◌, refl, ap}
use mathlib.Core.Logic.{◌↔◌}
use mathlib.Core.Bool.{Bool, true, false}
use mathlib.Core.Option.{Option, none, some}
use Prim.Native.Nat.{ℕ}
use rustcurrent.Prelude.Tests.{◌==◌, ==_iff}

pub record Eq {ℓ} (A : Type ℓ) : Type ℓ where
  pub beq : A → A → Bool
  pub beq_iff : (a b : A) → (beq a b ≡ true) ↔ (a ≡ b)

module _ {ℓ} {A : Type ℓ} ⦃e : Eq A⦄ where
  -- `==` of the standard library on options.
  abbrev pub option_beq : Option A → Option A → Bool
  option_beq none none = true
  option_beq none (some _) = false
  option_beq (some _) none = false
  option_beq (some a) (some b) = e.beq a b

  pub eq_of_option_beq : (a b : Option A) → option_beq a b ≡ true → a ≡ b
  eq_of_option_beq none none h = refl
  eq_of_option_beq none (some _) h = cc
  eq_of_option_beq (some _) none h = cc
  eq_of_option_beq (some a) (some b) h = ap some ((e.beq_iff a b).0 h)

  pub option_beq_refl : (a : Option A) → option_beq a a ≡ true
  option_beq_refl none = refl
  option_beq_refl (some a) = (e.beq_iff a a).1 refl

instance abbrev pub nat_eq : Eq ℕ
nat_eq = record { beq = ◌==◌; beq_iff = ==_iff }
