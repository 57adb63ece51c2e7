-- ===== src/Prelude/Compare.antt =====
-- Equality (`===`) as an interface, with its instances for numbers and strings.
use Prim.Native.Nat.{ℕ}
use Prim.Native.String.{String}
use mathlib.Core.Path.{◌≡◌, refl}
use mathlib.Core.Logic.{◌↔◌}
use mathlib.Core.Bool.{Bool, true}
use native.Mathlib.Omega.{arith}
use text.Mathlib.Text.{◌==◌ as str_eq}
use text.Mathlib.TextEquality.{eq_iff}
use vais_lang.Prelude.Tests.{nat_beq}

-- A test `same` that decides whether two values are `===`.
pub record Eq {ℓ} (A : Type ℓ) : Type ℓ where
  pub same : (x y : A) → Bool
  pub same_iff : (x y : A) → (same x y ≡ true) ↔ (x ≡ y)

pub nat_beq_iff : (x y : ℕ) → (nat_beq x y ≡ true) ↔ (x ≡ y)
nat_beq_iff x y = ground arith

instance abbrev pub string_eq : Eq String
string_eq = record { same = str_eq; same_iff = eq_iff }

instance abbrev pub nat_eq : Eq ℕ
nat_eq = record { same = nat_beq; same_iff = nat_beq_iff }

module _ {ℓ} {A : Type ℓ} ⦃e : Eq A⦄ where
  infix 50 ◌==◌
  abbrev pub ◌==◌ : A → A → Bool
  x == y = e.same x y

  pub beq_self : (x : A) → (x == x) ≡ true
  beq_self x = (e.same_iff x x).1 refl
