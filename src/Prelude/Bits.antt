-- ===== src/Prelude/Bits.antt =====
-- When the bitwise operations of two numbers give zero.
use Prim.Native.Nat.{
  ℕ, zero, suc, ◌/◌, ◌%◌, ◌≤◌, bit_or, bit_xor, max, digits, differ, bit_or-bitwise,
  bit_xor-bitwise,
}
use mathlib.Core.Path.{◌≡◌, refl}
use mathlib.Core.Logic.{◌↔◌}
use native.Mathlib.Omega.{arith}

abbrev xor_digits : ℕ → ℕ → ℕ → ℕ
xor_digits n a b = digits (λ b. b) differ n a b

abbrev or_digits : ℕ → ℕ → ℕ → ℕ
or_digits n a b = digits (λ b. b) max n a b

differ-eq_zero : (x y : ℕ) → differ x y ≡ 0 → x ≡ y
differ-eq_zero zero y h = omega arith
differ-eq_zero (suc x) zero h = omega arith
differ-eq_zero (suc x) (suc y) h = omega (arith, differ-eq_zero x y h)

differ_self : (x : ℕ) → differ x x ≡ 0
differ_self zero = refl
differ_self (suc x) = differ_self x

xor_digits-eq_zero : (n a b : ℕ) → a ≤ n → xor_digits n a b ≡ 0 → a ≡ b
xor_digits-eq_zero zero zero b p h = omega arith
xor_digits-eq_zero zero (suc a) b p h = absurd (omega arith)
xor_digits-eq_zero (suc n) zero b p h = omega arith
xor_digits-eq_zero (suc n) (suc a) b p h = omega (
  arith,
  xor_digits-eq_zero n (suc a / 2) (b / 2) (omega arith) (omega arith),
  differ-eq_zero (suc a % 2) (b % 2) (omega arith),
)

xor_digits_self : (n a : ℕ) → a ≤ n → xor_digits n a a ≡ 0
xor_digits_self zero zero p = refl
xor_digits_self zero (suc a) p = absurd (omega arith)
xor_digits_self (suc n) zero p = refl
xor_digits_self (suc n) (suc a) p =
    omega (arith, xor_digits_self n (suc a / 2) (omega arith), differ_self (suc a % 2))

or_digits-eq_zero : (n a b : ℕ) → a ≤ n → or_digits n a b ≡ 0 → (a ≡ 0) × (b ≡ 0)
or_digits-eq_zero zero zero b p h = (refl, h)
or_digits-eq_zero zero (suc a) b p h = absurd (omega arith)
or_digits-eq_zero (suc n) zero b p h = (refl, h)
or_digits-eq_zero (suc n) (suc a) b p h =
    let rest = or_digits-eq_zero n (suc a / 2) (b / 2) (omega arith) (omega arith) in
    absurd (omega (arith, rest.0))

pub bit_xor-eq_zero : (a b : ℕ) → (bit_xor a b ≡ 0) ↔ (a ≡ b)
bit_xor-eq_zero a b = (
  λ h. xor_digits-eq_zero a a b (omega arith) (omega (arith, bit_xor-bitwise a b, h)),
  λ e. rw e (omega (arith, bit_xor-bitwise b b, xor_digits_self b b (omega arith))),
)

pub bit_or-eq_zero : (a b : ℕ) → (bit_or a b ≡ 0) ↔ ((a ≡ 0) × (b ≡ 0))
bit_or-eq_zero a b = (
  λ h. or_digits-eq_zero a a b (omega arith) (omega (arith, bit_or-bitwise a b, h)),
  λ e. rw (e.0, e.1) refl,
)
