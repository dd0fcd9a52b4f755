-- ===== src/Base/Bits/Step.antt =====
-- The lowest binary digit of `|`, `&` and `^`, without the fuel of the operations' definition.
use Prim.Native.Nat.{ℕ, zero, suc, ◌+◌, ◌-◌, ◌*◌, ◌/◌, ◌%◌, ◌≤◌, ◌<◌, min, max}
use Prim.Native.Nat.{bit_and, bit_or, bit_xor, digits, differ}
use Prim.Native.Nat.{bit_and-bitwise, bit_or-bitwise, bit_xor-bitwise}
use mathlib.Core.Path.{◌≡◌, refl, ap, ◌∙◌}
use native.Mathlib.Omega.{arith}

module _ (stop : ℕ → ℕ) (digit : ℕ → ℕ → ℕ) where
  -- One more unit of fuel than the left operand changes nothing, and so do many.
  spare_unit : (n a b : ℕ) → a ≤ n → digits stop digit (suc n) a b ≡ digits stop digit n a b
  spare_unit zero zero b h = refl
  spare_unit zero (suc a) b h = absurd (omega arith)
  spare_unit (suc n) zero b h = refl
  spare_unit (suc n) (suc a) b h = rw (spare_unit n (suc a / 2) (b / 2) (omega arith))

  spare_units :
      (spare n a b : ℕ) → a ≤ n → digits stop digit (spare + n) a b ≡ digits stop digit n a b
  spare_units zero n a b h = ap (λ k. digits stop digit k a b) {x = zero + n} (omega arith)
  spare_units (suc spare) n a b h =
      ap (λ k. digits stop digit k a b) {x = suc spare + n} {y = suc (spare + n)} (omega arith)
      ∙ spare_unit (spare + n) a b (omega arith)
      ∙ spare_units spare n a b h

  half_fuel :
      (a b : ℕ)
      → digits stop digit a (suc a / 2) (b / 2) ≡ digits stop digit (suc a / 2) (suc a / 2) (b / 2)
  half_fuel a b =
      ap (λ n. digits stop digit n (suc a / 2) (b / 2)) {x = a} {y = a - suc a / 2 + suc a / 2}
        (omega arith)
      ∙ spare_units (a - suc a / 2) (suc a / 2) (suc a / 2) (b / 2) (omega arith)

pub bit_or_step : (a b : ℕ) → bit_or a b ≡ max (a % 2) (b % 2) + 2 * bit_or (a / 2) (b / 2)
bit_or_step zero b = simp bit_or-bitwise (omega arith)
bit_or_step (suc a) b = simp bit_or-bitwise (omega (arith, half_fuel (λ y. y) max a b))

pub bit_and_step : (a b : ℕ) → bit_and a b ≡ min (a % 2) (b % 2) + 2 * bit_and (a / 2) (b / 2)
bit_and_step zero b = simp bit_and-bitwise (omega arith)
bit_and_step (suc a) b = simp bit_and-bitwise (omega (arith, half_fuel (λ y. 0) min a b))

differ_bits : (x y : ℕ) → x < 2 → y < 2 → differ x y ≡ (x + y) % 2
differ_bits zero y p q = omega arith
differ_bits (suc zero) zero p q = refl
differ_bits (suc zero) (suc zero) p q = refl
differ_bits (suc zero) (suc (suc y)) p q = absurd (omega arith)
differ_bits (suc (suc x)) y p q = absurd (omega arith)

pub bit_xor_step : (a b : ℕ) → bit_xor a b ≡ bit_xor (a / 2) (b / 2) * 2 + (a % 2 + b % 2) % 2
bit_xor_step zero b = simp bit_xor-bitwise (omega arith)
bit_xor_step (suc a) b =
    rw (← differ_bits (suc a % 2) (b % 2) (omega arith) (omega arith))
      (simp bit_xor-bitwise (omega (arith, half_fuel (λ y. y) differ a b)))
