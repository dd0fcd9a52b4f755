-- ===== src/Base/Bits.antt =====
-- `|`, `&` and `^` on words as arithmetic, where the operands are disjoint fields or masks.
mod Step
use Step.{bit_or_step, bit_and_step, bit_xor_step}
use Prim.Native.Nat.{ℕ, zero, suc, ◌+◌, ◌-◌, ◌*◌, ◌/◌, ◌%◌, ◌^◌, ◌≤◌, ◌<◌}
use Prim.Native.Nat.{bit_and, bit_or, bit_xor, bit_or-bitwise}
use mathlib.Core.Path.{◌≡◌, refl, ap, ◌∙◌}
use native.Mathlib.Nat.{pow-suc, one-le-pow}
use native.Mathlib.Omega.{arith}

-- The bound is on the left operand, on which the operations recur.
or_fuel : (n a : ℕ) → a ≤ n → bit_or a 0 ≡ a
or_fuel zero a h = ground arith
or_fuel (suc n) a h = ground (arith, bit_or_step a 0, or_fuel n (a / 2) (omega arith))

and_fuel : (n a : ℕ) → a ≤ n → bit_and a 0 ≡ 0
and_fuel zero a h = ground arith
and_fuel (suc n) a h = ground (arith, bit_and_step a 0, and_fuel n (a / 2) (omega arith))

pub bit_or-zero : (a : ℕ) → bit_or a 0 ≡ a
bit_or-zero a = or_fuel a a (omega arith)

bit_and-zero : (a : ℕ) → bit_and a 0 ≡ 0
bit_and-zero a = and_fuel a a (omega arith)

zero-bit_or : (b : ℕ) → bit_or 0 b ≡ b
zero-bit_or b = bit_or-bitwise 0 b

double_pow : (q k : ℕ) → q * 2 ^ suc k ≡ 2 * (q * 2 ^ k)
double_pow q k = omega (arith, ap (λ (t : ℕ). q * t) (pow-suc 2 k))

-- `r | (q << k)` is a sum where `r` fits in `k` bits.
pub bit_or_fields : (k r q : ℕ) → r < 2 ^ k → bit_or r (q * 2 ^ k) ≡ r + q * 2 ^ k
bit_or_fields zero r q h = ground (arith, zero-bit_or q)
bit_or_fields (suc k) r q h = ground (
  arith,
  bit_or_step r (q * 2 ^ suc k),
  double_pow q k,
  pow-suc 2 k,
  bit_or_fields k (r / 2) q (omega (arith, pow-suc 2 k)),
)

pub fields-bit_or : (k r q : ℕ) → r < 2 ^ k → bit_or (q * 2 ^ k) r ≡ q * 2 ^ k + r
fields-bit_or zero r q h = ground (arith, bit_or-zero q)
fields-bit_or (suc k) r q h = ground (
  arith,
  bit_or_step (q * 2 ^ suc k) r,
  double_pow q k,
  pow-suc 2 k,
  fields-bit_or k (r / 2) q (omega (arith, pow-suc 2 k)),
)

pub bit_xor-zero : (k a : ℕ) → a < 2 ^ k → bit_xor a 0 ≡ a
bit_xor-zero zero zero h = refl
bit_xor-zero zero (suc a) h = absurd (omega arith)
bit_xor-zero (suc k) a h =
    ground (arith, bit_xor_step a 0, bit_xor-zero k (a / 2) (omega (arith, pow-suc 2 k)))

-- `^` with a word of ones is the complement.
pub bit_xor_ones : (k a : ℕ) → a < 2 ^ k → bit_xor a (2 ^ k - 1) ≡ 2 ^ k - 1 - a
bit_xor_ones zero zero h = refl
bit_xor_ones zero (suc a) h = absurd (omega arith)
bit_xor_ones (suc k) a h = ground (
  arith,
  bit_xor_step a (2 ^ suc k - 1),
  pow-suc 2 k,
  one-le-pow k 2,
  bit_xor_ones k (a / 2) (omega (arith, pow-suc 2 k)),
)

-- The masks that the code uses.
pub bit_and-one : (a : ℕ) → bit_and a 1 ≡ a % 2
bit_and-one a = omega (arith, bit_and_step a 1, bit_and-zero (a / 2))

bit_and_seven : (a : ℕ) → bit_and a 7 ≡ a % 8
bit_and_seven a = omega (arith, bit_and_step a 7, bit_and_step (a / 2) 3, bit_and-one (a / 2 / 2))

pub bit_and_63 : (a : ℕ) → bit_and a 63 ≡ a % 64
bit_and_63 a = omega (
  arith,
  bit_and_step a 63,
  bit_and_step (a / 2) 31,
  bit_and_step (a / 2 / 2) 15,
  bit_and_seven (a / 2 / 2 / 2),
)

pub bit_and_127 : (a : ℕ) → bit_and a 127 ≡ a % 128
bit_and_127 a = omega (arith, bit_and_step a 127, bit_and_63 (a / 2))

pub bit_and_255 : (a : ℕ) → bit_and a 255 ≡ a % 256
bit_and_255 a = omega (arith, bit_and_step a 255, bit_and_127 (a / 2))

-- `^` with the same word twice gives the first one back.
pub bit_xor_twice : (k a m : ℕ) → a < 2 ^ k → m < 2 ^ k → bit_xor (bit_xor a m) m ≡ a
bit_xor_twice zero zero zero h j = refl
bit_xor_twice zero zero (suc m) h j = absurd (omega arith)
bit_xor_twice zero (suc a) m h j = absurd (omega arith)
bit_xor_twice (suc k) a m h j =
    bit_xor_step (bit_xor a m) m
    ∙ omega (
      arith,
      bit_xor_step a m,
      ap (λ x. bit_xor x (m / 2)) {x = bit_xor a m / 2} {y = bit_xor (a / 2) (m / 2)}
          (omega (arith, bit_xor_step a m)),
      bit_xor_twice k (a / 2) (m / 2) (omega (arith, pow-suc 2 k)) (omega (arith, pow-suc 2 k)),
    )
