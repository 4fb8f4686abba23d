-- ===== src/Prelude/Bits.antt =====
-- Masks on machine words. `bit_and` is the program's `&`; a test of one bit is by division.
use Prim.Native.Nat.{
  ℕ, zero, suc, ◌+◌, ◌-◌, ◌*◌, ◌/◌, ◌%◌, ◌^◌, ◌≤◌, ◌<◌, min, bit_and, digits, bit_and-bitwise,
}
use mathlib.Core.Path.{◌≡◌, refl, ap}
use mathlib.Core.Bool.{Bool}
use native.Mathlib.Omega.{arith}
use native.Mathlib.Nat.{pow-suc}
use psl_xserver.Prelude.Tests.{◌==◌}

-- `value & (1 << bit) != 0`.
abbrev pub test_bit : ℕ → ℕ → Bool
test_bit value bit = value / 2 ^ bit % 2 == 1

-- `!mask` on 32 bits.
abbrev pub not_u32 : ℕ → ℕ
not_u32 mask = 2 ^ 32 - 1 - mask

abbrev binary : ℕ → ℕ → ℕ → ℕ
binary fuel a b = digits (λ b. zero) min fuel a b

binary_enough : (m n a b : ℕ) → a ≤ m → a ≤ n → binary m a b ≡ binary n a b
binary_enough zero zero a b p q = refl
binary_enough zero (suc n) zero b p q = refl
binary_enough zero (suc n) (suc a) b p q = absurd (omega arith)
binary_enough (suc m) zero zero b p q = refl
binary_enough (suc m) zero (suc a) b p q = absurd (omega arith)
binary_enough (suc m) (suc n) zero b p q = refl
binary_enough (suc m) (suc n) (suc a) b p q =
    omega (arith, binary_enough m n (suc a / 2) (b / 2) (omega arith) (omega arith))

-- The lowest binary digit of a conjunction, and the others.
pub bit_and_halves : (a b : ℕ) → bit_and a b ≡ bit_and (a / 2) (b / 2) * 2 + min (a % 2) (b % 2)
bit_and_halves zero b = omega (arith, bit_and-bitwise 0 b, bit_and-bitwise 0 (b / 2))
bit_and_halves (suc a) b = omega (
  arith,
  bit_and-bitwise (suc a) b,
  bit_and-bitwise (suc a / 2) (b / 2),
  binary_enough a (suc a / 2) (suc a / 2) (b / 2) (omega arith) (omega arith),
)

pow_pos : (k : ℕ) → 1 ≤ 2 ^ k
pow_pos zero = omega arith
pow_pos (suc k) = omega (arith, pow-suc 2 k, pow_pos k)

pub bit_and-zero : (fuel a : ℕ) → a ≤ fuel → bit_and a 0 ≡ 0
bit_and-zero fuel zero h = refl
bit_and-zero zero (suc a) h = absurd (omega arith)
bit_and-zero (suc fuel) (suc a) h =
    omega (arith, bit_and_halves (suc a) 0, bit_and-zero fuel (suc a / 2) (omega arith))

double : (k : ℕ) → 2 ^ suc k ≡ 2 ^ k * 2
double k = pow-suc 2 k

halve : (q r k : ℕ) → (q * 2 ^ suc k + r) / 2 ≡ q * 2 ^ k + r / 2
halve q r k = omega (arith, ap (λ (t : ℕ). q * t) (double k))

even : (q r k : ℕ) → (q * 2 ^ suc k + r) % 2 ≡ r % 2
even q r k = omega (arith, ap (λ (t : ℕ). q * t) (double k))

ones_split : (k q r : ℕ) → r < 2 ^ k → bit_and (q * 2 ^ k + r) (2 ^ k - 1) ≡ r
ones_split zero q r h = omega (arith, bit_and-zero (q * 1 + r) (q * 1 + r) (omega arith))
ones_split (suc k) q r h = omega (
  arith,
  double k,
  odd,
  even q r k,
  pow_pos k,
  bit_and_halves (q * 2 ^ suc k + r) (2 ^ suc k - 1),
  ap (λ w. bit_and w ((2 ^ suc k - 1) / 2)) (halve q r k),
  ap (bit_and (q * 2 ^ k + r / 2)) half_mask,
  ones_split k q (r / 2) (omega (arith, double k)),
)
  where
    half_mask : (2 ^ suc k - 1) / 2 ≡ 2 ^ k - 1
    half_mask = omega (arith, double k, pow_pos k)

    odd : (2 ^ suc k - 1) % 2 ≡ 1
    odd = omega (arith, double k, pow_pos k)

-- A mask of `k` ones keeps the low `k` bits.
pub bit_and-ones : (k a : ℕ) → bit_and a (2 ^ k - 1) ≡ a % 2 ^ k
bit_and-ones k a = grind (arith, pow_pos k, ones_split k (a / 2 ^ k) (a % 2 ^ k))

shifted_split :
    (k q r m : ℕ) → r < 2 ^ k → bit_and (q * 2 ^ k + r) (m * 2 ^ k) ≡ bit_and q m * 2 ^ k
shifted_split zero q r m h = omega (arith, ap (λ w. bit_and w (m * 1)) low, ap (bit_and q) one)
  where
    low : q * 1 + r ≡ q
    low = omega arith

    one : m * 1 ≡ m
    one = omega arith
shifted_split (suc k) q r m h = omega (
  arith,
  even q r k,
  even m 0 k,
  bit_and_halves (q * 2 ^ suc k + r) (m * 2 ^ suc k),
  ap (λ w. bit_and w (m * 2 ^ suc k / 2)) (halve q r k),
  ap (bit_and (q * 2 ^ k + r / 2)) half,
  shifted_split k q (r / 2) m (omega (arith, double k)),
  ap (λ (t : ℕ). bit_and q m * t) (double k),
)
  where
    half : m * 2 ^ suc k / 2 ≡ m * 2 ^ k
    half = omega (arith, halve m 0 k)

-- A mask that ends in `k` zeros drops the low `k` bits.
pub bit_and-shifted : (k a m : ℕ) → bit_and a (m * 2 ^ k) ≡ bit_and (a / 2 ^ k) m * 2 ^ k
bit_and-shifted k a m = grind (arith, pow_pos k, shifted_split k (a / 2 ^ k) (a % 2 ^ k) m)
