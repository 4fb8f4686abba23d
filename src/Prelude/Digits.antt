-- ===== src/Prelude/Digits.antt =====
-- The binary digits of a number, and what the machine's bitwise operations do to each of them.
use Prim.Native.Nat.{
  ℕ, zero, suc, ◌+◌, ◌-◌, ◌*◌, ◌/◌, ◌%◌, ◌^◌, ◌≤◌, ◌<◌, min, max, differ, bit_and, bit_or, bit_xor,
  digits, bitwise, bit_and-bitwise, bit_or-bitwise, bit_xor-bitwise,
}
use mathlib.Core.Path.{◌≡◌, refl, ap, ◌∙◌}
use native.Mathlib.Omega.{arith}
use native.Mathlib.Nat.{pow-suc, one-le-pow, le_refl}
use psl_xserver.Prelude.Bits.{bit_and_halves, bit_and-zero}

module _ (z : ℕ → ℕ) (f : ℕ → ℕ → ℕ) where
  spare_count : (c d x y : ℕ) → x ≤ c → x ≤ d → digits z f c x y ≡ digits z f d x y
  spare_count (suc c) (suc d) (suc x) y hc hd =
      rw (spare_count c d (suc x / 2) (y / 2) (omega arith) (omega arith))
  spare_count zero d (suc x) y hc hd = absurd (omega arith)
  spare_count (suc c) zero (suc x) y hc hd = absurd (omega arith)
  spare_count zero zero zero y hc hd = refl
  spare_count zero (suc d) zero y hc hd = refl
  spare_count (suc c) zero zero y hc hd = refl
  spare_count (suc c) (suc d) zero y hc hd = refl

  bitwise_halves :
      (a b : ℕ)
      → bitwise z f (suc a) b ≡ bitwise z f (suc a / 2) (b / 2) * 2 + f (suc a % 2) (b % 2)
  bitwise_halves a b =
      omega (arith, spare_count a (suc a / 2) (suc a / 2) (b / 2) (omega arith) (le_refl _))

bit_or_halves : (a b : ℕ) → bit_or a b ≡ bit_or (a / 2) (b / 2) * 2 + max (a % 2) (b % 2)
bit_or_halves zero b = simp bit_or-bitwise (omega arith)
bit_or_halves (suc a) b = simp bit_or-bitwise (bitwise_halves (λ d. d) max a b)

bit_xor_halves : (a b : ℕ) → bit_xor a b ≡ bit_xor (a / 2) (b / 2) * 2 + differ (a % 2) (b % 2)
bit_xor_halves zero b = simp bit_xor-bitwise (omega arith)
bit_xor_halves (suc a) b = simp bit_xor-bitwise (bitwise_halves (λ d. d) differ a b)

differ_small : (s d : ℕ) → s < 2 → d < 2 → differ s d < 2
differ_small zero d hs hd = hd
differ_small (suc zero) zero hs hd = omega arith
differ_small (suc zero) (suc zero) hs hd = omega arith
differ_small (suc zero) (suc (suc d)) hs hd = absurd (omega arith)
differ_small (suc (suc s)) d hs hd = absurd (omega arith)

-- Digit `i` of a number, the lowest being digit 0.
unfoldable pub digit : ℕ → ℕ → ℕ
digit zero v = v % 2
digit (suc i) v = digit i (v / 2)

pub digit_small : (i v : ℕ) → digit i v < 2
unfolding digit
digit_small zero v = omega arith
digit_small (suc i) v = digit_small i (v / 2)

pub digit-bit_and : (i a b : ℕ) → digit i (bit_and a b) ≡ min (digit i a) (digit i b)
unfolding digit
digit-bit_and zero a b = omega (arith, bit_and_halves a b)
digit-bit_and (suc i) a b = ap (digit i) half ∙ digit-bit_and i (a / 2) (b / 2)
  where
    half : bit_and a b / 2 ≡ bit_and (a / 2) (b / 2)
    half = omega (arith, bit_and_halves a b)

pub digit-bit_or : (i a b : ℕ) → digit i (bit_or a b) ≡ max (digit i a) (digit i b)
unfolding digit
digit-bit_or zero a b = omega (arith, bit_or_halves a b)
digit-bit_or (suc i) a b = ap (digit i) half ∙ digit-bit_or i (a / 2) (b / 2)
  where
    half : bit_or a b / 2 ≡ bit_or (a / 2) (b / 2)
    half = omega (arith, bit_or_halves a b)

pub digit-bit_xor : (i a b : ℕ) → digit i (bit_xor a b) ≡ differ (digit i a) (digit i b)
unfolding digit
digit-bit_xor zero a b =
    omega (arith, bit_xor_halves a b, differ_small (a % 2) (b % 2) (omega arith) (omega arith))
digit-bit_xor (suc i) a b = ap (digit i) half ∙ digit-bit_xor i (a / 2) (b / 2)
  where
    half : bit_xor a b / 2 ≡ bit_xor (a / 2) (b / 2)
    half =
        omega (arith, bit_xor_halves a b, differ_small (a % 2) (b % 2) (omega arith) (omega arith))

-- `!v` on a word of `k` bits.
pub digit-complement : (k i v : ℕ) → i < k → v < 2 ^ k → digit i (2 ^ k - 1 - v) ≡ 1 - digit i v
unfolding digit
digit-complement zero i v hi hv = absurd (omega arith)
digit-complement (suc k) zero v hi hv = omega (arith, pow-suc 2 k, one-le-pow k 2)
digit-complement (suc k) (suc i) v hi hv =
    ap (digit i) half ∙ digit-complement k i (v / 2) (omega arith) (omega (arith, pow-suc 2 k))
  where
    half : (2 ^ suc k - 1 - v) / 2 ≡ 2 ^ k - 1 - v / 2
    half = omega (arith, pow-suc 2 k, one-le-pow k 2)

pub bit_or_fits : (k a b : ℕ) → a < 2 ^ k → b < 2 ^ k → bit_or a b < 2 ^ k
bit_or_fits zero zero zero ha hb = omega arith
bit_or_fits zero zero (suc b) ha hb = absurd (omega arith)
bit_or_fits zero (suc a) b ha hb = absurd (omega arith)
bit_or_fits (suc k) a b ha hb = omega (
  arith,
  pow-suc 2 k,
  bit_or_halves a b,
  bit_or_fits k (a / 2) (b / 2) (omega (arith, pow-suc 2 k)) (omega (arith, pow-suc 2 k)),
)

pub bit_xor_fits : (k a b : ℕ) → a < 2 ^ k → b < 2 ^ k → bit_xor a b < 2 ^ k
bit_xor_fits zero zero zero ha hb = omega arith
bit_xor_fits zero zero (suc b) ha hb = absurd (omega arith)
bit_xor_fits zero (suc a) b ha hb = absurd (omega arith)
bit_xor_fits (suc k) a b ha hb = omega (
  arith,
  pow-suc 2 k,
  bit_xor_halves a b,
  differ_small (a % 2) (b % 2) (omega arith) (omega arith),
  bit_xor_fits k (a / 2) (b / 2) (omega (arith, pow-suc 2 k)) (omega (arith, pow-suc 2 k)),
)

pub bit_and_fits : (k a b : ℕ) → a < 2 ^ k → bit_and a b < 2 ^ k
bit_and_fits zero zero b ha = simp bit_and-bitwise (omega arith)
bit_and_fits zero (suc a) b ha = absurd (omega arith)
bit_and_fits (suc k) a b ha = omega (
  arith,
  pow-suc 2 k,
  bit_and_halves a b,
  bit_and_fits k (a / 2) (b / 2) (omega (arith, pow-suc 2 k)),
)

pub bit_and_fits_right : (k a b : ℕ) → b < 2 ^ k → bit_and a b < 2 ^ k
bit_and_fits_right zero a zero hb = omega (arith, bit_and-zero a a (le_refl a))
bit_and_fits_right zero a (suc b) hb = absurd (omega arith)
bit_and_fits_right (suc k) a b hb = omega (
  arith,
  pow-suc 2 k,
  bit_and_halves a b,
  bit_and_fits_right k (a / 2) (b / 2) (omega (arith, pow-suc 2 k)),
)

pub digit-zero : (i : ℕ) → digit i 0 ≡ 0
unfolding digit
digit-zero zero = refl
digit-zero (suc i) = digit-zero i

-- Every digit of a word of ones.
pub digit-ones : (k i : ℕ) → i < k → digit i (2 ^ k - 1) ≡ 1
digit-ones k i h = omega (
  arith,
  digit-complement k i 0 h (omega (arith, one-le-pow k 2)),
  digit-zero i,
  ap (digit i) whole,
)
  where
    whole : 2 ^ k - 1 - 0 ≡ 2 ^ k - 1
    whole = omega arith
