-- ===== src/Renderer/RasterOps.antt =====
-- The sixteen raster operations of src/display/renderer.rs (`apply_rop`), digit by digit: the number
-- of the operation is the table of its results.
use Prim.Native.Nat.{bit_or, bit_xor, differ}
use psl_xserver.Prelude.{
  ==_iff, Bool, Bool-cases, List, [], ap, arith, bit_and, both_hold, false, get_or, if◌then◌else◌,
  inl, inr, leb, map, max, min, refl, subst, suc, sym, true, zero, ℕ, ◌&&◌, ◌*◌, ◌-◌, ◌<◌, ◌==◌,
  ◌∙◌, ◌∷◌, ◌≡◌,
}
use psl_xserver.Prelude.Bits.{not_u32}
use psl_xserver.Prelude.Digits.{
  bit_and_fits, bit_or_fits, bit_xor_fits, digit, digit-bit_and, digit-bit_or, digit-bit_xor,
  digit-complement, digit-ones, digit-zero, digit_small,
}
use psl_xserver.Renderer.{apply_rop, rop, rops}
use psl_xserver.Resources.{gc_function}
use psl_xserver.Wire.{IsU32}

-- The operations on single digits.
digit_rops : ℕ → ℕ → List ℕ
digit_rops s d =
    0
    ∷ (min s d)
    ∷ (min s (1 - d))
    ∷ s
    ∷ (min (1 - s) d)
    ∷ d
    ∷ (differ s d)
    ∷ (max s d)
    ∷ (1 - max s d)
    ∷ (1 - differ s d)
    ∷ (1 - d)
    ∷ (max s (1 - d))
    ∷ (1 - s)
    ∷ (max (1 - s) d)
    ∷ (1 - min s d)
    ∷ 1
    ∷ []

-- The result for the digits `s` of the source and `d` of the destination.
unfoldable pub table_entry : ℕ → ℕ → ℕ → ℕ
unfolding digit
table_entry gc_function s d = digit (3 - 2 * s - d) gc_function

all_below : ℕ → (ℕ → Bool) → Bool
all_below zero test = true
all_below (suc n) test = test n && all_below n test

all_below-at : (n : ℕ) (test : ℕ → Bool) (i : ℕ) → all_below n test ≡ true → i < n → test i ≡ true
unfolding all_below
all_below-at zero test i all h = absurd (omega arith)
all_below-at (suc n) test i all h = elim (Bool-cases (i == n)) [
  | inl last ↦
      subst (λ k. test k ≡ true) (sym ((==_iff i n).0 last))
        (both_hold (test n) (all_below n test) all).0
  | inr other ↦ all_below-at n test i (both_hold (test n) (all_below n test) all).1 (ground arith)
]

row : ℕ → ℕ → ℕ → Bool
unfolding digit_rops table_entry
row s d f = get_or (digit_rops s d) f s == table_entry f s d

by_table : (s d f : ℕ) → s < 2 → d < 2 → f < 16 → get_or (digit_rops s d) f s ≡ table_entry f s d
unfolding row all_below
by_table zero zero f hs hd h = (==_iff _ _).0 (all_below-at 16 (row 0 0) f refl h)
by_table zero (suc zero) f hs hd h = (==_iff _ _).0 (all_below-at 16 (row 0 1) f refl h)
by_table (suc zero) zero f hs hd h = (==_iff _ _).0 (all_below-at 16 (row 1 0) f refl h)
by_table (suc zero) (suc zero) f hs hd h = (==_iff _ _).0 (all_below-at 16 (row 1 1) f refl h)
by_table (suc (suc s)) d f hs hd h = absurd (omega arith)
by_table s (suc (suc d)) f hs hd h = absurd (omega arith)

get_or-map : (g : ℕ → ℕ) (xs : List ℕ) (f d : ℕ) → g (get_or xs f d) ≡ get_or (map g xs) f (g d)
get_or-map g [] f d = refl
get_or-map g (x ∷ xs) zero d = refl
get_or-map g (x ∷ xs) (suc f) d = get_or-map g xs f d

digits-rops :
    (i src dst : ℕ)
    → i < 32
    → IsU32 src
    → IsU32 dst
    → map (digit i) (rops src dst) ≡ digit_rops (digit i src) (digit i dst)
unfolding rops digit_rops
digits-rops i src dst hi hs hd =
    rw
      (
        digit-zero i,
        digit-ones 32 i hi,
        digit-bit_and i src (not_u32 dst),
        digit-bit_and i (not_u32 src) dst,
        digit-bit_or i src (not_u32 dst),
        digit-bit_or i (not_u32 src) dst,
        digit-complement 32 i (bit_or src dst) hi (bit_or_fits 32 src dst hs hd),
        digit-complement 32 i (bit_xor src dst) hi (bit_xor_fits 32 src dst hs hd),
        digit-complement 32 i (bit_and src dst) hi (bit_and_fits 32 src dst hs),
        digit-complement 32 i dst hi hd,
        digit-complement 32 i src hi hs,
        digit-bit_and i src dst,
        digit-bit_or i src dst,
        digit-bit_xor i src dst,
      )
      refl

alpha_row : ℕ → Bool
unfolding digit
alpha_row i = digit i 0xFF000000 == (if leb 24 i then 1 else 0)

pub digit-alpha : (i : ℕ) → i < 32 → digit i 0xFF000000 ≡ (if leb 24 i then 1 else 0)
unfolding alpha_row all_below
digit-alpha i hi = (==_iff _ _).0 (all_below-at 32 alpha_row i refl hi)

digit-rop :
    (f i src dst : ℕ)
    → f < 16
    → i < 32
    → IsU32 src
    → IsU32 dst
    → digit i (rop f src dst) ≡ table_entry f (digit i src) (digit i dst)
unfolding rop
digit-rop f i src dst hf hi hs hd =
    get_or-map (digit i) (rops src dst) f src
    ∙ ap (λ l. get_or l f (digit i src)) (digits-rops i src dst hi hs hd)
    ∙ by_table (digit i src) (digit i dst) f (digit_small i src) (digit_small i dst) hf

merge :
    (d m r : ℕ) (alpha : Bool)
    → d < 2
    → m < 2
    → r < 2
    → max (max (min d (1 - m)) (min r m)) (if alpha then 1 else 0)
      ≡ (if alpha then 1 else if m == 1 then r else d)
merge d m r true hd hm hr = omega arith
merge d m r false hd hm hr = ground arith

-- On 32-bit words and for one of the sixteen operations, digit `i` of the result is 1 for the
-- alpha byte, the digit of the destination where the plane mask is 0, and elsewhere the digit of the
-- operation's number that stands at place 3 - 2s - d, for the digits s of the source and d of the
-- destination.
pub apply_rop-table :
    (gc_function src dst plane_mask i : ℕ)
    → gc_function < 16
    → IsU32 src
    → IsU32 dst
    → IsU32 plane_mask
    → i < 32
    → digit i (apply_rop gc_function src dst plane_mask) ≡ (
        if leb 24 i
        then 1
        else if digit i plane_mask == 1
        then table_entry gc_function (digit i src) (digit i dst)
        else digit i dst)
unfolding apply_rop table_entry
apply_rop-table gc_function src dst plane_mask i hf hs hd hm hi =
    let result = rop gc_function src dst in
    rw
      (
        digit-bit_or i (bit_or (bit_and dst (not_u32 plane_mask)) (bit_and result plane_mask))
            0xFF000000,
        digit-bit_or i (bit_and dst (not_u32 plane_mask)) (bit_and result plane_mask),
        digit-bit_and i dst (not_u32 plane_mask),
        digit-bit_and i result plane_mask,
        digit-complement 32 i plane_mask hi hm,
        digit-alpha i hi,
        digit-rop gc_function i src dst hf hi hs hd,
      )
      (merge (digit i dst) (digit i plane_mask)
        (table_entry gc_function (digit i src) (digit i dst)) (leb 24 i) (digit_small i dst)
        (digit_small i plane_mask) (digit_small (3 - 2 * digit i src - digit i dst) gc_function))
