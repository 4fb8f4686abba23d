-- ===== src/Wire/Buffers.antt =====
-- Bytes stored in a buffer (`store` of Wire) and read back.
use psl_xserver.Prelude.{
  List, [], ap, arith, get_or, length, length-set, refl, set, suc, zero, ℕ, ◌+◌, ◌<◌, ◌∙◌, ◌∷◌, ◌≡◌,
  ◌≢◌, ◌≤◌, ◌⊎◌,
}
use psl_xserver.Wire.{store}

get_or-set_self : (xs : List ℕ) (i v d : ℕ) → i < length xs → get_or (set xs i v) i d ≡ v
get_or-set_self [] i v d h = absurd (omega arith)
get_or-set_self (x ∷ xs) zero v d h = refl
get_or-set_self (x ∷ xs) (suc i) v d h = get_or-set_self xs i v d (omega arith)

get_or-set_ne : (xs : List ℕ) (i j v d : ℕ) → i ≢ j → get_or (set xs i v) j d ≡ get_or xs j d
get_or-set_ne [] i j v d h = refl
get_or-set_ne (x ∷ xs) zero zero v d h = absurd (h refl)
get_or-set_ne (x ∷ xs) zero (suc j) v d h = refl
get_or-set_ne (x ∷ xs) (suc i) zero v d h = refl
get_or-set_ne (x ∷ xs) (suc i) (suc j) v d h = get_or-set_ne xs i j v d (λ e. h (ap suc e))

pub length-store :
    (buf : List ℕ) (offset : ℕ) (bytes : List ℕ) → length (store buf offset bytes) ≡ length buf
unfolding store
length-store buf offset [] = refl
length-store buf offset (b ∷ bytes) =
    length-store (set buf offset b) (offset + 1) bytes ∙ length-set buf offset b

-- Nothing changes outside the bytes that are stored.
pub store-outside :
    (buf : List ℕ) (offset : ℕ) (bytes : List ℕ) (j d : ℕ)
    → (j < offset) ⊎ (offset + length bytes ≤ j)
    → get_or (store buf offset bytes) j d ≡ get_or buf j d
unfolding store
store-outside buf offset [] j d h = refl
store-outside buf offset (b ∷ bytes) j d h =
    store-outside (set buf offset b) (offset + 1) bytes j d (omega arith)
    ∙ get_or-set_ne buf offset j b d (λ e. omega arith)

-- Each byte is found at its place.
pub store-inside :
    (buf : List ℕ) (offset : ℕ) (bytes : List ℕ) (i at d : ℕ)
    → at ≡ offset + i
    → i < length bytes
    → offset + length bytes ≤ length buf
    → get_or (store buf offset bytes) at d ≡ get_or bytes i d
unfolding store
store-inside buf offset [] i at d e h fits = absurd (omega arith)
store-inside buf offset (b ∷ bytes) zero at d e h fits =
    store-outside (set buf offset b) (offset + 1) bytes at d (omega arith)
    ∙ ap (λ k. get_or (set buf offset b) k d) here'
    ∙ get_or-set_self buf offset b d (omega arith)
  where
    here' : at ≡ offset
    here' = omega arith
store-inside buf offset (b ∷ bytes) (suc i) at d e h fits =
    store-inside (set buf offset b) (offset + 1) bytes i at d (omega arith) (omega arith)
      (omega (arith, length-set buf offset b))
