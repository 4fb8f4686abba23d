-- ===== src/Fonts/Glob.antt =====
-- What a font pattern means, with no reference to the loop of src/server/connection.rs: `*` (42)
-- stands for any bytes, `?` (63) for one byte, any other byte for itself.
use psl_xserver.Prelude.{
  Bool, Bool-cases, List, [], arith, both_hold, drop, false, get_or, if◌then◌else◌, inl, inr,
  length, refl, subst, suc, sym, true, zero, ℕ, ◌&&◌, ◌<◌, ◌==◌, ◌||◌, ◌∷◌, ◌≡◌, ◌≤◌, ◌⊎◌,
}

abbrev is_empty : List ℕ → Bool
is_empty [] = true
is_empty (x ∷ xs) = false

-- Some suffix of a text passes a test.
unfoldable pub some_suffix : (List ℕ → Bool) → List ℕ → Bool
some_suffix f [] = f []
some_suffix f (x ∷ t) = f (x ∷ t) || some_suffix f t

unfoldable pub one_byte : ℕ → (List ℕ → Bool) → List ℕ → Bool
one_byte c f [] = false
one_byte c f (x ∷ t) = (c == 63 || c == x) && f t

unfoldable pub glob : List ℕ → List ℕ → Bool
unfolding some_suffix one_byte
glob [] t = is_empty t
glob (c ∷ p) t = if c == 42 then some_suffix (λ u. glob p u) t else one_byte c (λ u. glob p u) t

-- The first `n` bytes of a pattern are there and are no stars.
abbrev pub StarFree : ℕ → List ℕ → Type 0
StarFree zero q = Unit {0}
StarFree (suc n) [] = ⊥
StarFree (suc n) (c ∷ q) = ((c == 42) ≡ false) × StarFree n q

pub StarFree-next :
    (n : ℕ) (q : List ℕ) {c : ℕ} {rest : List ℕ}
    → StarFree n q
    → drop n q ≡ c ∷ rest
    → (c == 42) ≡ false
    → StarFree (suc n) q
StarFree-next zero [] free at_c no_star = cc
StarFree-next zero (d ∷ q) {c} free at_c no_star =
    (subst (λ l. (get_or l 0 0 == 42) ≡ false) (sym at_c) no_star, tt)
StarFree-next (suc n) [] free at_c no_star = absurd free
StarFree-next (suc n) (d ∷ q) free at_c no_star = (free.0, StarFree-next n q free.1 at_c no_star)

-- The two ways for a disjunction to hold, and the two halves of a conjunction.
or_cases : (a b : Bool) → (a || b) ≡ true → (a ≡ true) ⊎ (b ≡ true)
or_cases true b h = inl refl
or_cases false b h = inr h

or_right : (a b : Bool) → b ≡ true → (a || b) ≡ true
or_right true b h = refl
or_right false b h = h

too_few : (n m : ℕ) → m < n → n ≤ m → ⊥
too_few n m short long = omega arith

shorter : (m n : ℕ) → suc m < n → m < n
shorter m n h = omega arith

-- A star-free front takes one byte of the text for each of its bytes.
glob_front :
    (n : ℕ) (q : List ℕ) (t : List ℕ)
    → StarFree n q
    → glob q t ≡ true
    → (n ≤ length t) × (glob (drop n q) (drop n t) ≡ true)
unfolding glob one_byte
glob_front zero q t free matched = (omega arith, matched)
glob_front (suc n) [] t free matched = absurd free
glob_front (suc n) (c ∷ q) [] free matched = absurd (cc (rw free.0 at matched))
glob_front (suc n) (c ∷ q) (x ∷ t) free matched =
    let here' : ((c == 63 || c == x) && glob q t) ≡ true = rw free.0 at matched in
    let rest = glob_front n q t free.1 (both_hold (c == 63 || c == x) (glob q t) here').1 in
    (suc_mono n (length t) rest.0, rest.1)
  where
    suc_mono : (a b : ℕ) → a ≤ b → suc a ≤ suc b
    suc_mono a b h = omega arith

pub some_suffix-tail :
    (f : List ℕ → Bool) (t : List ℕ) → some_suffix f (drop 1 t) ≡ true → some_suffix f t ≡ true
unfolding some_suffix
some_suffix-tail f [] h = h
some_suffix-tail f (x ∷ t) h = or_right (f (x ∷ t)) (some_suffix f t) h

some_suffix-here : (f : List ℕ → Bool) (t : List ℕ) → f t ≡ true → some_suffix f t ≡ true
unfolding some_suffix
some_suffix-here f [] h = h
some_suffix-here f (x ∷ t) h = rw h refl

drop-nil : (n : ℕ) → ◌≡◌ {A = List ℕ} [] (drop 1 (drop n []))
drop-nil zero = refl
drop-nil (suc n) = refl

drop-tail : (n : ℕ) (x : ℕ) (t : List ℕ) → drop n t ≡ drop 1 (drop n (x ∷ t))
drop-tail zero x t = refl
drop-tail (suc n) x [] = drop-nil n
drop-tail (suc n) x (y ∷ t) = drop-tail n y t

-- An earlier star is not needed once a later one is reached.
pub earlier_star :
    (n : ℕ) (q : List ℕ) (rest : List ℕ) (t : List ℕ)
    → StarFree n q
    → drop n q ≡ 42 ∷ rest
    → some_suffix (λ u. glob q u) t ≡ true
    → some_suffix (λ u. glob rest u) (drop n t) ≡ true
unfolding some_suffix glob
earlier_star n q rest [] free at_star h =
    subst (λ l. glob l (drop n []) ≡ true) at_star (glob_front n q [] free h).1
earlier_star n q rest (x ∷ t) free at_star h =
    elim (or_cases (glob q (x ∷ t)) (some_suffix (λ u. glob q u) t) h) [
      | inl front ↦
          subst (λ l. glob l (drop n (x ∷ t)) ≡ true) at_star (glob_front n q (x ∷ t) free front).1
      | inr later ↦
          some_suffix-tail (λ u. glob rest u) (drop n (x ∷ t))
            (subst (λ l. some_suffix (λ u. glob rest u) l ≡ true) (drop-tail n x t)
              (earlier_star n q rest t free at_star later))
    ]

-- A text shorter than the star-free front of a pattern is not matched.
pub too_short :
    (n : ℕ) (q : List ℕ) (t : List ℕ)
    → StarFree n q
    → length t < n
    → some_suffix (λ u. glob q u) t ≡ false
unfolding some_suffix
too_short n q [] free short = elim (Bool-cases (glob q [])) [
  | inl matched ↦ absurd (too_few n (length {A = ℕ} []) short (glob_front n q [] free matched).0)
  | inr failed ↦ failed
]
too_short n q (x ∷ t) free short = elim (Bool-cases (glob q (x ∷ t))) [
  | inl matched ↦ absurd (too_few n (length (x ∷ t)) short (glob_front n q (x ∷ t) free matched).0)
  | inr failed ↦ rw (failed, too_short n q t free (shorter (length t) n short)) refl
]
