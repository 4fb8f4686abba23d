-- ===== src/Fonts/Matching.antt =====
-- The loop of `x11_font_pattern_match` (src/server/connection.rs) ends, and for a text without
-- stars its answer is what the pattern means.
-- What is at a place of a list.
use psl_xserver.Fonts.{Cursor, match_loop, retry, skip_stars}
use psl_xserver.Fonts.Glob.{
  StarFree, StarFree-next, earlier_star, glob, one_byte, some_suffix, some_suffix-tail, too_short,
}
use psl_xserver.Prelude.{
  Bool, Bool-cases, List, Option, [], ap, arith, drop, false, get_elem?, inl, inr, length,
  length-drop, none, refl, some, subst, suc, sym, true, unwrap_or, zero, ℕ, ◌+◌, ◌<◌, ◌==◌, ◌||◌,
  ◌∙◌, ◌∷◌, ◌≡◌, ◌≤◌, ◌⊎◌,
}

pub drop-cases :
    (xs : List ℕ) (i : ℕ)
    → ((get_elem? xs i ≡ none) × (drop i xs ≡ []))
      ⊎ ((x : ℕ) × ((get_elem? xs i ≡ some x) × (drop i xs ≡ x ∷ drop (suc i) xs)))
drop-cases [] zero = inl (refl, refl)
drop-cases [] (suc i) = inl (refl, refl)
drop-cases (x ∷ xs) zero = inr (x, (refl, refl))
drop-cases (x ∷ xs) (suc i) = drop-cases xs i

pub drop-none : (m : ℕ) → ◌≡◌ {A = List ℕ} [] (drop m [])
drop-none zero = refl
drop-none (suc m) = refl

pub drop-drop : (n i m : ℕ) (xs : List ℕ) → m ≡ i + n → drop n (drop i xs) ≡ drop m xs
drop-drop n zero m xs h = ap (λ k. drop k xs) (sym (omega arith))
drop-drop zero (suc i) m [] h = drop-none m
drop-drop (suc n) (suc i) m [] h = drop-none m
drop-drop n (suc i) zero (x ∷ xs) h = absurd (omega arith)
drop-drop n (suc i) (suc m) (x ∷ xs) h = drop-drop n i m xs (omega arith)

abbrev pub NoStar : List ℕ → Type 0
NoStar [] = Unit {0}
NoStar (x ∷ t) = ((x == 42) ≡ false) × NoStar t

-- What is still open when the loop stands at a cursor: the pattern against the text from here on,
-- or a longer run for the last star.
unfoldable pub alternative : List ℕ → List ℕ → Option (ℕ × ℕ) → Bool
unfolding some_suffix glob
alternative p t none = false
alternative p t (some (sp, st)) = elim (drop st t) [
  | [] ↦ false
  | x ∷ u ↦ some_suffix (λ v. glob (drop (suc sp) p) v) u
]

unfoldable pub verdict : List ℕ → List ℕ → Cursor → Bool
unfolding glob alternative
verdict p t s = glob (drop s.pi p) (drop s.ti t) || alternative p t s.star

abbrev StarAt : List ℕ → Cursor → Option (ℕ × ℕ) → Type 0
StarAt p s none = Unit {0}
StarAt p s (some (sp, st)) =
    (n : ℕ) × ((s.pi ≡ suc sp + n)
      × ((s.ti ≡ st + n) × ((suc sp ≤ length p) × StarFree n (drop (suc sp) p))))

-- What holds whenever the loop looks at a byte.
pub record At (p t : List ℕ) (s : Cursor) : Type 0 where
  pub in_pattern : s.pi ≤ length p
  pub in_text : s.ti ≤ length t
  pub last_star : StarAt p s s.star

pub skip_stars-glob : (q : List ℕ) (i k : ℕ) → k ≡ i + length q → (skip_stars q i == k) ≡ glob q []
unfolding skip_stars glob some_suffix one_byte
skip_stars-glob [] i k h = ground arith
skip_stars-glob (c ∷ q) i k h = elim (Bool-cases (c == 42)) [
  | inl star ↦ rw star (skip_stars-glob q (suc i) k (omega arith))
  | inr other ↦ rw other (ground arith)
]

pub alternative-cons :
    (p t : List ℕ) (sp st : ℕ) {x : ℕ} {u : List ℕ}
    → drop st t ≡ x ∷ u
    → alternative p t (some (sp, st)) ≡ some_suffix (λ v. glob (drop (suc sp) p) v) u
unfolding alternative
alternative-cons p t sp st cons = rw (cons, alternative) refl

alternative-nil :
    (p t : List ℕ) (sp st : ℕ) → drop st t ≡ [] → alternative p t (some (sp, st)) ≡ false
unfolding alternative
alternative-nil p t sp st nil = rw (nil, alternative) refl

-- At the end of the text no longer run for the last star is left.
pub at_end :
    (p t : List ℕ) (s : Cursor) (star : Option (ℕ × ℕ))
    → StarAt p s star
    → length t ≤ s.ti
    → alternative p t star ≡ false
unfolding alternative
at_end p t s none known ended = refl
at_end p t s (some (sp, st)) (n, (at_p, (at_t, (inside, free)))) ended = elim (drop-cases t st) [
  | inl (gone, nil) ↦ alternative-nil p t sp st nil
  | inr (x, (found, cons)) ↦
      let size : length (drop st t) ≡ suc (length (drop (suc st) t)) = ap length cons in
      alternative-cons p t sp st cons
      ∙ too_short n (drop (suc sp) p) (drop (suc st) t) free
          (omega (arith, length-drop st t, length-drop (suc st) t, size))
]

pub NoStar-at : (t : List ℕ) (i x : ℕ) → NoStar t → get_elem? t i ≡ some x → (x == 42) ≡ false
NoStar-at [] i x clean found = absurd (cc found)
NoStar-at (y ∷ t) zero x clean found =
    let same : y ≡ x = ap (unwrap_or y) found in subst (λ z. (z == 42) ≡ false) same clean.0
NoStar-at (y ∷ t) (suc i) x clean found = NoStar-at t i x clean.1 found

pub or_false : (b : Bool) → (b || false) ≡ b
or_false true = refl
or_false false = refl

-- One more byte for the last star.
longer :
    (p t : List ℕ) (sp st : ℕ)
    → st < length t
    → (glob (drop (suc sp) p) (drop (suc st) t) || alternative p t (some (sp, suc st)))
      ≡ alternative p t (some (sp, st))
unfolding some_suffix
longer p t sp st inside = elim (drop-cases t st) [
  | inl (gone, nil) ↦
      let size : length (drop st t) ≡ 0 = ap length nil in
      absurd (omega (arith, length-drop st t, size))
  | inr (x, (found, cons)) ↦ elim (drop-cases t (suc st)) [
    | inl (gone, nil) ↦
        rw (alternative-cons p t sp st cons, alternative-nil p t sp (suc st) nil, nil)
          (or_false (glob (drop (suc sp) p) []))
    | inr (y, (next, cons')) ↦
        rw (alternative-cons p t sp st cons, alternative-cons p t sp (suc st) cons', cons') refl
  ]
]

-- Every run of the loop that starts at a cursor with this fuel gives the verdict.
abbrev pub Sound : ℕ → List ℕ → List ℕ → Type 0
Sound fuel p t =
    (s : Cursor) (b : Bool) → At p t s → match_loop fuel p t s ≡ some b → b ≡ verdict p t s

-- What the loop does with the result of a step.
abbrev pub goes_on : ℕ → List ℕ → List ℕ → Option Cursor → Option Bool
goes_on fuel p t next = elim next [ some s ↦ match_loop fuel p t s | none ↦ some false ]

pub after_retry :
    (fuel : ℕ) (p t : List ℕ) (s : Cursor) (star : Option (ℕ × ℕ)) (b : Bool)
    → Sound fuel p t
    → s.ti < length t
    → s.star ≡ star
    → StarAt p s star
    → goes_on fuel p t (retry s) ≡ some b
    → b ≡ alternative p t star
unfolding retry verdict alternative
after_retry fuel p t s none b sound inside known at_star run =
    ap (unwrap_or b) (sym (rw known at run))
after_retry fuel p t s (some (sp, st)) b sound inside known (n, (at_p, (at_t, (at_most, free))))
      run =
    let next : Cursor = record { pi = suc sp; ti = suc st; star = some (sp, suc st) } in
    let run' : match_loop fuel p t next ≡ some b = rw known at run in
    let at : At p t next = record {
      in_pattern = at_most;
      in_text = omega arith;
      last_star = (0, (omega arith, (omega arith, (at_most, tt))));
    } in
    sound next b at run' ∙ longer p t sp st (omega arith)

pub absorbed : (a b : Bool) → (b ≡ true → a ≡ true) → a ≡ (a || b)
absorbed true b h = refl
absorbed false true h = h refl
absorbed false false h = refl

-- A star takes the place of the one before it.
pub new_star :
    (p t : List ℕ) (s : Cursor) (star : Option (ℕ × ℕ))
    → StarAt p s star
    → drop s.pi p ≡ 42 ∷ drop (suc s.pi) p
    → s.ti < length t
    → alternative p t star ≡ true
    → some_suffix (λ u. glob (drop (suc s.pi) p) u) (drop s.ti t) ≡ true
unfolding alternative
new_star p t s none known at_star inside holds = absurd (true_ne_false (sym holds))
  where
    true_ne_false : true ≡ false → ⊥
    true_ne_false e = cc
new_star p t s (some (sp, st)) (n, (at_p, (at_t, (at_most, free)))) at_star inside holds =
    elim (drop-cases t st) [
      | inl (gone, nil) ↦
          let size : length (drop st t) ≡ 0 = ap length nil in
          absurd (omega (arith, length-drop st t, size))
      | inr (y, (found, cons)) ↦
          let before : some_suffix (λ v. glob (drop (suc sp) p) v) (drop (suc st) t) ≡ true =
            sym (alternative-cons p t sp st cons) ∙ holds in
          let star' : drop n (drop (suc sp) p) ≡ 42 ∷ drop (suc s.pi) p =
            drop-drop n (suc sp) s.pi p at_p ∙ at_star in
          let after =
            earlier_star n (drop (suc sp) p) (drop (suc s.pi) p) (drop (suc st) t) free star'
              before in
          some_suffix-tail (λ u. glob (drop (suc s.pi) p) u) (drop s.ti t)
            (subst (λ l. some_suffix (λ u. glob (drop (suc s.pi) p) u) l ≡ true)
              (drop-drop n (suc st) (suc s.ti) t (omega arith)
                ∙ sym (drop-drop 1 s.ti (suc s.ti) t (omega arith)))
              after)
    ]

pub taken_step :
    (p t : List ℕ) (s : Cursor) (star : Option (ℕ × ℕ)) {c : ℕ}
    → StarAt p s star
    → drop s.pi p ≡ c ∷ drop (suc s.pi) p
    → (c == 42) ≡ false
    → StarAt p (record s { pi = suc s.pi; ti = suc s.ti }) star
taken_step p t s none known here' literal = tt
taken_step p t s (some (sp, st)) (n, (at_p, (at_t, (at_most, free)))) here' literal = (
  suc n,
  (
    omega arith,
    (
      omega arith,
      (
        at_most,
        StarFree-next n (drop (suc sp) p) free (drop-drop n (suc sp) s.pi p at_p ∙ here') literal,
      ),
    ),
  ),
)

pub place : (xs : List ℕ) (i : ℕ) {x : ℕ} → drop i xs ≡ x ∷ drop (suc i) xs → i < length xs
place xs i cons =
    let size : length (drop i xs) ≡ suc (length (drop (suc i) xs)) = ap length cons in
    omega (arith, length-drop i xs, size)
