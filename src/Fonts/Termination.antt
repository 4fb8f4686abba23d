-- ===== src/Fonts/Termination.antt =====
-- The loop of `x11_font_pattern_match` (src/server/connection.rs) ends within its fuel: between two
-- returns to the last star the place in the pattern grows, and a return moves the star's place in
-- the text.
use native.Mathlib.Nat.{suc-mul, mul-le-mul_right}
use psl_xserver.Fonts.{Cursor, match_loop, match_step, retry, skip_stars, x11_font_pattern_match}
use psl_xserver.Fonts.Glob.{glob}
use psl_xserver.Fonts.Matching.{NoStar, drop-cases, goes_on, place}
use psl_xserver.Fonts.Soundness.{match_loop_answer}
use psl_xserver.Prelude.{
  Bool, Bool-cases, List, Option, ap, arith, drop, false, inl, inr, length, none, refl, some, suc,
  zero, ℕ, ◌*◌, ◌+◌, ◌-◌, ◌<◌, ◌==◌, ◌||◌, ◌∙◌, ◌≡◌, ◌≤◌,
}

anchor : Option (ℕ × ℕ) → ℕ
anchor none = 0
anchor (some (sp, st)) = st

abbrev StarWithin : List ℕ → Cursor → Option (ℕ × ℕ) → Type 0
StarWithin p s none = Unit {0}
StarWithin p s (some (sp, st)) = (suc sp ≤ length p) × (st ≤ s.ti)

-- The fuel that a cursor needs.
needed : List ℕ → List ℕ → Cursor → ℕ
needed p t s = (length t - anchor s.star) * (length p + 1) + (length p - s.pi)

record Within (p t : List ℕ) (s : Cursor) : Type 0 where
  in_pattern : s.pi ≤ length p
  in_text : s.ti ≤ length t
  star_within : StarWithin p s s.star

star_step :
    (p : List ℕ) (s : Cursor) (star : Option (ℕ × ℕ))
    → StarWithin p s star
    → StarWithin p (record s { pi = suc s.pi; ti = suc s.ti }) star
star_step p s none within = tt
star_step p s (some (sp, st)) (at_most, before) = (at_most, omega arith)

later :
    (p t : List ℕ) (s : Cursor) (star : Option (ℕ × ℕ))
    → StarWithin p s star
    → length t - s.ti ≤ length t - anchor star
unfolding anchor
later p t s none within = omega arith
later p t s (some (sp, st)) (at_most, before) = omega arith

one_round : (k a b : ℕ) → suc a ≤ b → a * k + k ≤ b * k
one_round k a b h = omega (arith, suc-mul a k, mul-le-mul_right k h)

-- Every run from a cursor ends with this fuel.
abbrev Ends : ℕ → List ℕ → List ℕ → Type 0
Ends fuel p t =
    (s : Cursor)
    → Within p t s
    → needed p t s < fuel
    → (b : Bool) × (match_loop fuel p t s ≡ some b)

retry-Ends :
    (fuel : ℕ) (p t : List ℕ) (s : Cursor) (star : Option (ℕ × ℕ))
    → Ends fuel p t
    → s.ti < length t
    → s.star ≡ star
    → StarWithin p s star
    → (length t - anchor star) * (length p + 1) + (length p - s.pi) < suc fuel
    → (b : Bool) × (goes_on fuel p t (retry s) ≡ some b)
unfolding retry needed anchor
retry-Ends fuel p t s none ends inside known within enough = (false, rw (retry, known) refl)
retry-Ends fuel p t s (some (sp, st)) ends inside known (at_most, before) enough =
    let next : Cursor = record { pi = suc sp; ti = suc st; star = some (sp, suc st) } in
    let within : Within p t next = record {
      in_pattern = at_most;
      in_text = omega arith;
      star_within = (at_most, omega arith);
    } in
    let less : needed p t next < fuel =
      omega (arith, one_round (length p + 1) (length t - suc st) (length t - st) (omega arith)) in
    rw (retry, known) (ends next within less)

step-Ends : (fuel : ℕ) (p t : List ℕ) → Ends fuel p t → Ends (suc fuel) p t
unfolding match_loop match_step needed anchor
step-Ends fuel p t ends s within enough = elim (drop-cases t s.ti) [
  | inl (gone, nil) ↦ (skip_stars (drop s.pi p) s.pi == length p, rw (gone, match_loop) refl)
  | inr (x, (found, cons)) ↦ elim (drop-cases p s.pi) [
    | inl (no_more, nil) ↦
        rw (found, no_more, match_loop, match_step)
          (retry-Ends fuel p t s s.star ends (place t s.ti cons) refl within.star_within enough)
    | inr (c, (next, cons')) ↦ elim (Bool-cases (c == 63 || c == x)) [
      | inl taken ↦
          let s' : Cursor = record s { pi = suc s.pi; ti = suc s.ti } in
          rw (found, next, taken, match_loop, match_step)
            (ends s'
              (record {
                in_pattern = place p s.pi cons';
                in_text = place t s.ti cons;
                star_within = star_step p s s.star within.star_within;
              })
              (omega (arith, place p s.pi cons')))
      | inr other ↦ elim (Bool-cases (c == 42)) [
        | inl star ↦
            let s' : Cursor = record s { pi = suc s.pi; star = some (s.pi, s.ti) } in
            rw (found, next, other, star, match_loop, match_step)
              (ends s'
                (record {
                  in_pattern = place p s.pi cons';
                  in_text = within.in_text;
                  star_within = (place p s.pi cons', omega arith);
                })
                (omega (
                  arith,
                  place p s.pi cons',
                  mul-le-mul_right (length p + 1) (later p t s s.star within.star_within),
                )))
        | inr literal ↦
            rw (found, next, other, literal, match_loop, match_step)
              (retry-Ends fuel p t s s.star ends (place t s.ti cons) refl within.star_within enough)
      ]
    ]
  ]
]

match_loop-Ends : (fuel : ℕ) (p t : List ℕ) → Ends fuel p t
match_loop-Ends zero p t s within enough = absurd (omega arith)
match_loop-Ends (suc fuel) p t s within enough =
    step-Ends fuel p t (match_loop-Ends fuel p t) s within enough

-- The matching of a pattern against a text always ends, with an answer.
pub x11_font_pattern_match_ends :
    (p t : List ℕ) → (b : Bool) × (x11_font_pattern_match p t ≡ some b)
unfolding x11_font_pattern_match needed anchor
x11_font_pattern_match_ends p t =
    match_loop-Ends (length t * (length p + 1) + length p + 1) p t start
      (record { in_pattern = omega arith; in_text = omega arith; star_within = tt })
      (omega (arith, ap (λ (n : ℕ). n * (length p + 1)) whole))
  where
    whole : length t - 0 ≡ length t
    whole = omega arith

    start : Cursor
    start = record { pi = 0; ti = 0; star = none }

-- If no byte of the text is a star, the answer is whether the pattern stands for the text: each `*`
-- for any bytes, each `?` for one byte, every other byte for itself.
pub x11_font_pattern_match-glob :
    (p t : List ℕ) → NoStar t → x11_font_pattern_match p t ≡ some (glob p t)
x11_font_pattern_match-glob p t clean =
    let (b, run) = x11_font_pattern_match_ends p t in
    run ∙ ap some (match_loop_answer p t clean b run)
