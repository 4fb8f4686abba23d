-- ===== src/Fonts/Soundness.antt =====
-- Every run of the loop of `x11_font_pattern_match` (src/server/connection.rs) gives the right
-- answer.
use psl_xserver.Fonts.{Cursor, match_loop, match_step, retry, skip_stars, x11_font_pattern_match}
use psl_xserver.Fonts.Glob.{glob, one_byte, some_suffix}
use psl_xserver.Fonts.Matching.{
  At, NoStar, NoStar-at, Sound, absorbed, after_retry, alternative, alternative-cons, at_end,
  drop-cases, goes_on, new_star, or_false, place, skip_stars-glob, taken_step, verdict,
}
use psl_xserver.Prelude.{
  Bool, Bool-cases, List, [], ap, arith, drop, false, inl, inr, length, length-drop, none, refl,
  some, subst, suc, sym, unwrap_or, zero, ℕ, ◌*◌, ◌+◌, ◌==◌, ◌||◌, ◌∙◌, ◌∷◌, ◌≡◌,
}

Sound-step : (fuel : ℕ) (p t : List ℕ) → NoStar t → Sound fuel p t → Sound (suc fuel) p t
unfolding match_loop match_step verdict glob one_byte some_suffix
Sound-step fuel p t clean sound s b at run = elim (drop-cases t s.ti) [
  | inl (gone, nil) ↦
      let size : length (drop s.ti t) ≡ 0 = ap length nil in
      let run' : some (skip_stars (drop s.pi p) s.pi == length p) ≡ some b =
        rw (gone, match_loop) at run in
      let answer =
        skip_stars-glob (drop s.pi p) s.pi (length p)
          (omega (arith, length-drop s.pi p, at.in_pattern)) in
      let none_left = at_end p t s s.star at.last_star (omega (arith, length-drop s.ti t, size)) in
      rw (verdict, nil, none_left, or_false (glob (drop s.pi p) []))
        (sym (ap (unwrap_or b) run') ∙ answer)
  | inr (x, (found, cons)) ↦ elim (drop-cases p s.pi) [
    | inl (no_more, nil) ↦
        let run' : goes_on fuel p t (retry s) ≡ some b =
          rw (found, no_more, match_loop, match_step) at run in
        rw (verdict, nil, cons)
          (after_retry fuel p t s s.star b sound (place t s.ti cons) refl at.last_star run')
    | inr (c, (next, cons')) ↦ elim (Bool-cases (c == 63 || c == x)) [
      | inl taken ↦
          let plain : (x == 42) ≡ false = NoStar-at t s.ti x clean found in
          let literal : (c == 42) ≡ false = ground arith in
          let s' : Cursor = record s { pi = suc s.pi; ti = suc s.ti } in
          let run' : match_loop fuel p t s' ≡ some b =
            rw (found, next, taken, match_loop, match_step) at run in
          let at' : At p t s' = record {
            in_pattern = place p s.pi cons';
            in_text = place t s.ti cons;
            last_star = taken_step p t s s.star at.last_star cons' literal;
          } in
          rw (verdict, cons, cons', literal, taken) (sound s' b at' run')
      | inr other ↦ elim (Bool-cases (c == 42)) [
        | inl star ↦
            let s' : Cursor = record s { pi = suc s.pi; star = some (s.pi, s.ti) } in
            let run' : match_loop fuel p t s' ≡ some b =
              rw (found, next, other, star, match_loop, match_step) at run in
            let is_star : c ≡ 42 = ground arith in
            let first : drop s.pi p ≡ 42 ∷ drop (suc s.pi) p =
              subst (λ d. drop s.pi p ≡ d ∷ drop (suc s.pi) p) is_star cons' in
            let at' : At p t s' = record {
              in_pattern = place p s.pi cons';
              in_text = at.in_text;
              last_star = (0, (omega arith, (omega arith, (place p s.pi cons', tt))));
            } in
            let later = alternative-cons p t s.pi s.ti cons in
            let known = new_star p t s s.star at.last_star first (place t s.ti cons) in
            let meant : verdict p t s'
                ≡ some_suffix (λ u. glob (drop (suc s.pi) p) u) (drop s.ti t) =
              rw (verdict, later, cons) refl in
            rw (verdict, first)
              (sound s' b at' run'
                ∙ meant
                ∙ absorbed (some_suffix (λ u. glob (drop (suc s.pi) p) u) (drop s.ti t))
                    (alternative p t s.star) known)
        | inr literal ↦
            let run' : goes_on fuel p t (retry s) ≡ some b =
              rw (found, next, other, literal, match_loop, match_step) at run in
            rw (verdict, cons, cons', literal, other)
              (after_retry fuel p t s s.star b sound (place t s.ti cons) refl at.last_star run')
      ]
    ]
  ]
]

match_loop-Sound : (fuel : ℕ) (p t : List ℕ) → NoStar t → Sound fuel p t
unfolding match_loop
match_loop-Sound zero p t clean s b at run = absurd (cc run)
match_loop-Sound (suc fuel) p t clean s b at run =
    Sound-step fuel p t clean (match_loop-Sound fuel p t clean) s b at run

pub match_loop_answer :
    (p t : List ℕ) → NoStar t → (b : Bool) → x11_font_pattern_match p t ≡ some b → b ≡ glob p t
unfolding x11_font_pattern_match verdict alternative
match_loop_answer p t clean b run =
    match_loop-Sound (length t * (length p + 1) + length p + 1) p t clean start b
      (record { in_pattern = omega arith; in_text = omega arith; last_star = tt }) run
    ∙ or_false (glob p t)
  where
    start : Cursor
    start = record { pi = 0; ti = 0; star = none }
