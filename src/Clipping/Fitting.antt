-- ===== src/Clipping/Fitting.antt =====
-- The strips of a rectangle stay within the numbers of i16: src/server/connection.rs,
-- `clip_clear_by_children`.
use psl_xserver.Clipping.{
  Rect, as_u16, bottom_strip, left_strip, max_ℤ, middle_strips, min_ℤ, no_overlap, push_if,
  right_strip, subtract, top_strip,
}
use psl_xserver.Clipping.Area.{Fits, Placed, before, lt_of, max_of, neg_sum, overlap_parts, pos_sum}
use psl_xserver.Clipping.Middle.{Band-between, lower_of, max_high, max_low, middle_top}
use psl_xserver.Clipping.Strips.{Band, Gap, as_i16_lem, gap}
use psl_xserver.Prelude.{
  Bool, Bool-cases, List, [], arith, false, if◌then◌else◌, inl, inr, ltb, true, ℕ, ◌++◌, ◌+◌, ◌<◌,
  ◌∷◌, ◌≡◌, ◌≤◌,
}
use psl_xserver.Prelude.Int.{+ℤ_parts, ltb_ℤ, neg_part, pos, pos_part, ℤ, ◌+ℤ◌, ◌-ℤ◌}

unfoldable pub AllFit : List Rect → Type 0
AllFit [] = Unit {0}
AllFit (r ∷ rs) = Fits r × AllFit rs

pub AllFit-append : (rs ss : List Rect) → AllFit rs → AllFit ss → AllFit (rs ++ ss)
unfolding AllFit
AllFit-append [] ss f g = g
AllFit-append (r ∷ rs) ss (first, f) g = (first, AllFit-append rs ss f g)

pushed-AllFit : (b : Bool) (r : Rect) → Fits r → AllFit (push_if b r)
unfolding AllFit push_if
pushed-AllFit true r f = (f, tt)
pushed-AllFit false r f = tt

none_AllFit : AllFit []
unfolding AllFit
none_AllFit = tt

shorter : (a b : ℤ) (h n : ℕ) → Gap a b h n → n ≤ h
unfolding Gap
shorter a b h n (inl (e, g)) = omega arith
shorter a b h n (inr (g, e)) = g

reaches : (a b : ℤ) (h n : ℕ) → Gap a b h n → pos_part b + n + neg_part a ≤ pos_part a + neg_part b
unfolding Gap
reaches a b h n (inl (e, g)) = omega arith
reaches a b h n (inr (g, e)) = omega arith

as_u16_small : (a : ℤ) → as_u16 a < 65536
unfolding as_u16
as_u16_small a = ground arith

top-AllFit : (c r : Rect) → Fits r → AllFit (top_strip c r)
unfolding top_strip Fits Placed push_if
top-AllFit c r ((a, b, i, k), d, e, f, g) = elim (Bool-cases (ltb_ℤ r.y c.y)) [
  | inl h ↦
      let n = as_u16 (min_ℤ (c.y -ℤ r.y) (pos r.height)) in
      let low = shorter c.y r.y r.height n (gap c.y r.y r.height g (ground arith)) in
      rw h (
        pushed-AllFit (ltb 0 n) (record r { height = n })
          ((a, b, i, k), d, omega arith, f, omega arith))
  | inr h ↦ rw h none_AllFit
]

bottom-AllFit :
    (c r : Rect) → Fits r → Placed c → no_overlap c r ≡ false → AllFit (bottom_strip c r)
unfolding bottom_strip Fits Placed push_if
bottom-AllFit c r ((a, b, i, k), d, e, f, g) (a', b', d', e') o =
    let (p, q, u, v) = overlap_parts c r o in
    let cy2 = c.y +ℤ pos c.height in
    let ry2 = r.y +ℤ pos r.height in
    elim (Bool-cases (ltb_ℤ cy2 ry2)) [
      | inl h ↦
          let n = as_u16 (min_ℤ (ry2 -ℤ cy2) (pos r.height)) in
          let way = gap ry2 cy2 r.height g (ground arith) in
          let low = shorter ry2 cy2 r.height n way in
          let end = reaches ry2 cy2 r.height n way in
          let left = neg_sum c.y c.height 32768 b' in
          let top = pos_sum r.y r.height 32768 e in
          let place = lt_of (before cy2 ry2 32767 h top) in
          rw (h, max_of cy2 r.y (ground arith), as_i16_lem cy2 left place)
            (pushed-AllFit (ltb 0 n) (record r { y = cy2; height = n })
              ((a, left, i, place), d, omega (arith, end, top), f, omega (arith, low, g)))
      | inr h ↦ rw h none_AllFit
    ]

height-Band :
    (c r : Rect) (t : ℤ) (m : ℕ)
    → pos_part r.y + r.height ≤ 32768 + neg_part r.y
    → Band c r t m
    → pos_part t + m ≤ 32768 + neg_part t
height-Band c r t m e band =
    omega (arith, band.above_r, +ℤ_parts t (pos m), +ℤ_parts r.y (pos r.height), e)

left-AllFit :
    (c r : Rect) (t : ℤ) (m : ℕ)
    → Fits r
    → neg_part t ≤ 32768
    → pos_part t < 32768
    → m < 65536
    → Band c r t m
    → AllFit (left_strip c r t m)
unfolding left_strip Fits Placed push_if
left-AllFit c r t m ((a, b, i, k), d, e, f, g) low high small band =
    elim (Bool-cases (ltb_ℤ r.x c.x)) [
      | inl h ↦
          let n = as_u16 (min_ℤ (c.x -ℤ r.x) (pos r.width)) in
          let less = shorter c.x r.x r.width n (gap c.x r.x r.width f (ground arith)) in
          rw h (
            pushed-AllFit (ltb 0 n) (record { x = r.x; y = t; width = n; height = m })
              (
                (a, low, i, high),
                omega (arith, less, d),
                height-Band c r t m e band,
                omega (arith, less, f),
                small,
              ))
      | inr h ↦ rw h none_AllFit
    ]

right-AllFit :
    (c r : Rect) (t : ℤ) (m : ℕ)
    → Fits r
    → Placed c
    → no_overlap c r ≡ false
    → neg_part t ≤ 32768
    → pos_part t < 32768
    → m < 65536
    → Band c r t m
    → AllFit (right_strip c r t m)
unfolding right_strip Fits Placed push_if
right-AllFit c r t m ((a, b, i, k), d, e, f, g) (a', b', d', e') o low high small band =
    let (p, q, u, v) = overlap_parts c r o in
    let cx2 = c.x +ℤ pos c.width in
    let rx2 = r.x +ℤ pos r.width in
    elim (Bool-cases (ltb_ℤ cx2 rx2)) [
      | inl h ↦
          let n = as_u16 (min_ℤ (rx2 -ℤ cx2) (pos r.width)) in
          let way = gap rx2 cx2 r.width f (ground arith) in
          let less = shorter rx2 cx2 r.width n way in
          let end = reaches rx2 cx2 r.width n way in
          let left = neg_sum c.x c.width 32768 a' in
          let top = pos_sum r.x r.width 32768 d in
          let place = lt_of (before cx2 rx2 32767 h top) in
          rw (h, max_of cx2 r.x (ground arith), as_i16_lem cx2 left place)
            (pushed-AllFit (ltb 0 n) (record { x = cx2; y = t; width = n; height = m })
              (
                (left, low, place, high),
                omega (arith, end, top),
                height-Band c r t m e band,
                omega (arith, less, f),
                small,
              ))
      | inr h ↦ rw h none_AllFit
    ]

shared-AllFit :
    (c r : Rect) (t : ℤ) (m : ℕ)
    → Fits r
    → Placed c
    → no_overlap c r ≡ false
    → neg_part t ≤ 32768
    → pos_part t < 32768
    → m < 65536
    → Band c r t m
    → AllFit (if ltb 0 m then left_strip c r t m ++ right_strip c r t m else [])
shared-AllFit c r t m f p o low high small band = elim (Bool-cases (ltb 0 m)) [
  | inl h ↦ rw h (
      AllFit-append (left_strip c r t m) (right_strip c r t m)
        (left-AllFit c r t m f low high small band)
        (right-AllFit c r t m f p o low high small band))
  | inr h ↦ rw h none_AllFit
]

middle-AllFit :
    (c r : Rect) → Fits r → Placed c → no_overlap c r ≡ false → AllFit (middle_strips c r)
unfolding middle_strips Fits Placed
middle-AllFit c r (fr, d, e, f, g) p o =
    let t = max_ℤ c.y r.y in
    let b = min_ℤ (c.y +ℤ pos c.height) (r.y +ℤ pos r.height) in
    let band =
      Band-between c r t b g o (middle_top c r)
        (lower_of (c.y +ℤ pos c.height) (r.y +ℤ pos r.height)) in
    let low = max_low c r p fr in
    let high = max_high c r p fr in
    rw (as_i16_lem t low high)
      (shared-AllFit c r t _ (fr, d, e, f, g) p o low high (as_u16_small _) band)

pub subtract-AllFit : (c r : Rect) → Fits r → Placed c → AllFit (subtract c r)
unfolding subtract AllFit
subtract-AllFit c r f p = elim (Bool-cases (no_overlap c r)) [
  | inl h ↦ rw h (f, tt)
  | inr h ↦ rw h (
      AllFit-append (top_strip c r ++ bottom_strip c r) (middle_strips c r)
        (AllFit-append (top_strip c r) (bottom_strip c r) (top-AllFit c r f)
          (bottom-AllFit c r f p h))
        (middle-AllFit c r f p h))
]
