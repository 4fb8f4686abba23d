-- ===== src/Clipping/Middle.antt =====
-- The lines that a rectangle and a child share: src/server/connection.rs, `clip_clear_by_children`.
use psl_xserver.Clipping.{
  Rect, as_u16, left_strip, max_ℤ, middle_strips, min_ℤ, no_overlap, right_strip,
}
use psl_xserver.Clipping.Area.{
  Fits, Placed, left_count, max_of, overlap_parts, right_count, times_covered-append,
}
use psl_xserver.Clipping.Strips.{
  Band, as_i16_lem, as_u16_lem, covers, in-Band, sub_small, times_covered,
}
use psl_xserver.Prelude.{
  Bool-cases, [], arith, false, if◌then◌else◌, inl, inr, ltb, refl, true, ℕ, ◌&&◌, ◌++◌, ◌+◌, ◌<◌,
  ◌≡◌, ◌≤◌, ◌⊎◌,
}
use psl_xserver.Prelude.Int.{
  +ℤ_parts, eq_of_parts, leb_ℤ, ltb_ℤ, neg_part, pos, pos_part, ℤ, ◌+ℤ◌, ◌-ℤ◌, ◌≤ℤ◌,
}

max_cases : (a b : ℤ) → ((max_ℤ a b ≡ b) × (a ≤ℤ b)) ⊎ ((max_ℤ a b ≡ a) × (b ≤ℤ a))
unfolding max_ℤ
max_cases a b = elim (Bool-cases (ltb_ℤ a b)) [
  | inl h ↦ rw h (inl (refl, ground arith))
  | inr h ↦ rw h (inr (refl, ground arith))
]

min_cases : (a b : ℤ) → ((min_ℤ a b ≡ b) × (b ≤ℤ a)) ⊎ ((min_ℤ a b ≡ a) × (a ≤ℤ b))
unfolding min_ℤ
min_cases a b = elim (Bool-cases (ltb_ℤ b a)) [
  | inl h ↦ rw h (inl (refl, ground arith))
  | inr h ↦ rw h (inr (refl, ground arith))
]

-- The height between two lines.
height_between :
    (b t : ℤ)
    → t ≤ℤ b
    → pos_part b + neg_part t < 65536 + pos_part t + neg_part b
    → t +ℤ pos (as_u16 (max_ℤ (b -ℤ t) (pos 0))) ≡ b
height_between b t h k =
    let (e, f) = sub_small b t h in
    rw (max_of (b -ℤ t) (pos 0) (omega (arith, e)), as_u16_lem (b -ℤ t) e (omega (arith, f)))
      (eq_of_parts (t +ℤ pos (pos_part (b -ℤ t))) b
        (omega (arith, +ℤ_parts t (pos (pos_part (b -ℤ t))), f)))

pub middle_top :
    (c r : Rect)
    → (r.y ≤ℤ max_ℤ c.y r.y)
      × (c.y ≤ℤ max_ℤ c.y r.y)
      × ((max_ℤ c.y r.y ≡ r.y) ⊎ (max_ℤ c.y r.y ≡ c.y))
middle_top c r = elim (max_cases c.y r.y) [
  | inl (e, h) ↦ rw e (omega arith, h, inl refl)
  | inr (e, h) ↦ rw e (h, omega arith, inr refl)
]

pub lower_of :
    (a b : ℤ) → (min_ℤ a b ≤ℤ a) × (min_ℤ a b ≤ℤ b) × ((a ≤ℤ min_ℤ a b) ⊎ (b ≤ℤ min_ℤ a b))
lower_of a b = elim (min_cases a b) [
  | inl (e, h) ↦ rw e (h, omega arith, inr (omega arith))
  | inr (e, h) ↦ rw e (omega arith, h, inl (omega arith))
]

top_bottom :
    (c r : Rect) (t b : ℤ)
    → ltb_ℤ r.y (c.y +ℤ pos c.height) ≡ true
    → ltb_ℤ c.y (r.y +ℤ pos r.height) ≡ true
    → (t ≡ r.y) ⊎ (t ≡ c.y)
    → (c.y +ℤ pos c.height ≤ℤ b) ⊎ (r.y +ℤ pos r.height ≤ℤ b)
    → t ≤ℤ b
top_bottom c r t b p q (inl e) (inl h) = rw e (ground arith)
top_bottom c r t b p q (inl e) (inr h) = rw e (omega (arith, +ℤ_parts r.y (pos r.height)))
top_bottom c r t b p q (inr e) (inl h) = rw e (omega (arith, +ℤ_parts c.y (pos c.height)))
top_bottom c r t b p q (inr e) (inr h) = rw e (ground arith)

pub Band-between :
    (c r : Rect) (t b : ℤ)
    → r.height < 65536
    → no_overlap c r ≡ false
    → (r.y ≤ℤ t) × (c.y ≤ℤ t) × ((t ≡ r.y) ⊎ (t ≡ c.y))
    → (b ≤ℤ c.y +ℤ pos c.height)
      × (b ≤ℤ r.y +ℤ pos r.height)
      × ((c.y +ℤ pos c.height ≤ℤ b) ⊎ (r.y +ℤ pos r.height ≤ℤ b))
    → Band c r t (as_u16 (max_ℤ (b -ℤ t) (pos 0)))
Band-between c r t b g o (low_r, low_c, top) (high_c, high_r, bottom) =
    let (p, q, u, v) = overlap_parts c r o in
    let t_b = top_bottom c r t b p q top bottom in
    let e = height_between b t t_b (omega (arith, +ℤ_parts r.y (pos r.height))) in
    record {
      below_r = low_r;
      below_c = low_c;
      top = top;
      above_r = rw e high_r;
      above_c = rw e high_c;
      bottom = rw e (elim bottom [ inl h ↦ inr h | inr h ↦ inl h ]);
    }

pub max_low : (c r : Rect) → Placed c → Placed r → neg_part (max_ℤ c.y r.y) ≤ 32768
unfolding Placed max_ℤ
max_low c r (a, b, d, e) (a', b', d', e') = ground arith

pub max_high : (c r : Rect) → Placed c → Placed r → pos_part (max_ℤ c.y r.y) < 32768
unfolding Placed max_ℤ
max_high c r (a, b, d, e) (a', b', d', e') = ground arith

nothing : (px py : ℤ) → times_covered [] px py ≡ 0 + 0
unfolding times_covered
nothing px py = omega arith

no_lines :
    (c r : Rect) (px py t : ℤ) (m : ℕ)
    → Band c r t m
    → ltb 0 m ≡ false
    → (covers r px py && (leb_ℤ c.y py && ltb_ℤ py (c.y +ℤ pos c.height))) ≡ false
unfolding covers
no_lines c r px py t m b h = grind (arith, in-Band c r t m b py, +ℤ_parts t (pos m))

shared_strips :
    (c r : Rect) (px py t : ℤ) (m : ℕ)
    → Fits r
    → Placed c
    → no_overlap c r ≡ false
    → Band c r t m
    → times_covered (if ltb 0 m then left_strip c r t m ++ right_strip c r t m else []) px py
      ≡ (if covers r px py && (leb_ℤ c.y py && ltb_ℤ py (c.y +ℤ pos c.height)) && ltb_ℤ px c.x
          then 1
          else 0)
        + (if covers r px py
              && (leb_ℤ c.y py && ltb_ℤ py (c.y +ℤ pos c.height))
              && leb_ℤ (c.x +ℤ pos c.width) px
            then 1
            else 0)
shared_strips c r px py t m f pl o b = elim (Bool-cases (ltb 0 m)) [
  | inl h ↦
      rw
        (
          h,
          times_covered-append (left_strip c r t m) (right_strip c r t m) px py,
          left_count c r px py t m f b,
          right_count c r px py t m f pl o b,
        )
        refl
  | inr h ↦ rw (h, no_lines c r px py t m b h) (nothing px py)
]

pub middle_count :
    (c r : Rect) (px py : ℤ)
    → Fits r
    → Placed c
    → no_overlap c r ≡ false
    → times_covered (middle_strips c r) px py
      ≡ (if covers r px py && (leb_ℤ c.y py && ltb_ℤ py (c.y +ℤ pos c.height)) && ltb_ℤ px c.x
          then 1
          else 0)
        + (if covers r px py
              && (leb_ℤ c.y py && ltb_ℤ py (c.y +ℤ pos c.height))
              && leb_ℤ (c.x +ℤ pos c.width) px
            then 1
            else 0)
unfolding middle_strips Fits Placed times_covered
middle_count c r px py (fr, d, e, f, g) (a, b, i, k) o =
    let t = max_ℤ c.y r.y in
    let band =
      Band-between c r t (min_ℤ (c.y +ℤ pos c.height) (r.y +ℤ pos r.height)) g o (middle_top c r)
        (lower_of (c.y +ℤ pos c.height) (r.y +ℤ pos r.height)) in
    rw (as_i16_lem t (max_low c r ((a, b, i, k)) fr) (max_high c r ((a, b, i, k)) fr))
      (shared_strips c r px py t _ (fr, d, e, f, g) (a, b, i, k) o band)
