-- ===== src/Clipping/Strips.antt =====
-- The points that the strips of a rectangle cover: src/server/connection.rs, `clip_clear_by_children`.
use psl_xserver.Clipping.{Rect, as_i16, as_u16, min_ℤ, push_if}
use psl_xserver.Prelude.{
  Bool, List, [], ap, arith, false, if◌then◌else◌, inl, inr, ltb, not, refl, true, ℕ, ◌&&◌, ◌+◌,
  ◌<◌, ◌∙◌, ◌∷◌, ◌≡◌, ◌≤◌, ◌⊎◌,
}
use psl_xserver.Prelude.Int.{+ℤ_parts, leb_ℤ, ltb_ℤ, neg_part, pos, pos_part, ℤ, ◌+ℤ◌, ◌-ℤ◌, ◌≤ℤ◌}

-- Whether a rectangle has the point of column `px` and line `py`.
unfoldable pub covers : Rect → (px py : ℤ) → Bool
covers r px py =
    leb_ℤ r.x px && ltb_ℤ px (r.x +ℤ pos r.width) && leb_ℤ r.y py && ltb_ℤ py (r.y +ℤ pos r.height)

unfoldable pub times_covered : List Rect → (px py : ℤ) → ℕ
unfolding covers
times_covered [] px py = 0
times_covered (r ∷ rects) px py = (if covers r px py then 1 else 0) + times_covered rects px py

pub as_u16_lem : (a : ℤ) → neg_part a ≡ 0 → pos_part a < 65536 → as_u16 a ≡ pos_part a
unfolding as_u16
as_u16_lem a h k = ground arith

pub as_i16_lem : (a : ℤ) → neg_part a ≤ 32768 → pos_part a < 32768 → as_i16 a ≡ a
unfolding as_i16 as_u16
as_i16_lem a h k = ground arith

-- `n` is the lower of the size `h` and the way from `b` to `a`.
unfoldable pub Gap : (a b : ℤ) (h n : ℕ) → Type 0
Gap a b h n =
    ((n ≡ h) × (pos_part b + h + neg_part a ≤ pos_part a + neg_part b))
    ⊎ ((n ≤ h) × (pos_part b + n + neg_part a ≡ pos_part a + neg_part b))

min_parts :
    (a : ℤ) (h : ℕ)
    → neg_part a ≡ 0
    → (neg_part (min_ℤ a (pos h)) ≡ 0)
      × (((pos_part (min_ℤ a (pos h)) ≡ h) × (h ≤ pos_part a))
          ⊎ ((pos_part (min_ℤ a (pos h)) ≤ h) × (pos_part (min_ℤ a (pos h)) ≡ pos_part a)))
unfolding min_ℤ
min_parts a h e = ground arith

pub sub_small :
    (a b : ℤ)
    → b ≤ℤ a
    → (neg_part (a -ℤ b) ≡ 0)
      × (pos_part b + neg_part a + pos_part (a -ℤ b) ≡ pos_part a + neg_part b)
unfolding ◌-ℤ◌
sub_small a b h = ground arith

pub gap : (a b : ℤ) (h : ℕ) → h < 65536 → b ≤ℤ a → Gap a b h (as_u16 (min_ℤ (a -ℤ b) (pos h)))
unfolding Gap
gap a b h k o =
    let (e, f) = sub_small a b o in
    let (n, m) = min_parts (a -ℤ b) h e in
    elim m [
      | inl (g, i) ↦ rw (as_u16_lem (min_ℤ (a -ℤ b) (pos h)) n (omega arith)) (inl (g, omega arith))
      | inr (g, i) ↦ rw (as_u16_lem (min_ℤ (a -ℤ b) (pos h)) n (omega arith)) (inr (g, omega arith))
    ]

-- A strip of `n` lines from the upper edge.
pub upper :
    (c r : Rect) (px py : ℤ) (n : ℕ)
    → r.y ≤ℤ c.y
    → Gap c.y r.y r.height n
    → times_covered (push_if (ltb 0 n) (record r { height = n })) px py
      ≡ (if covers r px py && ltb_ℤ py c.y then 1 else 0)
unfolding push_if times_covered covers Gap
upper c r px py n o (inl (g, h)) =
    ground (arith, +ℤ_parts r.y (pos r.height), +ℤ_parts r.y (pos n), g)
upper c r px py n o (inr (g, h)) =
    ground (arith, +ℤ_parts r.y (pos r.height), +ℤ_parts r.y (pos n), g)

-- A strip of `n` lines down to the lower edge.
pub lower :
    (r : Rect) (px py t : ℤ) (n : ℕ)
    → r.y ≤ℤ t
    → Gap (r.y +ℤ pos r.height) t r.height n
    → times_covered (push_if (ltb 0 n) (record r { y = t; height = n })) px py
      ≡ (if covers r px py && leb_ℤ t py then 1 else 0)
unfolding push_if times_covered covers Gap
lower r px py t n o (inl (g, h)) =
    ground (arith, +ℤ_parts r.y (pos r.height), +ℤ_parts t (pos n), g)
lower r px py t n o (inr (g, h)) =
    ground (arith, +ℤ_parts r.y (pos r.height), +ℤ_parts t (pos n), g)

-- The lines that a rectangle and a child share.
pub record Band (c r : Rect) (t : ℤ) (m : ℕ) : Type 0 where
  pub below_r : r.y ≤ℤ t
  pub below_c : c.y ≤ℤ t
  pub top : (t ≡ r.y) ⊎ (t ≡ c.y)
  pub above_r : t +ℤ pos m ≤ℤ r.y +ℤ pos r.height
  pub above_c : t +ℤ pos m ≤ℤ c.y +ℤ pos c.height
  pub bottom : (r.y +ℤ pos r.height ≤ℤ t +ℤ pos m) ⊎ (c.y +ℤ pos c.height ≤ℤ t +ℤ pos m)

pub in-Band :
    (c r : Rect) (t : ℤ) (m : ℕ)
    → Band c r t m
    → (py : ℤ)
    → (leb_ℤ t py && ltb_ℤ py (t +ℤ pos m)) ≡ (
        leb_ℤ r.y py
        && ltb_ℤ py (r.y +ℤ pos r.height)
        && (leb_ℤ c.y py && ltb_ℤ py (c.y +ℤ pos c.height)))
in-Band c r t m b py = elim b.top [
  | inl e ↦ elim b.bottom [
    | inl o ↦
        ground (arith, b.below_r, b.below_c, b.above_r, b.above_c, ap pos_part e, ap neg_part e)
    | inr o ↦
        ground (arith, b.below_r, b.below_c, b.above_r, b.above_c, ap pos_part e, ap neg_part e)
  ]
  | inr e ↦ elim b.bottom [
    | inl o ↦
        ground (arith, b.below_r, b.below_c, b.above_r, b.above_c, ap pos_part e, ap neg_part e)
    | inr o ↦
        ground (arith, b.below_r, b.below_c, b.above_r, b.above_c, ap pos_part e, ap neg_part e)
  ]
]

count_columns :
    (x t : ℤ) (m n : ℕ) (px py : ℤ)
    → times_covered (push_if (ltb 0 n) (record { x = x; y = t; width = n; height = m })) px py ≡ (
        if (leb_ℤ x px && ltb_ℤ px (x +ℤ pos n)) && (leb_ℤ t py && ltb_ℤ py (t +ℤ pos m))
        then 1
        else 0)
unfolding push_if times_covered covers
count_columns x t m n px py = ground (arith, +ℤ_parts x (pos n))

left_part :
    (a b px : ℤ) (w n : ℕ)
    → b ≤ℤ a
    → Gap a b w n
    → (leb_ℤ b px && ltb_ℤ px (b +ℤ pos n)) ≡ (leb_ℤ b px && ltb_ℤ px (b +ℤ pos w) && ltb_ℤ px a)
unfolding Gap
left_part a b px w n o (inl (g, h)) = ground (arith, +ℤ_parts b (pos w), +ℤ_parts b (pos n))
left_part a b px w n o (inr (g, h)) = ground (arith, +ℤ_parts b (pos w), +ℤ_parts b (pos n))

right_part :
    (b l px : ℤ) (w n : ℕ)
    → b ≤ℤ l
    → Gap (b +ℤ pos w) l w n
    → (leb_ℤ l px && ltb_ℤ px (l +ℤ pos n)) ≡ (leb_ℤ b px && ltb_ℤ px (b +ℤ pos w) && leb_ℤ l px)
unfolding Gap
right_part b l px w n o (inl (g, h)) = ground (arith, +ℤ_parts b (pos w), +ℤ_parts l (pos n))
right_part b l px w n o (inr (g, h)) = ground (arith, +ℤ_parts b (pos w), +ℤ_parts l (pos n))

shuffle :
    (a b g d e p q : Bool)
    → ◌≡◌ {A = ℕ}
        (if (a && b && g) && (d && e && (p && q)) then 1 else 0)
        (if a && b && d && e && (p && q) && g then 1 else 0)
shuffle a b g d e p q = ground arith

pub leftmost :
    (c r : Rect) (px py t : ℤ) (m n : ℕ)
    → Band c r t m
    → r.x ≤ℤ c.x
    → Gap c.x r.x r.width n
    → times_covered (push_if (ltb 0 n) (record { x = r.x; y = t; width = n; height = m })) px py ≡ (
        if covers r px py && (leb_ℤ c.y py && ltb_ℤ py (c.y +ℤ pos c.height)) && ltb_ℤ px c.x
        then 1
        else 0)
unfolding covers
leftmost c r px py t m n b o g =
    count_columns r.x t m n px py
    ∙ rw (left_part c.x r.x px r.width n o g, in-Band c r t m b py)
        (shuffle (leb_ℤ r.x px) (ltb_ℤ px (r.x +ℤ pos r.width)) (ltb_ℤ px c.x) (leb_ℤ r.y py)
          (ltb_ℤ py (r.y +ℤ pos r.height)) (leb_ℤ c.y py) (ltb_ℤ py (c.y +ℤ pos c.height)))

pub rightmost :
    (c r : Rect) (px py t l : ℤ) (m n : ℕ)
    → Band c r t m
    → r.x ≤ℤ l
    → Gap (r.x +ℤ pos r.width) l r.width n
    → times_covered (push_if (ltb 0 n) (record { x = l; y = t; width = n; height = m })) px py ≡ (
        if covers r px py && (leb_ℤ c.y py && ltb_ℤ py (c.y +ℤ pos c.height)) && leb_ℤ l px
        then 1
        else 0)
unfolding covers
rightmost c r px py t l m n b o g =
    count_columns l t m n px py
    ∙ rw (right_part r.x l px r.width n o g, in-Band c r t m b py)
        (shuffle (leb_ℤ r.x px) (ltb_ℤ px (r.x +ℤ pos r.width)) (leb_ℤ l px) (leb_ℤ r.y py)
          (ltb_ℤ py (r.y +ℤ pos r.height)) (leb_ℤ c.y py) (ltb_ℤ py (c.y +ℤ pos c.height)))

sides :
    (a p : ℤ) (w : ℕ)
    → (ltb_ℤ p a ≡ not (leb_ℤ a p))
      × (leb_ℤ (a +ℤ pos w) p ≡ not (ltb_ℤ p (a +ℤ pos w)))
      × ((not (leb_ℤ a p) && not (ltb_ℤ p (a +ℤ pos w))) ≡ false)
sides a p w = (ground arith, ground arith, ground (arith, +ℤ_parts a (pos w)))

one_of_four :
    (v a b c d : Bool)
    → (not a && not b) ≡ false
    → (not c && not d) ≡ false
    → ◌+◌ (if v && not a then 1 else 0) (
        (if v && not b then 1 else 0)
        + ((if v && (a && b) && not c then 1 else 0) + (if v && (a && b) && not d then 1 else 0)))
      ≡ (if v && not (c && d && a && b) then 1 else 0)
one_of_four false a b c d h k = refl
one_of_four true true true c d h k = ground arith
one_of_four true true false c d h k = ground arith
one_of_four true false true c d h k = ground arith
one_of_four true false false c d h k = ground arith

-- The four parts make up the rectangle without the child.
pub four_parts :
    (c r : Rect) (px py : ℤ)
    → (if covers r px py && ltb_ℤ py c.y then 1 else 0)
        + ((if covers r px py && leb_ℤ (c.y +ℤ pos c.height) py then 1 else 0)
            + ((if covers r px py
                    && (leb_ℤ c.y py && ltb_ℤ py (c.y +ℤ pos c.height))
                    && ltb_ℤ px c.x
                  then 1
                  else 0)
                + (if covers r px py
                      && (leb_ℤ c.y py && ltb_ℤ py (c.y +ℤ pos c.height))
                      && leb_ℤ (c.x +ℤ pos c.width) px
                    then 1
                    else 0)))
      ≡ (if covers r px py && not (covers c px py) then 1 else 0)
unfolding covers
four_parts c r px py =
    let (yl, yu, ye) = sides c.y py c.height in
    let (xl, xu, xe) = sides c.x px c.width in
    rw (yl, yu, xl, xu)
      (one_of_four (covers r px py) (leb_ℤ c.y py) (ltb_ℤ py (c.y +ℤ pos c.height)) (leb_ℤ c.x px)
        (ltb_ℤ px (c.x +ℤ pos c.width)) ye xe)
