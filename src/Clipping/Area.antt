-- ===== src/Clipping/Area.antt =====
-- What the strips above, below and beside a child cover: src/server/connection.rs, `clip_clear_by_children`.
-- A child's place is an i16.
use psl_xserver.Clipping.{
  Rect, as_u16, bottom_strip, left_strip, max_ℤ, min_ℤ, no_overlap, push_if, right_strip, top_strip,
}
use psl_xserver.Clipping.Strips.{
  Band, as_i16_lem, covers, gap, leftmost, lower, rightmost, times_covered, upper,
}
use psl_xserver.Prelude.{
  Bool, Bool-cases, List, [], arith, false, if◌then◌else◌, inl, inr, suc, true, ℕ, ◌&&◌, ◌++◌, ◌+◌,
  ◌<◌, ◌∷◌, ◌≡◌, ◌≤◌,
}
use psl_xserver.Prelude.Int.{leb_ℤ, ltb_ℤ, neg_part, pos, pos_part, ℤ, ◌+ℤ◌, ◌-ℤ◌, ◌≤ℤ◌}

unfoldable pub Placed : Rect → Type 0
Placed c =
    (neg_part c.x ≤ 32768)
    × (neg_part c.y ≤ 32768)
    × (pos_part c.x < 32768)
    × (pos_part c.y < 32768)

-- A rectangle that lies in the numbers of i16.

unfoldable pub Fits : Rect → Type 0
unfolding Placed
Fits r =
    Placed r
    × (pos_part r.x + r.width ≤ 32768 + neg_part r.x)
    × (pos_part r.y + r.height ≤ 32768 + neg_part r.y)
    × (r.width < 65536)
    × (r.height < 65536)

pub times_covered-append :
    (rs ss : List Rect) (px py : ℤ)
    → times_covered (rs ++ ss) px py ≡ times_covered rs px py + times_covered ss px py
unfolding times_covered
times_covered-append [] ss px py = omega arith
times_covered-append (r ∷ rs) ss px py = grind (arith, times_covered-append rs ss px py)

none_above :
    (c r : Rect) (px py : ℤ)
    → ltb_ℤ r.y c.y ≡ false
    → times_covered [] px py ≡ (if covers r px py && ltb_ℤ py c.y then 1 else 0)
unfolding covers times_covered
none_above c r px py h = ground arith

none_below :
    (r : Rect) (px py t : ℤ)
    → ltb_ℤ t (r.y +ℤ pos r.height) ≡ false
    → times_covered [] px py ≡ (if covers r px py && leb_ℤ t py then 1 else 0)
unfolding covers times_covered
none_below r px py t h = ground arith

none_left :
    (c r : Rect) (b : Bool) (px py : ℤ)
    → ltb_ℤ r.x c.x ≡ false
    → times_covered [] px py ≡ (if covers r px py && b && ltb_ℤ px c.x then 1 else 0)
unfolding covers times_covered
none_left c r b px py h = ground arith

none_right :
    (r : Rect) (b : Bool) (px py t : ℤ)
    → ltb_ℤ t (r.x +ℤ pos r.width) ≡ false
    → times_covered [] px py ≡ (if covers r px py && b && leb_ℤ t px then 1 else 0)
unfolding covers times_covered
none_right r b px py t h = ground arith

pub top_count :
    (c r : Rect) (px py : ℤ)
    → Fits r
    → times_covered (top_strip c r) px py ≡ (if covers r px py && ltb_ℤ py c.y then 1 else 0)
unfolding top_strip Fits Placed push_if times_covered
top_count c r px py ((a, b, i, k), d, e, f, g) = elim (Bool-cases (ltb_ℤ r.y c.y)) [
  | inl h ↦ rw h (
      upper c r px py (as_u16 (min_ℤ (c.y -ℤ r.y) (pos r.height))) (ground arith)
        (gap c.y r.y r.height g (ground arith)))
  | inr h ↦ rw h (none_above c r px py h)
]

pub overlap_parts :
    (c r : Rect)
    → no_overlap c r ≡ false
    → (ltb_ℤ r.y (c.y +ℤ pos c.height) ≡ true)
      × (ltb_ℤ c.y (r.y +ℤ pos r.height) ≡ true)
      × (ltb_ℤ r.x (c.x +ℤ pos c.width) ≡ true)
      × (ltb_ℤ c.x (r.x +ℤ pos r.width) ≡ true)
unfolding no_overlap
overlap_parts c r h = (ground arith, ground arith, ground arith, ground arith)

pub max_of : (a b : ℤ) → b ≤ℤ a → max_ℤ a b ≡ a
unfolding max_ℤ
max_of a b h = ground arith

pub neg_sum : (a : ℤ) (n k : ℕ) → neg_part a ≤ k → neg_part (a +ℤ pos n) ≤ k
unfolding ◌+ℤ◌
neg_sum a n k h = ground arith

pub pos_sum : (a : ℤ) (n k : ℕ) → pos_part a + n ≤ k + neg_part a → pos_part (a +ℤ pos n) ≤ k
unfolding ◌+ℤ◌
pos_sum a n k h = ground arith

pub lt_of : {a : ℕ} → a ≤ 32767 → a < 32768
lt_of h = omega arith

pub before : (a b : ℤ) (k : ℕ) → ltb_ℤ a b ≡ true → pos_part b ≤ suc k → pos_part a ≤ k
before a b k h l = ground arith

pub bottom_count :
    (c r : Rect) (px py : ℤ)
    → Fits r
    → Placed c
    → no_overlap c r ≡ false
    → times_covered (bottom_strip c r) px py
      ≡ (if covers r px py && leb_ℤ (c.y +ℤ pos c.height) py then 1 else 0)
unfolding bottom_strip Fits Placed push_if times_covered
bottom_count c r px py ((a, b, i, k), d, e, f, g) (a', b', d', e') o =
    let (p, q, u, v) = overlap_parts c r o in
    elim (Bool-cases (ltb_ℤ (c.y +ℤ pos c.height) (r.y +ℤ pos r.height))) [
      | inl h ↦
          rw
            (
              h,
              max_of (c.y +ℤ pos c.height) r.y (ground arith),
              as_i16_lem (c.y +ℤ pos c.height) (neg_sum c.y c.height 32768 b') (
                  lt_of (
                    before (c.y +ℤ pos c.height) (r.y +ℤ pos r.height) 32767 h
                      (pos_sum r.y r.height 32768 e))),
            )
            (lower r px py (c.y +ℤ pos c.height) _ (ground arith)
              (gap (r.y +ℤ pos r.height) (c.y +ℤ pos c.height) r.height g (ground arith)))
      | inr h ↦ rw h (none_below r px py (c.y +ℤ pos c.height) h)
    ]

pub left_count :
    (c r : Rect) (px py t : ℤ) (m : ℕ)
    → Fits r
    → Band c r t m
    → times_covered (left_strip c r t m) px py ≡ (
        if covers r px py && (leb_ℤ c.y py && ltb_ℤ py (c.y +ℤ pos c.height)) && ltb_ℤ px c.x
        then 1
        else 0)
unfolding left_strip Fits Placed push_if times_covered
left_count c r px py t m ((a, b, i, k), d, e, f, g) band = elim (Bool-cases (ltb_ℤ r.x c.x)) [
  | inl h ↦ rw h (
      leftmost c r px py t m (as_u16 (min_ℤ (c.x -ℤ r.x) (pos r.width))) band (ground arith)
        (gap c.x r.x r.width f (ground arith)))
  | inr h ↦ rw h (none_left c r (leb_ℤ c.y py && ltb_ℤ py (c.y +ℤ pos c.height)) px py h)
]

pub right_count :
    (c r : Rect) (px py t : ℤ) (m : ℕ)
    → Fits r
    → Placed c
    → no_overlap c r ≡ false
    → Band c r t m
    → times_covered (right_strip c r t m) px py ≡ (
        if covers r px py
          && (leb_ℤ c.y py && ltb_ℤ py (c.y +ℤ pos c.height))
          && leb_ℤ (c.x +ℤ pos c.width) px
        then 1
        else 0)
unfolding right_strip Fits Placed push_if times_covered
right_count c r px py t m ((a, b, i, k), d, e, f, g) (a', b', d', e') o band =
    let (p, q, u, v) = overlap_parts c r o in
    elim (Bool-cases (ltb_ℤ (c.x +ℤ pos c.width) (r.x +ℤ pos r.width))) [
      | inl h ↦
          rw
            (
              h,
              max_of (c.x +ℤ pos c.width) r.x (ground arith),
              as_i16_lem (c.x +ℤ pos c.width) (neg_sum c.x c.width 32768 a') (
                  lt_of (
                    before (c.x +ℤ pos c.width) (r.x +ℤ pos r.width) 32767 h
                      (pos_sum r.x r.width 32768 d))),
            )
            (rightmost c r px py t (c.x +ℤ pos c.width) m _ band (ground arith)
              (gap (r.x +ℤ pos r.width) (c.x +ℤ pos c.width) r.width f (ground arith)))
      | inr h ↦ rw h (
          none_right r (leb_ℤ c.y py && ltb_ℤ py (c.y +ℤ pos c.height)) px py (c.x +ℤ pos c.width)
            h)
    ]
