-- ===== src/Clipping.antt =====
-- The clip of a cleared area by the windows inside it: src/server/connection.rs,
-- `clip_clear_by_children`.
pub mod Area
pub mod Middle
pub mod Clip
pub mod Fitting
pub mod Loop
pub mod Strips
mod Tests
use psl_xserver.Prelude.{Bool, List, [], if◌then◌else◌, ltb, ℕ, ◌%◌, ◌&&◌, ◌++◌, ◌-◌, ◌∷◌, ◌||◌}
use psl_xserver.Prelude.Int.{leb_ℤ, ltb_ℤ, negsuc, pos, ℤ, ◌+ℤ◌, ◌-ℤ◌}

-- A place in i16 and a size in u16.
pub record Rect : Type 0 where
  pub x : ℤ
  pub y : ℤ
  pub width : ℕ
  pub height : ℕ

-- The casts `as u16` and `as i16` keep the last sixteen digits.
pub as_u16 : ℤ → ℕ
as_u16 (pos n) = n % 65536
as_u16 (negsuc n) = 65535 - n % 65536

pub as_i16 : ℤ → ℤ
unfolding as_u16
as_i16 a = if ltb (as_u16 a) 32768 then pos (as_u16 a) else negsuc (65535 - as_u16 a)

pub min_ℤ : ℤ → ℤ → ℤ
min_ℤ a b = if ltb_ℤ b a then b else a

pub max_ℤ : ℤ → ℤ → ℤ
max_ℤ a b = if ltb_ℤ a b then b else a

pub push_if : Bool → Rect → List Rect
push_if b r = if b then r ∷ [] else []

pub top_strip : Rect → Rect → List Rect
unfolding min_ℤ as_u16 push_if
top_strip c r =
    let h = as_u16 (min_ℤ (c.y -ℤ r.y) (pos r.height)) in
    push_if (ltb_ℤ r.y c.y && ltb 0 h) (record r { height = h })

pub bottom_strip : Rect → Rect → List Rect
unfolding min_ℤ max_ℤ as_u16 as_i16 push_if
bottom_strip c r =
    let cy2 = c.y +ℤ pos c.height in
    let ry2 = r.y +ℤ pos r.height in
    let top = as_i16 (max_ℤ cy2 r.y) in
    let h = as_u16 (min_ℤ (ry2 -ℤ cy2) (pos r.height)) in
    push_if (ltb_ℤ cy2 ry2 && ltb 0 h) (record r { y = top; height = h })

pub left_strip : (c r : Rect) (strip_top : ℤ) (strip_h : ℕ) → List Rect
unfolding min_ℤ as_u16 push_if
left_strip c r strip_top strip_h =
    let w = as_u16 (min_ℤ (c.x -ℤ r.x) (pos r.width)) in
    push_if (ltb_ℤ r.x c.x && ltb 0 w)
      (record { x = r.x; y = strip_top; width = w; height = strip_h })

pub right_strip : (c r : Rect) (strip_top : ℤ) (strip_h : ℕ) → List Rect
unfolding min_ℤ max_ℤ as_u16 as_i16 push_if
right_strip c r strip_top strip_h =
    let cx2 = c.x +ℤ pos c.width in
    let rx2 = r.x +ℤ pos r.width in
    let left = as_i16 (max_ℤ cx2 r.x) in
    let w = as_u16 (min_ℤ (rx2 -ℤ cx2) (pos r.width)) in
    push_if (ltb_ℤ cx2 rx2 && ltb 0 w)
      (record { x = left; y = strip_top; width = w; height = strip_h })

pub middle_strips : Rect → Rect → List Rect
unfolding left_strip right_strip
middle_strips c r =
    let strip_top = as_i16 (max_ℤ c.y r.y) in
    let strip_bot = min_ℤ (c.y +ℤ pos c.height) (r.y +ℤ pos r.height) in
    let strip_h = as_u16 (max_ℤ (strip_bot -ℤ strip_top) (pos 0)) in
    if ltb 0 strip_h
    then left_strip c r strip_top strip_h ++ right_strip c r strip_top strip_h
    else []

-- A child and a rectangle that have no point in common.
pub no_overlap : Rect → Rect → Bool
no_overlap c r =
    leb_ℤ (r.x +ℤ pos r.width) c.x
    || leb_ℤ (c.x +ℤ pos c.width) r.x
    || leb_ℤ (r.y +ℤ pos r.height) c.y
    || leb_ℤ (c.y +ℤ pos c.height) r.y

-- The strips of one rectangle that a child leaves.
pub subtract : Rect → Rect → List Rect
unfolding no_overlap top_strip bottom_strip middle_strips
subtract c r =
    if no_overlap c r then r ∷ [] else top_strip c r ++ bottom_strip c r ++ middle_strips c r

subtract_all : Rect → List Rect → List Rect
unfolding subtract
subtract_all c [] = []
subtract_all c (r ∷ rects) = subtract c r ++ subtract_all c rects

clip_loop : List Rect → List Rect → List Rect
unfolding subtract_all
clip_loop [] rects = rects
clip_loop (c ∷ children) rects = clip_loop children (subtract_all c rects)

-- Every rectangle is cleared with the one background colour, which is left out here.
pub clip_clear_by_children : Rect → List Rect → List Rect
unfolding clip_loop
clip_clear_by_children area children = clip_loop children (area ∷ [])
