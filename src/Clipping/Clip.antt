-- ===== src/Clipping/Clip.antt =====
-- What the strips that a child leaves of a rectangle cover: src/server/connection.rs,
-- `clip_clear_by_children`.
use psl_xserver.Clipping.{Rect, bottom_strip, middle_strips, no_overlap, subtract, top_strip}
use psl_xserver.Clipping.Area.{Fits, Placed, bottom_count, times_covered-append, top_count}
use psl_xserver.Clipping.Middle.{middle_count}
use psl_xserver.Clipping.Strips.{covers, four_parts, times_covered}
use psl_xserver.Prelude.{
  Bool, Bool-cases, [], arith, both_hold, false, if◌then◌else◌, inl, inr, not, refl, true, ℕ, ◌&&◌,
  ◌++◌, ◌||◌, ◌∷◌, ◌≡◌, ◌⊎◌,
}
use psl_xserver.Prelude.Int.{leb_ℤ, ltb_ℤ, pos, ℤ, ◌+ℤ◌, ◌≤ℤ◌}

kept_outside :
    (v w : Bool) → (v && w) ≡ false → ◌≡◌ {A = ℕ} (if v then 1 else 0) (if v && not w then 1 else 0)
kept_outside true true h = absurd cc
kept_outside true false h = refl
kept_outside false w h = refl

parts_of :
    (r : Rect) (px py : ℤ)
    → covers r px py ≡ true
    → (r.x ≤ℤ px)
      × (ltb_ℤ px (r.x +ℤ pos r.width) ≡ true)
      × (r.y ≤ℤ py)
      × (ltb_ℤ py (r.y +ℤ pos r.height) ≡ true)
unfolding covers
parts_of r px py h = (ground arith, ground arith, ground arith, ground arith)

beside : (far near p : ℤ) → leb_ℤ far near ≡ true → ltb_ℤ p far ≡ true → near ≤ℤ p → ⊥
beside far near p h k l = ground arith

one_holds :
    (a b c d : Bool)
    → (a || b || c || d) ≡ true
    → (a ≡ true) ⊎ ((b ≡ true) ⊎ ((c ≡ true) ⊎ (d ≡ true)))
one_holds true b c d h = inl refl
one_holds false true c d h = inr (inl refl)
one_holds false false true d h = inr (inr (inl refl))
one_holds false false false d h = inr (inr (inr h))

not_both :
    (c r : Rect) (px py : ℤ)
    → no_overlap c r ≡ true
    → (covers r px py ≡ true) × (covers c px py ≡ true)
    → ⊥
unfolding no_overlap
not_both c r px py h (k, l) =
    let (a, b, d, e) = parts_of r px py k in
    let (a', b', d', e') = parts_of c px py l in
    elim (one_holds (leb_ℤ (r.x +ℤ pos r.width) c.x) (leb_ℤ (c.x +ℤ pos c.width) r.x)
      (leb_ℤ (r.y +ℤ pos r.height) c.y) (leb_ℤ (c.y +ℤ pos c.height) r.y) h) [
        | inl g ↦ beside (r.x +ℤ pos r.width) c.x px g b a'
        | inr (inl g) ↦ beside (c.x +ℤ pos c.width) r.x px g b' a
        | inr (inr (inl g)) ↦ beside (r.y +ℤ pos r.height) c.y py g e d'
        | inr (inr (inr g)) ↦ beside (c.y +ℤ pos c.height) r.y py g e' d
      ]

apart :
    (c r : Rect) (px py : ℤ) → no_overlap c r ≡ true → (covers r px py && covers c px py) ≡ false
unfolding no_overlap covers
apart c r px py h = elim (Bool-cases (covers r px py && covers c px py)) [
  | inl k ↦ absurd (not_both c r px py h (both_hold (covers r px py) (covers c px py) k))
  | inr k ↦ k
]

once : (r : Rect) (px py : ℤ) → times_covered (r ∷ []) px py ≡ (if covers r px py then 1 else 0)
unfolding times_covered
once r px py = omega arith

pub times_covered-subtract :
    (c r : Rect) (px py : ℤ)
    → Fits r
    → Placed c
    → times_covered (subtract c r) px py ≡ (if covers r px py && not (covers c px py) then 1 else 0)
unfolding subtract
times_covered-subtract c r px py f p = elim (Bool-cases (no_overlap c r)) [
  | inl h ↦
      rw (h, once r px py) (kept_outside (covers r px py) (covers c px py) (apart c r px py h))
  | inr h ↦ rw h (
      omega (
        arith,
        times_covered-append (top_strip c r ++ bottom_strip c r) (middle_strips c r) px py,
        times_covered-append (top_strip c r) (bottom_strip c r) px py,
        top_count c r px py f,
        bottom_count c r px py f p h,
        middle_count c r px py f p h,
        four_parts c r px py,
      ))
]
