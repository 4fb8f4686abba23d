-- ===== src/Clipping/Loop.antt =====
-- What is left of a cleared area after all children: src/server/connection.rs,
-- `clip_clear_by_children`.
-- Whether some rectangle of a list has the point.
use psl_xserver.Clipping.{Rect, clip_clear_by_children, clip_loop, subtract, subtract_all}
use psl_xserver.Clipping.Area.{Fits, Placed, times_covered-append}
use psl_xserver.Clipping.Clip.{times_covered-subtract}
use psl_xserver.Clipping.Fitting.{AllFit, AllFit-append, subtract-AllFit}
use psl_xserver.Clipping.Strips.{covers, times_covered}
use psl_xserver.Prelude.{
  Bool, Bool-cases, List, [], ap, arith, false, if◌then◌else◌, inl, inr, not, refl, true, ℕ, ◌&&◌,
  ◌+◌, ◌||◌, ◌∙◌, ◌∷◌, ◌≡◌,
}
use psl_xserver.Prelude.Int.{ℤ}

pub some_covers : List Rect → (px py : ℤ) → Bool
some_covers [] px py = false
some_covers (c ∷ cs) px py = covers c px py || some_covers cs px py

-- Every child is placed by numbers of i16.
unfoldable pub AllPlaced : List Rect → Type 0
AllPlaced [] = Unit {0}
AllPlaced (c ∷ cs) = Placed c × AllPlaced cs

subtract_all-AllFit :
    (c : Rect) (rs : List Rect) → AllFit rs → Placed c → AllFit (subtract_all c rs)
unfolding subtract_all AllFit
subtract_all-AllFit c [] f p = tt
subtract_all-AllFit c (r ∷ rs) (first, f) p =
    AllFit-append (subtract c r) (subtract_all c rs) (subtract-AllFit c r first p)
      (subtract_all-AllFit c rs f p)

masked :
    (v w : Bool) (n m : ℕ)
    → m ≡ (if w then 0 else n)
    → (if v && not w then 1 else 0) + m ≡ (if w then 0 else (if v then 1 else 0) + n)
masked true true n m e = omega arith
masked true false n m e = omega arith
masked false true n m e = omega arith
masked false false n m e = omega arith

times_covered-subtract_all :
    (c : Rect) (rs : List Rect) (px py : ℤ)
    → AllFit rs
    → Placed c
    → times_covered (subtract_all c rs) px py
      ≡ (if covers c px py then 0 else times_covered rs px py)
unfolding subtract_all AllFit times_covered
times_covered-subtract_all c [] px py f p = elim (Bool-cases (covers c px py)) [
  | inl h ↦ rw h refl
  | inr h ↦ rw h refl
]
times_covered-subtract_all c (r ∷ rs) px py (first, f) p =
    times_covered-append (subtract c r) (subtract_all c rs) px py
    ∙ ap (λ n. n + times_covered (subtract_all c rs) px py)
        (times_covered-subtract c r px py first p)
    ∙ masked (covers r px py) (covers c px py) (times_covered rs px py) _
        (times_covered-subtract_all c rs px py f p)

times_covered-clip_loop :
    (cs rs : List Rect) (px py : ℤ)
    → AllFit rs
    → AllPlaced cs
    → times_covered (clip_loop cs rs) px py
      ≡ (if some_covers cs px py then 0 else times_covered rs px py)
unfolding clip_loop some_covers AllPlaced
times_covered-clip_loop [] rs px py f p = refl
times_covered-clip_loop (c ∷ cs) rs px py f (first, p) =
    times_covered-clip_loop cs (subtract_all c rs) px py (subtract_all-AllFit c rs f first) p
    ∙ elim (Bool-cases (some_covers cs px py)) [
      | inl h ↦ elim (Bool-cases (covers c px py)) [
        | inl k ↦ rw (h, k) refl
        | inr k ↦ rw (h, k) refl
      ]
      | inr h ↦ elim (Bool-cases (covers c px py)) [
        | inl k ↦ rw (h, k) (times_covered-subtract_all c rs px py f first ∙ rw k refl)
        | inr k ↦ rw (h, k) (times_covered-subtract_all c rs px py f first ∙ rw k refl)
      ]
    ]

one_area :
    (v w : Bool)
    → ◌≡◌ {A = ℕ} (if w then 0 else (if v then 1 else 0) + 0) (if v && not w then 1 else 0)
one_area true true = refl
one_area true false = omega arith
one_area false true = refl
one_area false false = omega arith

-- For an area within the numbers of i16 and children placed by them, in any number and however they
-- overlap, the rectangles that are cleared cover each point of the area outside all children once,
-- and no other point.
pub times_covered-clip_clear_by_children :
    (area : Rect) (children : List Rect) (px py : ℤ)
    → Fits area
    → AllPlaced children
    → times_covered (clip_clear_by_children area children) px py
      ≡ (if covers area px py && not (some_covers children px py) then 1 else 0)
unfolding clip_clear_by_children AllFit times_covered
times_covered-clip_clear_by_children area children px py f p =
    times_covered-clip_loop children (area ∷ []) px py (f, tt) p
    ∙ one_area (covers area px py) (some_covers children px py)
