-- ===== src/Clipping/Tests.antt =====
-- An area of 10 by 10 in a window, with one child in the middle of it.
use psl_xserver.Clipping.{Rect, clip_clear_by_children}
use psl_xserver.Clipping.Area.{Fits, Placed}
use psl_xserver.Clipping.Loop.{AllPlaced, some_covers, times_covered-clip_clear_by_children}
use psl_xserver.Clipping.Strips.{covers, times_covered}
use psl_xserver.Prelude.{[], arith, if◌then◌else◌, not, refl, ◌&&◌, ◌∷◌, ◌≡◌}
use psl_xserver.Prelude.Int.{negsuc, pos, ◌+ℤ◌, ◌-ℤ◌}

abbrev area : Rect
area = record { x = pos 0; y = pos 0; width = 10; height = 10 }

abbrev child : Rect
child = record { x = pos 3; y = pos 2; width = 4; height = 5 }

-- The strips above, below, to the left and to the right of the child.
child_clipped :
    clip_clear_by_children area (child ∷ [])
    ≡ (record area { height = 2 })
      ∷ (record area { y = pos 7; height = 3 })
      ∷ (record area { y = pos 2; width = 3; height = 5 })
      ∷ (record { x = pos 7; y = pos 2; width = 3; height = 5 })
      ∷ []
unfolding clip_clear_by_children ◌+ℤ◌ ◌-ℤ◌
child_clipped = refl

-- A child that reaches out of the area, over the first one.
abbrev wide : Rect
wide = record { x = negsuc 4; y = pos 6; width = 100; height = 3 }

times_covered-clip_clear_by_children_example :
    times_covered (clip_clear_by_children area (child ∷ wide ∷ [])) (pos 8) (pos 3) ≡ (
      if covers area (pos 8) (pos 3) && not (some_covers (child ∷ wide ∷ []) (pos 8) (pos 3))
      then 1
      else 0)
unfolding Fits Placed AllPlaced
times_covered-clip_clear_by_children_example =
    times_covered-clip_clear_by_children area (child ∷ wide ∷ []) (pos 8) (pos 3)
      (
        (omega arith, omega arith, omega arith, omega arith),
        omega arith,
        omega arith,
        omega arith,
        omega arith,
      )
      (
        (omega arith, omega arith, omega arith, omega arith),
        ((omega arith, omega arith, omega arith, omega arith), tt),
      )
