-- ===== src/Renderer/LineEnds.antt =====
-- Every line of the software renderer is drawn to its end: src/display/renderer.rs, `DrawLine`.
use psl_xserver.Prelude.{
  ==_iff, Bool, Bool-cases, List, Option, ap, ap₂, arith, false, if◌then◌else◌, inl, inr, length,
  refl, some, subst, suc, sym, true, zero, ℕ, ◌&&◌, ◌+◌, ◌<◌, ◌==◌, ◌∙◌, ◌≡◌,
}
use psl_xserver.Prelude.Int.{
  +ℤ_parts, abs, eqb_ℤ, leb_ℤ, ltb_ℤ, neg_part, negsuc, pos, pos_part, ℤ, ◌*ℤ◌, ◌+ℤ◌, ◌-ℤ◌,
}
use psl_xserver.Renderer.{
  Canvas, Line, Pen, draw_line, line_from, line_loop, line_step, rop_pixel, step_x, step_y,
}
use psl_xserver.Renderer.Lines.{
  On, Toward, arrived, no_x, no_y, not_arrived, one_steps, start-Toward, x_step, y_step,
}
use psl_xserver.Renderer.Pixels.{length-rop_pixel, rop_pixel-noop}

abbrev Closer : Line → ℕ → ℕ → Pen → ℕ → Type 0
Closer l d1 d2 p r = (r1 : ℕ) × ((r2 : ℕ) × ((r1 + r2 < r) × On l d1 d2 p r1 r2))

line_step-On :
    (l : Line) (d1 d2 : ℕ) (p : Pen) (r1 r2 : ℕ)
    → On l d1 d2 p r1 r2
    → 0 < r1 + r2
    → Closer l d1 d2 (line_step l p) (r1 + r2)
unfolding line_step step_x step_y
line_step-On l d1 d2 p zero zero on more = absurd (omega arith)
line_step-On l d1 d2 p zero (suc r2) on more =
    let stays = no_x l d1 d2 p r2 on in
    let moves = one_steps l d1 d2 p 0 (suc r2) on stays in
    rw (stays, moves, line_step, step_x, step_y) (0, (r2, (omega arith, y_step l d1 d2 p 0 r2 on)))
line_step-On l d1 d2 p (suc r1) zero on more =
    let stays = no_y l d1 d2 p r1 on in
    elim (Bool-cases (leb_ℤ l.dy (pos 2 *ℤ p.err))) [
      | inl moves ↦
          rw (stays, moves, line_step, step_x, step_y)
            (r1, (0, (omega arith, x_step l d1 d2 p r1 0 on)))
      | inr neither ↦
          absurd (true_ne_false (sym (one_steps l d1 d2 p (suc r1) 0 on neither) ∙ stays))
    ]
  where
    true_ne_false : true ≡ false → ⊥
    true_ne_false e = cc
line_step-On l d1 d2 p (suc r1) (suc r2) on more = elim (Bool-cases (leb_ℤ l.dy (pos 2 *ℤ p.err))) [
  | inl across ↦ elim (Bool-cases (leb_ℤ (pos 2 *ℤ p.err) l.dx)) [
    | inl both ↦
        rw (across, both, line_step, step_x, step_y)
          (r1, (r2, (omega arith, y_step l d1 d2 _ r1 r2 (x_step l d1 d2 p r1 (suc r2) on))))
    | inr level ↦
        rw (across, level, line_step, step_x, step_y)
          (r1, (suc r2, (omega arith, x_step l d1 d2 p r1 (suc r2) on)))
  ]
  | inr upright ↦
      let moves = one_steps l d1 d2 p (suc r1) (suc r2) on upright in
      rw (upright, moves, line_step, step_x, step_y)
        (suc r1, (r2, (omega arith, y_step l d1 d2 p (suc r1) r2 on)))
]

-- The line is drawn up to its end.
pub EndsAt : Canvas → ℤ → ℤ → ℕ → ℕ → List ℕ → Option (List ℕ) → Type 0
unfolding rop_pixel
EndsAt c x2 y2 color gc_function buffer result =
    (before : List ℕ) × ((length before ≡ length buffer)
      × (result ≡ some (rop_pixel c before x2 y2 color gc_function 0xFFFFFFFF)))

under_way :
    (l : Line) (d1 d2 : ℕ) (p : Pen) (r1 r2 : ℕ)
    → On l d1 d2 p r1 r2
    → 0 < r1 + r2
    → (eqb_ℤ p.x l.x2 && eqb_ℤ p.y l.y2) ≡ false
under_way l d1 d2 p zero zero on more = absurd (omega arith)
under_way l d1 d2 p (suc r1) r2 on more = rw (not_arrived l.sx p.x l.x2 r1 on.in_x) refl
under_way l d1 d2 p zero (suc r2) on more =
    rw (not_arrived l.sy p.y l.y2 r2 on.in_y) (and_false (eqb_ℤ p.x l.x2))
  where
    and_false : (b : Bool) → (b && false) ≡ false
    and_false true = refl
    and_false false = refl

-- Every run on a line ends at its end with this fuel.
abbrev AllEnd : ℕ → Canvas → Line → ℕ → ℕ → ℕ → ℕ → Type 0
AllEnd fuel c l d1 d2 color gc_function =
    (p : Pen) (r1 r2 : ℕ) (buffer : List ℕ)
    → On l d1 d2 p r1 r2
    → r1 + r2 < fuel
    → EndsAt c l.x2 l.y2 color gc_function buffer (line_loop fuel c l color gc_function p buffer)

one_round :
    (fuel : ℕ) (c : Canvas) (l : Line) (d1 d2 color gc_function : ℕ)
    → AllEnd fuel c l d1 d2 color gc_function
    → (p : Pen) (r1 r2 : ℕ) (buffer : List ℕ) → On l d1 d2 p r1 r2
    → 0 < r1 + r2
    → r1 + r2 < suc fuel
    → EndsAt c l.x2 l.y2 color gc_function buffer
        (line_loop (suc fuel) c l color gc_function p buffer)
unfolding line_loop EndsAt
one_round fuel c l d1 d2 color gc_function all p r1 r2 buffer on more enough =
    let (r1', (r2', (closer, on'))) = line_step-On l d1 d2 p r1 r2 on more in
    let next = rop_pixel c buffer p.x p.y color gc_function 0xFFFFFFFF in
    let (before, (same, run)) = all (line_step l p) r1' r2' next on' (omega arith) in
    (
      before,
      (
        same ∙ length-rop_pixel c buffer p.x p.y color gc_function 0xFFFFFFFF,
        rw (under_way l d1 d2 p r1 r2 on more, line_loop) run,
      ),
    )

same_place : (x x2 y y2 : ℤ) → x ≡ x2 → y ≡ y2 → (eqb_ℤ x x2 && eqb_ℤ y y2) ≡ true
same_place x x2 y y2 e f =
    ground (arith, ap pos_part e, ap neg_part e, ap pos_part f, ap neg_part f)

line_loop_ends :
    (fuel : ℕ) (c : Canvas) (l : Line) (d1 d2 color gc_function : ℕ)
    → AllEnd fuel c l d1 d2 color gc_function
unfolding line_loop EndsAt
line_loop_ends zero c l d1 d2 color gc_function p r1 r2 buffer on enough = absurd (omega arith)
line_loop_ends (suc fuel) c l d1 d2 color gc_function p zero zero buffer on enough =
    let x_there : p.x ≡ l.x2 = arrived l.sx p.x l.x2 on.in_x in
    let y_there : p.y ≡ l.y2 = arrived l.sy p.y l.y2 on.in_y in
    let there : (eqb_ℤ p.x l.x2 && eqb_ℤ p.y l.y2) ≡ true =
      same_place p.x l.x2 p.y l.y2 x_there y_there in
    (
      buffer,
      (
        refl,
        rw (there, line_loop)
            (ap₂ (λ x y. some (rop_pixel c buffer x y color gc_function 0xFFFFFFFF)) x_there
              y_there),
      ),
    )
line_loop_ends (suc fuel) c l d1 d2 color gc_function p (suc r1) r2 buffer on enough =
    one_round fuel c l d1 d2 color gc_function (line_loop_ends fuel c l d1 d2 color gc_function) p
      (suc r1) r2 buffer on (omega arith) enough
line_loop_ends (suc fuel) c l d1 d2 color gc_function p zero (suc r2) buffer on enough =
    one_round fuel c l d1 d2 color gc_function (line_loop_ends fuel c l d1 d2 color gc_function) p
      zero (suc r2) buffer on (omega arith) enough

abs_pos : (a : ℤ) → abs a ≡ pos (pos_part (abs a))
unfolding abs ◌-ℤ◌
abs_pos a = ground arith

negated :
    (h : ℤ) → neg_part h ≡ 0 → (pos_part (pos 0 -ℤ h) ≡ 0) × (neg_part (pos 0 -ℤ h) ≡ pos_part h)
unfolding ◌-ℤ◌
negated (pos n) level = ground arith
negated (negsuc n) level = absurd (omega arith)

start :
    (x1 y1 x2 y2 : ℤ)
    → On
        (line_from x1 y1 x2 y2)
        (pos_part (line_from x1 y1 x2 y2).dx)
        (neg_part (line_from x1 y1 x2 y2).dy)
        (record { x = x1; y = y1; err = (line_from x1 y1 x2 y2).dx +ℤ (line_from x1 y1 x2 y2).dy })
        (pos_part (line_from x1 y1 x2 y2).dx)
        (neg_part (line_from x1 y1 x2 y2).dy)
unfolding line_from
start x1 y1 x2 y2 =
    let dx = abs (x2 -ℤ x1) in
    let height = abs (y2 -ℤ y1) in
    let dy = pos 0 -ℤ height in
    let level : neg_part height ≡ 0 = ap neg_part (abs_pos (y2 -ℤ y1)) in
    let wide : neg_part dx ≡ 0 = ap neg_part (abs_pos (x2 -ℤ x1)) in
    let turned : (pos_part dy ≡ 0) × (neg_part dy ≡ pos_part height) = negated height level in
    record {
      a = 0;
      b = 0;
      columns = omega arith;
      lines = omega arith;
      width = abs_pos (x2 -ℤ x1);
      height_pos = turned.0;
      height_neg = refl;
      due = omega (arith, +ℤ_parts dx dy, wide, turned.0);
      in_x = start-Toward x1 x2;
      in_y =
          subst (λ r. Toward (if ltb_ℤ y1 y2 then pos 1 else negsuc 0) y1 y2 r) (sym turned.1)
            (start-Toward y1 y2);
    }

-- Drawing a line between any two places ends, whatever the slope: the buffer keeps its length, and
-- the last pixel drawn is the one at the line's end.
pub draw_line_ends :
    (c : Canvas) (buffer : List ℕ) (x1 y1 x2 y2 : ℤ) (color gc_function : ℕ)
    → EndsAt c x2 y2 color gc_function buffer (draw_line c buffer x1 y1 x2 y2 color gc_function)
unfolding draw_line line_from EndsAt
draw_line_ends c buffer x1 y1 x2 y2 color gc_function = elim (Bool-cases (gc_function == 5)) [
  | inl skipped ↦
      let is_noop = (==_iff gc_function 5).0 skipped in
      (
        buffer,
        (
          refl,
          rw (is_noop, draw_line) (ap some (sym (rop_pixel-noop c buffer x2 y2 color 0xFFFFFFFF))),
        ),
      )
  | inr active ↦
      let l = line_from x1 y1 x2 y2 in
      rw (active, draw_line)
        (line_loop_ends (pos_part l.dx + neg_part l.dy + 1) c l (pos_part l.dx) (neg_part l.dy)
          color gc_function (record { x = x1; y = y1; err = l.dx +ℤ l.dy }) (pos_part l.dx)
          (neg_part l.dy) buffer (start x1 y1 x2 y2) (omega arith))
]
