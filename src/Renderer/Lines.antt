-- ===== src/Renderer/Lines.antt =====
-- The line of the software renderer: src/display/renderer.rs, `DrawLine` of `render_to_buffer`.
use native.Mathlib.Nat.{suc-mul, mul-le-mul_right, mul_comm}
use psl_xserver.Prelude.{
  Bool-cases, ap, arith, false, if◌then◌else◌, inl, inr, refl, suc, true, ℕ, ◌*◌, ◌+◌, ◌∙◌, ◌≡◌,
  ◌≤◌, ◌⊎◌,
}
use psl_xserver.Prelude.Int.{
  +ℤ_parts, abs, double_parts, eq_of_parts, eqb_ℤ, leb_ℤ, ltb_ℤ, neg_part, negsuc, pos, pos_part, ℤ,
  ◌*ℤ◌, ◌+ℤ◌, ◌-ℤ◌,
}
use psl_xserver.Renderer.{Line, Pen}

-- From `a`, `r` steps of `s` lead to `b`.
pub Toward : ℤ → ℤ → ℤ → ℕ → Type 0
Toward s a b r =
    ((s ≡ pos 1) × (pos_part a + neg_part b + r ≡ pos_part b + neg_part a))
    ⊎ ((s ≡ negsuc 0) × (pos_part b + neg_part a + r ≡ pos_part a + neg_part b))

pub start-Toward :
    (a b : ℤ) → Toward (if ltb_ℤ a b then pos 1 else negsuc 0) a b (pos_part (abs (b -ℤ a)))
unfolding Toward abs ◌-ℤ◌
start-Toward a b = elim (Bool-cases (ltb_ℤ a b)) [
  | inl before ↦ rw before (inl (refl, ground arith))
  | inr after ↦ rw after (inr (refl, ground arith))
]

one_step : (s a b : ℤ) (r : ℕ) → Toward s a b (suc r) → Toward s (a +ℤ s) b r
unfolding Toward
one_step s a b r (inl (up, left)) =
    inl (up, omega (arith, +ℤ_parts a s, ap pos_part up, ap neg_part up))
one_step s a b r (inr (down, left)) =
    inr (down, omega (arith, +ℤ_parts a s, ap pos_part down, ap neg_part down))

pub arrived : (s a b : ℤ) → Toward s a b 0 → a ≡ b
unfolding Toward
arrived s a b (inl (up, left)) = eq_of_parts a b (omega arith)
arrived s a b (inr (down, left)) = eq_of_parts a b (omega arith)

pub not_arrived : (s a b : ℤ) (r : ℕ) → Toward s a b (suc r) → eqb_ℤ a b ≡ false
unfolding Toward
not_arrived s a b r (inl (up, left)) = ground arith
not_arrived s a b r (inr (down, left)) = ground arith

-- A line of `d1` columns and `d2` lines, with `r1` and `r2` of them to go: the error is what is
-- due to the one direction less what is due to the other.
pub record On (l : Line) (d1 d2 : ℕ) (p : Pen) (r1 r2 : ℕ) : Type 0 where
  pub a : ℕ
  pub b : ℕ
  pub columns : a + r1 ≡ d1
  pub lines : b + r2 ≡ d2
  pub width : l.dx ≡ pos d1
  pub height_pos : pos_part l.dy ≡ 0
  pub height_neg : neg_part l.dy ≡ d2
  pub due : pos_part p.err + suc a * d2 ≡ neg_part p.err + suc b * d1
  pub in_x : Toward l.sx p.x l.x2 r1
  pub in_y : Toward l.sy p.y l.y2 r2

pub x_step :
    (l : Line) (d1 d2 : ℕ) (p : Pen) (r1 r2 : ℕ)
    → On l d1 d2 p (suc r1) r2
    → On l d1 d2 (record p { err = p.err +ℤ l.dy; x = p.x +ℤ l.sx }) r1 r2
x_step l d1 d2 p r1 r2 on = record {
  a = suc on.a;
  b = on.b;
  columns = omega (arith, on.columns);
  lines = on.lines;
  width = on.width;
  height_pos = on.height_pos;
  height_neg = on.height_neg;
  due =
      omega
        (arith, on.due, on.height_pos, on.height_neg, +ℤ_parts p.err l.dy, suc-mul (suc on.a) d2);
  in_x = one_step l.sx p.x l.x2 r1 on.in_x;
  in_y = on.in_y;
}

pub y_step :
    (l : Line) (d1 d2 : ℕ) (p : Pen) (r1 r2 : ℕ)
    → On l d1 d2 p r1 (suc r2)
    → On l d1 d2 (record p { err = p.err +ℤ l.dx; y = p.y +ℤ l.sy }) r1 r2
y_step l d1 d2 p r1 r2 on = record {
  a = on.a;
  b = suc on.b;
  columns = on.columns;
  lines = omega (arith, on.lines);
  width = on.width;
  height_pos = on.height_pos;
  height_neg = on.height_neg;
  due = omega (
    arith,
    on.due,
    ap pos_part on.width,
    ap neg_part on.width,
    +ℤ_parts p.err l.dx,
    suc-mul (suc on.b) d1,
  );
  in_x = on.in_x;
  in_y = one_step l.sy p.y l.y2 r2 on.in_y;
}

-- A direction that has arrived does not step again, while the other is under way.
pub no_x :
    (l : Line) (d1 d2 : ℕ) (p : Pen) (r2 : ℕ)
    → On l d1 d2 p 0 (suc r2)
    → leb_ℤ l.dy (pos 2 *ℤ p.err) ≡ false
no_x l d1 d2 p r2 on =
    let rows : suc on.b ≤ d2 = omega (arith, on.lines) in
    let full : on.a ≡ d1 = omega (arith, on.columns) in
    let most : suc on.b * d1 ≤ d2 * d1 = mul-le-mul_right d1 rows in
    let product : suc on.a * d2 ≡ d2 * d1 + d2 =
      ap (λ (n : ℕ). suc n * d2) full ∙ suc-mul d1 d2 ∙ ap (λ (n : ℕ). n + d2) (mul_comm d1 d2) in
    ground (arith, on.due, on.height_pos, on.height_neg, double_parts p.err, rows, most, product)

pub no_y :
    (l : Line) (d1 d2 : ℕ) (p : Pen) (r1 : ℕ)
    → On l d1 d2 p (suc r1) 0
    → leb_ℤ (pos 2 *ℤ p.err) l.dx ≡ false
no_y l d1 d2 p r1 on =
    let rows : suc on.a ≤ d1 = omega (arith, on.columns) in
    let full : on.b ≡ d2 = omega (arith, on.lines) in
    let most : suc on.a * d2 ≤ d1 * d2 = mul-le-mul_right d2 rows in
    let product : suc on.b * d1 ≡ d1 * d2 + d1 =
      ap (λ (n : ℕ). suc n * d1) full ∙ suc-mul d2 d1 ∙ ap (λ (n : ℕ). n + d1) (mul_comm d2 d1) in
    ground (
      arith,
      on.due,
      ap pos_part on.width,
      ap neg_part on.width,
      double_parts p.err,
      rows,
      most,
      product,
    )

-- At least one of the two directions steps.
pub one_steps :
    (l : Line) (d1 d2 : ℕ) (p : Pen) (r1 r2 : ℕ)
    → On l d1 d2 p r1 r2
    → leb_ℤ l.dy (pos 2 *ℤ p.err) ≡ false
    → leb_ℤ (pos 2 *ℤ p.err) l.dx ≡ true
one_steps l d1 d2 p r1 r2 on stays = ground (
  arith,
  ap pos_part on.width,
  ap neg_part on.width,
  on.height_pos,
  on.height_neg,
  double_parts p.err,
)
