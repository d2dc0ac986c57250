-- ===== src/Wm/Apart/Outputs.antt =====
-- The tiles of one output (src/wm/layout.rs, `compute_output`), in the area that it has for windows.
use streamwm.Base.{
  ℕ, ◌+◌, ◌-◌, ◌*◌, ◌^◌, ◌<◌, ◌≤◌, ◌≡◌, refl, sym, subst, List, arith, length, All, All-imp,
}
use streamwm.Base.Int.{
  ℤ, pos, pos_part, neg_part, add_i32, sub_i32, mul_i32, clip_u32, add_i32_parts, to_i32,
  to_i32-small, parts_excl,
}
use streamwm.Protocol.{F64, FloatOps}
use streamwm.Config.{Config}
use streamwm.State.{State, Output, output_area}
use streamwm.State.Fraction.{active_master_fraction}
use streamwm.Wm.Layout.{
  Geometry, master_width, inner_area, visible_windows, compute_tiling, tile_output,
}
use streamwm.Wm.Rows.{mul_i32-pos}
use streamwm.Wm.Tiling.{sub_i32-pos, clip_u32-pos}
use streamwm.Wm.Apart.{Pairwise, Apart}
use streamwm.Wm.Apart.Column.{WithinArea, Roomy, compute_tiling-Apart}

-- An area with room for the gaps at its edges, for the master column beside a gap, and for the gaps
-- of so many rows twice.
pub record Spacious (F : FloatOps) (base : Geometry) (gap : ℕ) (fraction : F64) (rows : ℕ)
    : Type 0 where
  pub right : pos_part base.x + base.width < 2 ^ 29
  pub left : neg_part base.x < 2 ^ 29
  pub low : pos_part base.y + base.height < 2 ^ 29
  pub high : neg_part base.y < 2 ^ 29
  pub columns : master_width F (base.width - 2 * gap) fraction + gap + 2 * gap ≤ base.width
  pub lines : rows * (2 * gap) + 2 * gap ≤ base.height
  pub few : rows < 2 ^ 29

shrunk :
    (n gap : ℕ)
    → 2 * gap ≤ n
    → n < 2 ^ 29
    → clip_u32 (sub_i32 (to_i32 n) (mul_i32 (pos gap) (pos 2))) ≡ n - 2 * gap
shrunk n gap h k =
    let twice : gap * 2 ≡ 2 * gap = omega arith in
    rw
      (
        to_i32-small n (omega arith),
        mul_i32-pos gap 2 (omega arith),
        twice,
        sub_i32-pos n (2 * gap) h (omega arith),
      )
      (clip_u32-pos (n - 2 * gap) (omega arith))

module _ (F : FloatOps) (base : Geometry) (gap : ℕ) (fraction : F64) where
  abbrev inset : Geometry
  inset = record {
    x = add_i32 base.x (pos gap);
    y = add_i32 base.y (pos gap);
    width = base.width - 2 * gap;
    height = base.height - 2 * gap;
  }

  inner_area-inset :
      (rows : ℕ) → Spacious F base gap fraction rows → inner_area base (pos gap) ≡ inset
  unfolding inner_area
  inner_area-inset rows r =
      rw
        (
          shrunk base.width gap (omega (arith, r.columns)) (omega (arith, r.right)),
          shrunk base.height gap (omega (arith, r.lines)) (omega (arith, r.low)),
        )
        refl

  inset-Roomy :
      (ids : List ℕ) → Spacious F base gap fraction (length ids) → Roomy F inset gap fraction ids
  inset-Roomy ids r =
      let px =
        add_i32_parts base.x (pos gap) (omega (arith, r.columns, r.right))
          (omega (arith, r.left)) in
      let py =
        add_i32_parts base.y (pos gap) (omega (arith, r.lines, r.low)) (omega (arith, r.high)) in
      let ex = parts_excl (add_i32 base.x (pos gap)) in
      let ey = parts_excl (add_i32 base.y (pos gap)) in
      record {
        right = omega (arith, px, ex, r.right, r.columns);
        left = omega (arith, px, ex, r.left);
        low = omega (arith, py, ey, r.low, r.lines);
        high = omega (arith, py, ey, r.high);
        columns = omega (arith, r.columns);
        rows = omega (arith, r.lines);
        few = r.few;
      }

  inset-WithinArea :
      (rows : ℕ) (t : ℕ × Geometry)
      → Spacious F base gap fraction rows
      → WithinArea inset t
      → WithinArea base t
  inset-WithinArea rows t r (a, b, c, d) =
      let px =
        add_i32_parts base.x (pos gap) (omega (arith, r.columns, r.right))
          (omega (arith, r.left)) in
      let py =
        add_i32_parts base.y (pos gap) (omega (arith, r.lines, r.low)) (omega (arith, r.high)) in
      (
        omega (arith, px, a),
        omega (arith, px, b, r.columns),
        omega (arith, py, c),
        omega (arith, py, d, r.lines),
      )

-- The tiles that a gap and the area inside of it give are apart, and within the outer area.
abbrev AreApart : FloatOps → List ℕ → F64 → Geometry → Geometry → ℤ → Type 0
AreApart F ids fraction base area gap =
    Pairwise Apart (compute_tiling F ids area (add_i32 area.y (to_i32 area.height)) gap fraction)
    × All (WithinArea base)
        (compute_tiling F ids area (add_i32 area.y (to_i32 area.height)) gap fraction)

-- In an output whose area lies within 2 ^ 29 of the origin and has room for the gaps at its
-- edges, for the master column beside a gap, and for twice the gap in each row of the windows
-- that are tiled on it, of which there are fewer than 2 ^ 29, no two tiles overlap, and every
-- tile lies in the output's area.
pub tile_output-Apart :
    (F : FloatOps) (s : State) (c : Config) (idx : ℕ) (o : Output)
    → c.gap < 2 ^ 29
    → Spacious F
        (output_area o)
        c.gap
        (active_master_fraction s idx)
        (length (visible_windows s idx o))
    → Pairwise Apart (tile_output F s c idx o)
      × All (WithinArea (output_area o)) (tile_output F s c idx o)
unfolding tile_output
tile_output-Apart F s c idx o small r =
    let base = output_area o in
    let ids = visible_windows s idx o in
    let fraction = active_master_fraction s idx in
    let area = inset F base c.gap fraction in
    let (apart, within) =
      compute_tiling-Apart F area c.gap fraction ids (inset-Roomy F base c.gap fraction ids r) in
    subst (λ g. AreApart F ids fraction base (inner_area base g) g)
      (sym (to_i32-small c.gap (omega arith)))
      (subst (λ a. AreApart F ids fraction base a (pos c.gap))
        (sym (inner_area-inset F base c.gap fraction (length ids) r))
        (
          apart,
          All-imp _ (λ t h. inset-WithinArea F base c.gap fraction (length ids) t r h) within,
        ))
