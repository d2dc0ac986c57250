-- ===== src/Wm/Apart/Column.antt =====
-- The tiling of an output (src/wm/layout.rs, `compute_tiling`): a master column and a stack, apart
-- from each other and within the area.
use Prim.Native.Nat.{max}
use native.Mathlib.Nat.{div-mul-le_self, le-div_iff_mul-le}
use streamwm.Base.{
  ℕ, suc, ◌+◌, ◌-◌, ◌*◌, ◌/◌, ◌%◌, ◌^◌, ◌<◌, ◌≤◌, ◌≡◌, refl, ◌∙◌, ap, List, [], ◌∷◌, arith, length,
  All, All-imp, All-and, inl, inr,
}
use streamwm.Base.Int.{
  ℤ, pos, pos_part, neg_part, add_i32, add_i32_parts, to_i32, to_i32-small, parts_excl, mul_u32,
  to_u32,
}
use streamwm.Protocol.{F64, FloatOps}
use streamwm.Wm.Layout.{
  Geometry, Stack, master_width, stack_height, stack_tiles, stack_of, compute_tiling,
}
use streamwm.Wm.Tiling.{stack_of-columns}
use streamwm.Wm.Apart.{Pairwise, LeftOf, Apart, Between, IsColumn, stack_tiles-IsColumn}

-- The tile lies within the area.
abbrev pub WithinArea : Geometry → ℕ × Geometry → Type 0
WithinArea area t =
    (pos_part area.x + neg_part t.1.x ≤ pos_part t.1.x + neg_part area.x)
    × (pos_part t.1.x + t.1.width + neg_part area.x ≤ pos_part area.x + area.width + neg_part t.1.x)
    × (pos_part area.y + neg_part t.1.y ≤ pos_part t.1.y + neg_part area.y)
    × (pos_part t.1.y + t.1.height + neg_part area.y
        ≤ pos_part area.y + area.height + neg_part t.1.y)

gaps-small : (m gap : ℕ) → m * gap < 2 ^ 32 → gap < 2 ^ 32 → mul_u32 m (to_u32 (pos gap)) ≡ m * gap
unfolding mul_u32 to_u32
gaps-small m gap h k = let same : gap % 2 ^ 32 ≡ gap = omega arith in rw same (omega arith)

-- The heights and the gaps of a stack, with room for a gap below.
stack_height-fits :
    (height m gap : ℕ)
    → height < 2 ^ 30
    → suc m * (2 * gap) ≤ height
    → (suc m * (stack_height height (suc m) (pos gap) + gap)
        ≤ height + stack_height height (suc m) (pos gap))
      × (stack_height height (suc m) (pos gap) ≤ height)
unfolding stack_height
stack_height-fits height m gap small room =
    let n : ℕ = suc m in
    let X : ℕ = height - m * gap in
    let pred : suc m - 1 ≡ m = omega arith in
    let gaps : mul_u32 (suc m - 1) (to_u32 (pos gap)) ≡ m * gap =
      ap (λ k. mul_u32 k (to_u32 (pos gap))) pred ∙ gaps-small m gap (omega arith) (omega arith) in
    let one : max (suc m) 1 ≡ suc m = omega arith in
    let below : X / suc m * suc m ≤ X = div-mul-le_self X (suc m) in
    let above : gap ≤ X / suc m =
      (le-div_iff_mul-le {k = suc m} {x = gap} {y = X} (omega arith)).1 (omega arith) in
    rw (gaps, one) (omega (arith, below, above), omega (arith, below))

Pairwise-imp {ℓ} :
    {A : Type ℓ} (R S : A → A → Type 0) (xs : List A)
    → ((x y : A) → R x y → S x y)
    → Pairwise R xs
    → Pairwise S xs
Pairwise-imp R S [] k h = tt
Pairwise-imp R S (x ∷ xs) k h = (All-imp xs (k x) h.0, Pairwise-imp R S xs k h.1)

-- An area with room for the master column and a gap, and for the gaps of the stack twice.
pub record Roomy (F : FloatOps) (area : Geometry) (gap : ℕ) (fraction : F64) (ids : List ℕ)
    : Type 0 where
  pub right : pos_part area.x + area.width < 2 ^ 29
  pub left : neg_part area.x < 2 ^ 30
  pub low : pos_part area.y + area.height < 2 ^ 29
  pub high : neg_part area.y < 2 ^ 30
  pub columns : master_width F area.width fraction + gap ≤ area.width
  pub rows : length ids * (2 * gap) ≤ area.height
  pub few : length ids < 2 ^ 29

module _ (F : FloatOps) (area : Geometry) (gap : ℕ) (fraction : F64) where
  abbrev bottom : ℤ
  bottom = add_i32 area.y (to_i32 area.height)

  abbrev master : ℕ
  master = master_width F area.width fraction

  abbrev rest : List ℕ → Stack
  rest ids = stack_of area bottom (pos gap) master (length ids)

  -- The stack of a roomy area.
  stack_of-IsColumn :
      (id : ℕ) (ids : List ℕ)
      → Roomy F area gap fraction (id ∷ ids)
      → IsColumn (rest (id ∷ ids)) gap 0 (stack_tiles (rest (id ∷ ids)) 0 (id ∷ ids))
  unfolding stack_of
  stack_of-IsColumn id ids r =
      let k = rest (id ∷ ids) in
      let e = to_i32-small area.height (omega (arith, r.low)) in
      let p =
        add_i32_parts area.y (pos area.height) (omega (arith, r.low, r.high))
          (omega (arith, r.low, r.high)) in
      let q : pos_part bottom + neg_part area.y ≡ pos_part area.y + neg_part bottom + area.height =
        rw e (omega (arith, p)) in
      let h = stack_height-fits area.height (length ids) gap (omega (arith, r.low)) r.rows in
      stack_tiles-IsColumn k gap (id ∷ ids) refl (omega (arith, r.low)) r.high
        (omega (arith, q, parts_excl bottom, r.low)) (omega (arith, q, parts_excl bottom, r.high))
        (omega (arith, r.few)) (omega (arith, h, r.low)) (omega (arith, q, h))

  -- Where a tile of the stack lies, from its place in the column.
  column-WithinArea :
      (id : ℕ) (ids : List ℕ) (t : ℕ × Geometry)
      → Roomy F area gap fraction (id ∷ ids)
      → Between area.y bottom gap 0 t
      → (t.1.x ≡ (rest (id ∷ ids)).left) × (t.1.width ≡ (rest (id ∷ ids)).width)
      → LeftOf (record { x = area.x; y = area.y; width = master; height = area.height }) t.1
        × WithinArea area t
  column-WithinArea id ids t r (top, end) (at, wide) =
      let c =
        stack_of-columns area bottom gap master (length (id ∷ ids)) (omega (arith, r.right))
          (omega (arith, r.left)) r.columns in
      let p =
        add_i32_parts area.x (pos (master + gap)) (omega (arith, r.right, r.columns))
          (omega (arith, r.left)) in
      let e = to_i32-small area.height (omega (arith, r.low)) in
      let v =
        add_i32_parts area.y (pos area.height) (omega (arith, r.low, r.high))
          (omega (arith, r.low, r.high)) in
      let q : pos_part bottom + neg_part area.y ≡ pos_part area.y + neg_part bottom + area.height =
        rw e (omega (arith, v)) in
      let x : t.1.x ≡ add_i32 area.x (pos (master + gap)) = at ∙ c.0 in
      let w : t.1.width + master + gap ≡ area.width = omega (arith, c.1, wide) in
      let y : pos_part t.1.x + neg_part area.x ≡ neg_part t.1.x + pos_part area.x + (master + gap) =
        rw x (omega (arith, p)) in
      (
        omega (arith, y),
        (omega (arith, y), omega (arith, y, w), omega (arith, top), omega (arith, end, q)),
      )

  -- In an area with room for its columns and rows, whose edges lie within 2 ^ 29 of the origin, no
  -- two tiles overlap and every tile lies in the area.
  pub compute_tiling-Apart :
      (ids : List ℕ)
      → Roomy F area gap fraction ids
      → Pairwise Apart (compute_tiling F ids area bottom (pos gap) fraction)
        × All (WithinArea area) (compute_tiling F ids area bottom (pos gap) fraction)
  unfolding compute_tiling
  compute_tiling-Apart [] r = (tt, tt)
  compute_tiling-Apart (id ∷ []) r =
      ((tt, tt), ((omega arith, omega arith, omega arith, omega arith), tt))
  compute_tiling-Apart (id ∷ next ∷ ids) r =
      let k = rest (next ∷ ids) in
      let tiles = stack_tiles k 0 (next ∷ ids) in
      let room : Roomy F area gap fraction (next ∷ ids) = record {
        right = r.right;
        left = r.left;
        low = r.low;
        high = r.high;
        columns = r.columns;
        rows = omega (arith, r.rows);
        few = omega (arith, r.few);
      } in
      let (above, between, column) = stack_of-IsColumn next ids room in
      let placed =
        All-imp tiles (λ t h. column-WithinArea next ids t room h.0 h.1)
          (All-and (Between area.y bottom gap 0)
            (λ (t : ℕ × Geometry). (t.1.x ≡ k.left) × (t.1.width ≡ k.width)) tiles between
            column) in
      (
        (All-imp tiles (λ t h. inl h.0) placed, Pairwise-imp _ Apart tiles (λ s t h. inr h) above),
        (
          (omega arith, omega (arith, r.columns), omega arith, omega arith),
          All-imp tiles (λ t h. h.1) placed,
        ),
      )
