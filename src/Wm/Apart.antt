-- ===== src/Wm/Apart.antt =====
-- Tiles that do not overlap, and lie in their area (src/wm/layout.rs).
pub mod Column
pub mod Outputs
use streamwm.Base.{
  ℕ, suc, ◌+◌, ◌*◌, ◌^◌, ◌<◌, ◌≤◌, ◌≡◌, refl, sym, subst, List, [], ◌∷◌, arith, length, All,
  All-imp, ◌⊎◌,
}
use streamwm.Base.Int.{ℤ, pos, pos_part, neg_part, add_i32, add_i32_parts, parts_excl}
use streamwm.Wm.Layout.{Geometry, Stack, stack_tiles}
use streamwm.Wm.Rows.{stack_top-pos, suc-mul, last_height}

-- Each holds with all those behind it.
abbrev pub Pairwise {ℓ} : {A : Type ℓ} → (A → A → Type 0) → List A → Type 0
Pairwise R [] = Unit
Pairwise R (x ∷ xs) = All (R x) xs × Pairwise R xs

-- `b` begins where `a` ends, or further right, or further down.
abbrev pub LeftOf : Geometry → Geometry → Type 0
LeftOf a b = pos_part a.x + a.width + neg_part b.x ≤ pos_part b.x + neg_part a.x

abbrev pub Above : Geometry → Geometry → Type 0
Above a b = pos_part a.y + a.height + neg_part b.y ≤ pos_part b.y + neg_part a.y

-- Two tiles beside or below each other.
abbrev pub Apart : ℕ × Geometry → ℕ × Geometry → Type 0
Apart s t = LeftOf s.1 t.1 ⊎ Above s.1 t.1

-- A tile that begins at least `lo` below the top and ends `gap` above the bottom, or more.
abbrev pub Between : ℤ → ℤ → ℕ → ℕ → ℕ × Geometry → Type 0
Between top bottom gap lo t =
    (pos_part top + neg_part t.1.y + lo ≤ pos_part t.1.y + neg_part top)
    × (pos_part t.1.y + neg_part bottom + t.1.height + gap ≤ pos_part bottom + neg_part t.1.y)

module _ (left top bottom : ℤ) (width tile gap : ℕ) (top_high : pos_part top < 2 ^ 30)
    (top_low : neg_part top < 2 ^ 30) (bottom_high : pos_part bottom < 2 ^ 30)
    (bottom_low : neg_part bottom < 2 ^ 30) where
  abbrev stack : Stack
  stack = record {
    left = left;
    top = top;
    width = width;
    tile = tile;
    gap = pos gap;
    bottom = bottom;
  }

  -- The tiles from the `i`-th on: each is above those behind it, all are in the column, and end a gap
  -- above the bottom, or more.
  stack_from-Above :
      (i : ℕ) (ids : List ℕ)
      → i + length ids < 2 ^ 30
      → i * (tile + gap) + length ids * (tile + gap) < 2 ^ 30
      → pos_part top + neg_part bottom + (i * (tile + gap) + length ids * (tile + gap))
        ≤ pos_part bottom + neg_part top + tile
      → Pairwise (λ s t. Above s.1 t.1) (stack_tiles stack i ids)
        × All (Between top bottom gap (i * (tile + gap))) (stack_tiles stack i ids)
        × All (λ t. (t.1.x ≡ left) × (t.1.width ≡ width)) (stack_tiles stack i ids)
  unfolding stack_tiles
  stack_from-Above i [] small room fits = (tt, tt, tt)
  stack_from-Above i (id ∷ []) small room fits =
      let one : 1 * (tile + gap) ≡ tile + gap = omega arith in
      let y = add_i32 top (pos (i * (tile + gap))) in
      let p = add_i32_parts top (pos (i * (tile + gap))) (omega arith) (omega arith) in
      let e = stack_top-pos top tile gap i (omega arith) (omega (arith, one)) (omega arith) in
      let q =
        last_height y bottom gap (omega (arith, p, parts_excl y)) bottom_high bottom_low
          (omega (arith, p, parts_excl y)) (omega (arith, p, one)) in
      rw e ((tt, tt), ((omega (arith, p), omega (arith, q)), tt), ((refl, refl), tt))
  stack_from-Above i (id ∷ next ∷ ids) small room fits =
      let c : ℕ = tile + gap in
      let next_one = suc-mul i c in
      let first_one = suc-mul (length (next ∷ ids)) c in
      let p = add_i32_parts top (pos (i * c)) (omega arith) (omega (arith, first_one)) in
      let e =
        stack_top-pos top tile gap i (omega arith) (omega (arith, first_one))
          (omega (arith, first_one)) in
      let (above, between, column) =
        stack_from-Above (suc i) (next ∷ ids) (omega arith) (omega (arith, next_one, first_one))
          (omega (arith, next_one, first_one)) in
      let tiles = stack_tiles stack (suc i) (next ∷ ids) in
      rw e (
        (
          All-imp tiles
              (λ t (h : Between top bottom gap (suc i * c) t). omega (arith, p, next_one, h.0))
              between,
          above,
        ),
        (
          (omega (arith, p), omega (arith, p, first_one)),
          All-imp tiles
              (λ t (h : Between top bottom gap (suc i * c) t). (omega (arith, next_one, h.0), h.1))
              between,
        ),
        ((refl, refl), column),
      )

-- What holds of the tiles of a stack.
abbrev pub IsColumn : Stack → ℕ → ℕ → List (ℕ × Geometry) → Type 0
IsColumn k gap lo tiles =
    Pairwise (λ s t. Above s.1 t.1) tiles
    × All (Between k.top k.bottom gap lo) tiles
    × All (λ t. (t.1.x ≡ k.left) × (t.1.width ≡ k.width)) tiles

pub stack_tiles-IsColumn :
    (k : Stack) (gap : ℕ) (ids : List ℕ)
    → k.gap ≡ pos gap
    → pos_part k.top < 2 ^ 30
    → neg_part k.top < 2 ^ 30
    → pos_part k.bottom < 2 ^ 30
    → neg_part k.bottom < 2 ^ 30
    → length ids < 2 ^ 30
    → length ids * (k.tile + gap) < 2 ^ 30
    → pos_part k.top + neg_part k.bottom + length ids * (k.tile + gap)
      ≤ pos_part k.bottom + neg_part k.top + k.tile
    → IsColumn k gap 0 (stack_tiles k 0 ids)
stack_tiles-IsColumn k gap ids g a b c d small room fits =
    let none_above : 0 * (k.tile + gap) ≡ 0 = omega arith in
    subst (λ lo. IsColumn k gap lo (stack_tiles k 0 ids)) none_above
      (subst (λ h. IsColumn k gap (0 * (k.tile + gap)) (stack_tiles (record k { gap = h }) 0 ids))
        (sym g)
        (stack_from-Above k.left k.top k.bottom k.width k.tile gap a b c d 0 ids (omega arith)
          (omega (arith, none_above, room)) (omega (arith, none_above, fits))))
