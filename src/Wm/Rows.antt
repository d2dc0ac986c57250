-- ===== src/Wm/Rows.antt =====
-- The rows of the stack (src/wm/layout.rs): where each tile begins and where the last one ends.
use streamwm.Base.{
  ℕ, suc, ◌+◌, ◌-◌, ◌*◌, ◌^◌, ◌<◌, ◌≤◌, ◌≡◌, refl, sym, ◌∙◌, ap, subst, List, [], ◌∷◌, arith,
  length,
}
use streamwm.Base.Int.{
  ℤ, pos, pos_part, neg_part, add_i32, sub_i32, mul_i32, clip_u32, add_i32_parts, sub_i32_parts,
  to_i32-small, eq_of_parts, parts_excl,
}
use streamwm.Wm.Layout.{Geometry, Stack, stack_top, stack_tiles}

-- The tiles follow each other from `y` on with the gap between them, and the last one ends the gap
-- above `bottom`.
abbrev pub Rows : ℕ → ℤ → ℤ → List (ℕ × Geometry) → Type 0
Rows gap bottom y [] = Unit
Rows gap bottom y (t ∷ []) =
    (t.1.y ≡ y) × (pos_part y + neg_part bottom + t.1.height + gap ≡ pos_part bottom + neg_part y)
Rows gap bottom y (t ∷ next ∷ ts) =
    (t.1.y ≡ y) × Rows gap bottom (add_i32 y (pos (t.1.height + gap))) (next ∷ ts)

pub mul_i32-pos : (a b : ℕ) → a * b < 2 ^ 31 → mul_i32 (pos a) (pos b) ≡ pos (a * b)
unfolding mul_i32
mul_i32-pos a b h = ground arith

pub add_i32-pos : (a b : ℕ) → a + b < 2 ^ 31 → add_i32 (pos a) (pos b) ≡ pos (a + b)
add_i32-pos a b h =
    let p = add_i32_parts (pos a) (pos b) (omega arith) (omega arith) in
    eq_of_parts (add_i32 (pos a) (pos b)) (pos (a + b)) (omega (arith, p))

pub stack_top-pos :
    (top : ℤ) (tile gap i : ℕ)
    → i < 2 ^ 31
    → tile + gap < 2 ^ 31
    → i * (tile + gap) < 2 ^ 31
    → stack_top top tile (pos gap) i ≡ add_i32 top (pos (i * (tile + gap)))
unfolding stack_top
stack_top-pos top tile gap i a b c =
    rw
      (
        to_i32-small i a,
        to_i32-small tile (omega arith),
        add_i32-pos tile gap b,
        mul_i32-pos i (tile + gap) c,
      )
      refl

pub suc-mul : (i c : ℕ) → suc i * c ≡ i * c + c
suc-mul i c = omega arith

add_i32-step :
    (top : ℤ) (a b : ℕ)
    → pos_part top < 2 ^ 30
    → neg_part top < 2 ^ 30
    → a + b < 2 ^ 30
    → add_i32 (add_i32 top (pos a)) (pos b) ≡ add_i32 top (pos (a + b))
add_i32-step top a b h k m =
    let p = add_i32_parts top (pos a) (omega arith) (omega arith) in
    let q = add_i32_parts (add_i32 top (pos a)) (pos b) (omega (arith, p)) (omega (arith, p)) in
    let r = add_i32_parts top (pos (a + b)) (omega arith) (omega arith) in
    eq_of_parts _ _ (omega (arith, p, q, r))

pub clip_u32-parts : (z : ℤ) (n : ℕ) → pos_part z ≡ neg_part z + n → n < 2 ^ 32 → clip_u32 z ≡ n
unfolding clip_u32
clip_u32-parts z n e h = ground arith

pub last_height :
    (y bottom : ℤ) (gap : ℕ)
    → pos_part y < 2 ^ 31
    → pos_part bottom < 2 ^ 30
    → neg_part bottom < 2 ^ 30
    → neg_part y < 2 ^ 30
    → pos_part y + neg_part bottom + gap ≤ pos_part bottom + neg_part y
    → pos_part y + neg_part bottom + clip_u32 (sub_i32 (sub_i32 bottom (pos gap)) y) + gap
      ≡ pos_part bottom + neg_part y
last_height y bottom gap a b c d h =
    let p = sub_i32_parts bottom (pos gap) (omega arith) (omega arith) in
    let q = sub_i32_parts (sub_i32 bottom (pos gap)) y (omega (arith, p)) (omega (arith, p)) in
    omega (
      arith,
      clip_u32-parts (sub_i32 (sub_i32 bottom (pos gap)) y)
          (pos_part bottom + neg_part y - pos_part y - neg_part bottom - gap) (omega (arith, p, q))
          (omega arith),
    )

cons-Rows :
    (gap : ℕ) (bottom y : ℤ) (t : ℕ × Geometry) (ts : List (ℕ × Geometry))
    → 0 < length ts
    → t.1.y ≡ y
    → Rows gap bottom (add_i32 y (pos (t.1.height + gap))) ts
    → Rows gap bottom y (t ∷ ts)
cons-Rows gap bottom y t [] h e r = elim h [ ]
cons-Rows gap bottom y t (next ∷ ts) h e r = (e, r)

some_tile : (k : Stack) (i id : ℕ) (ids : List ℕ) → 0 < length (stack_tiles k i (id ∷ ids))
unfolding stack_tiles
some_tile k i id [] = omega arith
some_tile k i id (next ∷ ids) = omega arith

module _ (left top bottom : ℤ) (width tile gap : ℕ) (top_high : pos_part top < 2 ^ 30)
    (top_low : neg_part top < 2 ^ 30) (bottom_high : pos_part bottom < 2 ^ 30)
    (bottom_low : neg_part bottom < 2 ^ 30) where
  abbrev stack : Stack
  stack = record {
    left = left;
    top = top;
    width = width;
    tile = tile;
    gap = pos gap;
    bottom = bottom;
  }

  stack_from-Rows :
      (i : ℕ) (ids : List ℕ)
      → i + length ids < 2 ^ 30
      → i * (tile + gap) + length ids * (tile + gap) < 2 ^ 30
      → pos_part top + neg_part bottom + (i * (tile + gap) + length ids * (tile + gap))
        ≤ pos_part bottom + neg_part top + tile
      → Rows gap bottom (add_i32 top (pos (i * (tile + gap)))) (stack_tiles stack i ids)
  unfolding stack_tiles
  stack_from-Rows i [] small room fits = tt
  stack_from-Rows i (id ∷ []) small room fits =
      let one : 1 * (tile + gap) ≡ tile + gap = omega arith in
      let y = add_i32 top (pos (i * (tile + gap))) in
      let p = add_i32_parts top (pos (i * (tile + gap))) (omega arith) (omega arith) in
      let e = stack_top-pos top tile gap i (omega arith) (omega (arith, one)) (omega arith) in
      rw e (
        refl,
        last_height y bottom gap (omega (arith, p, parts_excl y)) bottom_high bottom_low
            (omega (arith, p, parts_excl y)) (omega (arith, p, one)),
      )
  stack_from-Rows i (id ∷ next ∷ ids) small room fits =
      let c : ℕ = tile + gap in
      let next_one = suc-mul i c in
      let first_one = suc-mul (length (next ∷ ids)) c in
      let step : add_i32 (add_i32 top (pos (i * c))) (pos c) ≡ add_i32 top (pos (suc i * c)) =
        add_i32-step top (i * c) c top_high top_low (omega (arith, first_one))
        ∙ ap (λ n. add_i32 top (pos n)) (sym next_one) in
      cons-Rows gap bottom _
        (id, record { x = left; y = stack_top top tile (pos gap) i; width = width; height = tile })
        (stack_tiles stack (suc i) (next ∷ ids)) (some_tile stack (suc i) next ids)
        (stack_top-pos top tile gap i (omega arith) (omega (arith, first_one))
          (omega (arith, first_one)))
        (subst (λ y. Rows gap bottom y (stack_tiles stack (suc i) (next ∷ ids))) (sym step)
          (stack_from-Rows (suc i) (next ∷ ids) (omega arith) (omega (arith, next_one, first_one))
            (omega (arith, next_one, first_one))))

-- In a stack whose gaps and tiles but the last fit between its top and its bottom, which lie
-- within 2 ^ 30 of the origin, the tiles follow each other from the top with the gap between
-- them, and the last one ends the gap above the bottom.
pub stack_tiles-Rows :
    (k : Stack) (gap : ℕ) (ids : List ℕ)
    → k.gap ≡ pos gap
    → pos_part k.top < 2 ^ 30
    → neg_part k.top < 2 ^ 30
    → pos_part k.bottom < 2 ^ 30
    → neg_part k.bottom < 2 ^ 30
    → length ids < 2 ^ 30
    → length ids * (k.tile + gap) < 2 ^ 30
    → pos_part k.top + neg_part k.bottom + length ids * (k.tile + gap)
      ≤ pos_part k.bottom + neg_part k.top + k.tile
    → Rows gap k.bottom k.top (stack_tiles k 0 ids)
stack_tiles-Rows k gap ids g a b c d small room fits =
    let none_above : 0 * (k.tile + gap) ≡ 0 = omega arith in
    let p = add_i32_parts k.top (pos 0) (omega arith) (omega arith) in
    let same : add_i32 k.top (pos (0 * (k.tile + gap))) ≡ k.top =
      ap (λ n. add_i32 k.top (pos n)) none_above ∙ eq_of_parts _ _ (omega (arith, p)) in
    subst (λ y. Rows gap k.bottom y (stack_tiles k 0 ids)) same
      (subst
        (λ h.
          Rows gap k.bottom (add_i32 k.top (pos (0 * (k.tile + gap))))
            (stack_tiles (record k { gap = h }) 0 ids))
        (sym g)
        (stack_from-Rows k.left k.top k.bottom k.width k.tile gap a b c d 0 ids (omega arith)
          (omega (arith, none_above)) (omega (arith, none_above))))
