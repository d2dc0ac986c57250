-- ===== src/Wm/Tiling.antt =====
-- The layout's promises (src/wm/layout.rs): a tile for every window, columns that fill the area, and
-- a place for every window.
use streamwm.Base.{
  ℕ, suc, ◌+◌, ◌-◌, ◌^◌, ◌<◌, ◌≤◌, ◌≡◌, refl, ap, List, [], ◌∷◌, ◌++◌, map, arith, if◌then◌else◌,
  ◌==◌,
}
use streamwm.Base.Int.{
  ℤ, pos, pos_part, neg_part, add_i32, sub_i32, clip_u32, add_i32_parts, sub_i32_parts,
  to_i32-small, eq_of_parts,
}
use streamwm.Protocol.{F64, FloatOps}
use streamwm.Config.{Config}
use streamwm.State.{State, Window, Area}
use streamwm.Wm.Layout.{
  Geometry, Stack, stack_tiles, stack_of, compute_tiling, compute_all, Placement, hidden,
  fullscreen, at, Layers, add_to_layer, placement_of, layers, find_geometry, placements,
}

stack_tiles-ids : (k : Stack) (i : ℕ) (ids : List ℕ) → map (λ g. g.0) (stack_tiles k i ids) ≡ ids
unfolding stack_tiles
stack_tiles-ids k i [] = refl
stack_tiles-ids k i (id ∷ []) = refl
stack_tiles-ids k i (id ∷ next ∷ ids) = ap (λ xs. id ∷ xs) (stack_tiles-ids k (suc i) (next ∷ ids))

-- Each window that is tiled gets one tile, in the order of the windows, whatever the area is.
pub compute_tiling-ids :
    (F : FloatOps) (ids : List ℕ) (area : Geometry) (bottom gap : ℤ) (fraction : F64)
    → map (λ g. g.0) (compute_tiling F ids area bottom gap fraction) ≡ ids
unfolding compute_tiling
compute_tiling-ids F [] area bottom gap fraction = refl
compute_tiling-ids F (id ∷ []) area bottom gap fraction = refl
compute_tiling-ids F (id ∷ next ∷ ids) area bottom gap fraction =
    ap (λ xs. id ∷ xs) (stack_tiles-ids _ 0 (next ∷ ids))

pub sub_i32-pos : (a b : ℕ) → b ≤ a → a < 2 ^ 31 → sub_i32 (pos a) (pos b) ≡ pos (a - b)
sub_i32-pos a b h k =
    let z = sub_i32 (pos a) (pos b) in
    let p = sub_i32_parts (pos a) (pos b) (omega arith) (omega arith) in
    eq_of_parts z (pos (a - b)) (omega (arith, p))

pub clip_u32-pos : (n : ℕ) → n < 2 ^ 31 → clip_u32 (pos n) ≡ n
unfolding clip_u32
clip_u32-pos n h = omega arith

-- Where the master column and a gap fit in the area, and the area's edges are coordinates, the
-- stack begins a gap to the right of the master column and ends on the area's right edge.
pub stack_of-columns :
    (area : Area) (bottom : ℤ) (gap master_w stack_n : ℕ)
    → pos_part area.x + area.width < 2 ^ 31
    → neg_part area.x < 2 ^ 31
    → master_w + gap ≤ area.width
    → ((stack_of area bottom (pos gap) master_w stack_n).left
        ≡ add_i32 area.x (pos (master_w + gap)))
      × ((stack_of area bottom (pos gap) master_w stack_n).width + master_w + gap ≡ area.width)
unfolding stack_of
stack_of-columns area bottom gap master_w stack_n fits low room =
    let left : add_i32 (add_i32 area.x (pos master_w)) (pos gap)
        ≡ add_i32 area.x (pos (master_w + gap)) =
      let p = add_i32_parts area.x (pos master_w) (omega arith) (omega arith) in
      let q =
        add_i32_parts (add_i32 area.x (pos master_w)) (pos gap) (omega (arith, p))
          (omega (arith, p)) in
      let r = add_i32_parts area.x (pos (master_w + gap)) (omega arith) (omega arith) in
      eq_of_parts _ _ (omega (arith, p, q, r)) in
    let width : clip_u32 (sub_i32 (sub_i32 (pos area.width) (pos master_w)) (pos gap))
        ≡ area.width - master_w - gap =
      rw
        (
          sub_i32-pos area.width master_w (omega arith) (omega arith),
          sub_i32-pos (area.width - master_w) gap (omega arith) (omega arith),
        )
        (clip_u32-pos _ (omega arith)) in
    rw (to_i32-small master_w (omega arith), to_i32-small area.width (omega arith))
      (left, rw width (omega arith))

-- How often a number occurs.
abbrev pub occurrences : ℕ → List ℕ → ℕ
occurrences n [] = 0
occurrences n (m ∷ ms) = if m == n then suc (occurrences n ms) else occurrences n ms

occurrences-append :
    (n : ℕ) (xs ys : List ℕ) → occurrences n (xs ++ ys) ≡ occurrences n xs + occurrences n ys
occurrences-append n [] ys = omega arith
occurrences-append n (x ∷ xs) ys = ground (arith, occurrences-append n xs ys)

-- The number of times that a window is placed, over the three lists.
unfoldable listed : ℕ → Layers → ℕ
listed n l =
    occurrences n (map (λ p. p.0) l.hidden_ones)
    + (occurrences n (map (λ p. p.0) l.tiled_ones) + occurrences n (map (λ p. p.0) l.floats))

add_to_layer-listed :
    (n : ℕ) (w : Window) (p : Placement) (l : Layers)
    → listed n (add_to_layer w p l) ≡ (if w.id == n then suc (listed n l) else listed n l)
unfolding listed add_to_layer
add_to_layer-listed n w hidden l = ground arith
add_to_layer-listed n w fullscreen l = ground arith
add_to_layer-listed n w (at g) l = ground arith

listed-none : (n : ℕ) → listed n (record { hidden_ones = []; tiled_ones = []; floats = [] }) ≡ 0
unfolding listed
listed-none n = refl

layers-listed :
    (n : ℕ) (s : State) (gs : List (ℕ × Geometry)) (ws : List Window)
    → listed n (layers s gs ws) ≡ occurrences n (map (λ w. w.id) ws)
unfolding layers
layers-listed n s gs [] = listed-none n
layers-listed n s gs (w ∷ ws) =
    rw
      (
        add_to_layer-listed n w (placement_of s (find_geometry gs w.id) w) (layers s gs ws),
        layers-listed n s gs ws,
      )
      refl

map-append :
    (f : ℕ × Placement → ℕ) (xs ys : List (ℕ × Placement)) → map f (xs ++ ys) ≡ map f xs ++ map f ys
map-append f [] ys = refl
map-append f (x ∷ xs) ys = ap (λ zs. f x ∷ zs) (map-append f xs ys)

-- Every window is placed as often as it is listed in the state, tiled, floating, fullscreen and
-- hidden windows alike: none is forgotten and none is placed twice.
pub placements-occurrences :
    (F : FloatOps) (s : State) (c : Config) (n : ℕ)
    → occurrences n (map (λ p. p.0) (placements F s c)) ≡ occurrences n (map (λ w. w.id) s.windows)
unfolding placements listed
placements-occurrences F s c n =
    let l = layers s (compute_all F s c) s.windows in
    rw
      (
        map-append (λ p. p.0) l.hidden_ones (l.tiled_ones ++ l.floats),
        map-append (λ p. p.0) l.tiled_ones l.floats,
        occurrences-append n (map (λ p. p.0) l.hidden_ones)
            (map (λ p. p.0) l.tiled_ones ++ map (λ p. p.0) l.floats),
        occurrences-append n (map (λ p. p.0) l.tiled_ones) (map (λ p. p.0) l.floats),
      )
      (layers-listed n s (compute_all F s c) s.windows)
