-- ===== src/Wm/Layout.antt =====
-- src/wm/layout.rs: the master-and-stack layout and the placement of every window.
use Prim.Native.Nat.{max}
use streamwm.Base.{
  ℕ, suc, ◌-◌, ◌/◌, Bool, Option, none, some, List, [], ◌∷◌, ◌++◌, map, not, if◌then◌else◌, ◌==◌,
  ◌&&◌, ◌||◌, same_opt, map_opt, length, find, retain,
}
use streamwm.Base.Int.{ℤ, pos, to_i32, to_u32, add_i32, sub_i32, mul_i32, mul_u32, clip_u32}
use streamwm.Protocol.{F64, FloatOps}
use streamwm.Config.{Config}
use streamwm.State.{State, Window, Output, Area, tag_owner, window_is_visible, output_area}
use streamwm.State.Fraction.{active_master_fraction}

-- `Geometry` has the fields of an area.
abbrev pub Geometry : Type 0
Geometry = Area

unfoldable pub is_tiled_on : State → ℕ → Output → Window → Bool
unfolding tag_owner
is_tiled_on s idx o w =
    same_opt (tag_owner s w.tag) (some idx) && (w.tag == o.active_tag && not w.floating)

unfoldable pub visible_windows : State → ℕ → Output → List ℕ
unfolding is_tiled_on
visible_windows s idx o = map (λ w. w.id) (retain (is_tiled_on s idx o) s.windows)

-- The width of the master column: `(area.width as f64 * fraction) as i32`, at least 0.
unfoldable pub master_width : FloatOps → ℕ → F64 → ℕ
unfolding clip_u32
master_width F width fraction = clip_u32 (F.as_i32 (F.mul (F.of_u32 width) fraction))

-- The height of a tile of the stack, the last excepted.
unfoldable pub stack_height : ℕ → ℕ → ℤ → ℕ
unfolding mul_u32 to_u32
stack_height height stack_n gap = (height - mul_u32 (stack_n - 1) (to_u32 gap)) / max stack_n 1

-- The top edge of the `i`-th tile of the stack.
unfoldable pub stack_top : ℤ → ℕ → ℤ → ℕ → ℤ
unfolding add_i32 mul_i32 to_i32
stack_top top stack_h gap i = add_i32 top (mul_i32 (to_i32 i) (add_i32 (to_i32 stack_h) gap))

pub record Stack : Type 0 where
  pub left : ℤ
  pub top : ℤ
  pub width : ℕ
  pub tile : ℕ
  pub gap : ℤ
  pub bottom : ℤ

-- The tiles of the stack from the `i`-th on, in the order of the windows.
unfoldable pub stack_tiles : Stack → ℕ → List ℕ → List (ℕ × Geometry)
unfolding stack_top sub_i32 clip_u32
stack_tiles k i [] = []
stack_tiles k i (id ∷ []) =
    let y = stack_top k.top k.tile k.gap i in
    (
      id,
      record {
        x = k.left;
        y = y;
        width = k.width;
        height = clip_u32 (sub_i32 (sub_i32 k.bottom k.gap) y);
      },
    )
    ∷ []
stack_tiles k i (id ∷ next ∷ ids) =
    (
      id,
      record { x = k.left; y = stack_top k.top k.tile k.gap i; width = k.width; height = k.tile },
    )
    ∷ stack_tiles k (suc i) (next ∷ ids)

unfoldable pub stack_of : Area → ℤ → ℤ → ℕ → ℕ → Stack
unfolding add_i32 sub_i32 to_i32 clip_u32 stack_height
stack_of area bottom gap master_w stack_n = record {
  left = add_i32 (add_i32 area.x (to_i32 master_w)) gap;
  top = area.y;
  width = clip_u32 (sub_i32 (sub_i32 (to_i32 area.width) (to_i32 master_w)) gap);
  tile = stack_height area.height stack_n gap;
  gap = gap;
  bottom = bottom;
}

unfoldable pub compute_tiling : FloatOps → List ℕ → Geometry → ℤ → ℤ → F64 → List (ℕ × Geometry)
unfolding master_width stack_of stack_tiles
compute_tiling F [] area bottom gap fraction = []
compute_tiling F (id ∷ []) area bottom gap fraction = (id, area) ∷ []
compute_tiling F (id ∷ next ∷ ids) area bottom gap fraction =
    let master_w = master_width F area.width fraction in
    (id, record { x = area.x; y = area.y; width = master_w; height = area.height })
    ∷ stack_tiles (stack_of area bottom gap master_w (length (next ∷ ids))) 0 (next ∷ ids)

-- The area inside the gap.
unfoldable pub inner_area : Area → ℤ → Area
unfolding add_i32 sub_i32 mul_i32 to_i32 clip_u32
inner_area base gap = record {
  x = add_i32 base.x gap;
  y = add_i32 base.y gap;
  width = clip_u32 (sub_i32 (to_i32 base.width) (mul_i32 gap (pos 2)));
  height = clip_u32 (sub_i32 (to_i32 base.height) (mul_i32 gap (pos 2)));
}

unfoldable pub tile_output : FloatOps → State → Config → ℕ → Output → List (ℕ × Geometry)
unfolding visible_windows inner_area output_area compute_tiling active_master_fraction add_i32
    to_i32
tile_output F s c idx o =
    let gap = to_i32 c.gap in
    let area = inner_area (output_area o) gap in
    compute_tiling F (visible_windows s idx o) area (add_i32 area.y (to_i32 area.height)) gap
      (active_master_fraction s idx)

-- The outputs from index `idx` on.
unfoldable pub compute_from : FloatOps → State → Config → ℕ → List Output → List (ℕ × Geometry)
unfolding tile_output
compute_from F s c idx [] = []
compute_from F s c idx (o ∷ os) = tile_output F s c idx o ++ compute_from F s c (suc idx) os

unfoldable pub compute_all : FloatOps → State → Config → List (ℕ × Geometry)
unfolding compute_from
compute_all F s c = compute_from F s c 0 s.outputs

unfoldable pub find_geometry : List (ℕ × Geometry) → ℕ → Option Geometry
find_geometry gs id = map_opt (λ g. g.1) (find (λ g. g.0 == id) gs)

unfoldable pub geometry_of : FloatOps → State → Config → ℕ → Option Geometry
unfolding compute_all find_geometry
geometry_of F s c id = find_geometry (compute_all F s c) id

pub data Placement : Type 0 where
  hidden : Placement
  fullscreen : Placement
  at : Geometry → Placement

unfoldable pub float_box : Window → Geometry
float_box w = record { x = w.float_x; y = w.float_y; width = w.float_w; height = w.float_h }

unfoldable pub placement_of : State → Option Geometry → Window → Placement
unfolding window_is_visible float_box
placement_of s tiled w =
    if w.minimized || not (window_is_visible s w)
    then hidden
    else if w.fullscreen
    then fullscreen
    else elim tiled [ some g ↦ at g | none ↦ at (float_box w) ]

-- The three lists that `placements` fills.
pub record Layers : Type 0 where
  pub hidden_ones : List (ℕ × Placement)
  pub tiled_ones : List (ℕ × Placement)
  pub floats : List (ℕ × Placement)

unfoldable pub add_to_layer : Window → Placement → Layers → Layers
add_to_layer w hidden l = record l { hidden_ones = (w.id, hidden) ∷ l.hidden_ones }
add_to_layer w p l =
    if w.floating
    then record l { floats = (w.id, p) ∷ l.floats }
    else record l { tiled_ones = (w.id, p) ∷ l.tiled_ones }

unfoldable pub layers : State → List (ℕ × Geometry) → List Window → Layers
unfolding placement_of find_geometry add_to_layer
layers s gs [] = record { hidden_ones = []; tiled_ones = []; floats = [] }
layers s gs (w ∷ ws) = add_to_layer w (placement_of s (find_geometry gs w.id) w) (layers s gs ws)

unfoldable pub placements : FloatOps → State → Config → List (ℕ × Placement)
unfolding layers compute_all
placements F s c =
    let l = layers s (compute_all F s c) s.windows in l.hidden_ones ++ (l.tiled_ones ++ l.floats)
