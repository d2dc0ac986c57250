-- ===== src/State.antt =====
-- src/state.rs: the data model and its lookups. The operations and their proofs are the children.
pub mod Focus
pub mod Geometry
pub mod Outputs
pub mod Ranges
pub mod Owners
pub mod Invariant
pub mod Fraction
use streamwm.Base.{
  ℕ, Bool, true, false, Option, none, some, List, [], ◌∷◌, if◌then◌else◌, ◌==◌, not, or_else,
  and_then, map_opt, is_some_and, get_elem?, find, position, modify,
}
use streamwm.Base.Int.{ℤ, pos}
use text.Mathlib.Text.{◌==◌ as str_eq}
use Prim.Native.String.{String}
use streamwm.Protocol.{ObjectId, F64}

-- `NUM_TAGS`
abbrev pub num_tags : ℕ
num_tags = 9

pub record Tag : Type 0 where
  pub output : Option ℕ
  pub label : Option String
  pub master_fraction : F64

unfoldable pub unassigned : F64 → Tag
unassigned fraction = record { output = none; label = none; master_fraction = fraction }

-- The last border sent: focused, width, red, green, blue.
pub record Border : Type 0 where
  pub focused : Bool
  pub width : ℕ
  pub red : ℕ
  pub green : ℕ
  pub blue : ℕ

pub record Window : Type 0 where
  pub proxy : ObjectId
  pub id : ℕ
  pub tag : ℕ
  pub parent : Option ℕ
  pub app_id : Option String
  pub title : Option String
  pub floating : Bool
  pub float_x : ℤ
  pub float_y : ℤ
  pub float_w : ℕ
  pub float_h : ℕ
  pub width : ℕ
  pub height : ℕ
  pub min_width : ℕ
  pub min_height : ℕ
  pub max_width : ℕ
  pub max_height : ℕ
  pub fullscreen : Bool
  pub fullscreen_applied : Bool
  pub minimized : Bool
  pub ssd_applied : Option Bool
  pub caps_set : Bool
  pub tiled_applied : Option Bool
  pub border_applied : Option Border
  pub node : Option ObjectId

-- `Window::new`, with the id that the counter gave.
unfoldable pub new_window : ObjectId → ℕ → ℕ → Window
new_window proxy id tag = record {
  proxy = proxy;
  id = id;
  tag = tag;
  parent = none;
  app_id = none;
  title = none;
  floating = false;
  float_x = pos 0;
  float_y = pos 0;
  float_w = 400;
  float_h = 300;
  width = 0;
  height = 0;
  min_width = 0;
  min_height = 0;
  max_width = 0;
  max_height = 0;
  fullscreen = false;
  fullscreen_applied = false;
  minimized = false;
  ssd_applied = none;
  caps_set = false;
  tiled_applied = none;
  border_applied = none;
  node = none;
}

pub record Output : Type 0 where
  pub proxy : ObjectId
  pub name : Option String
  pub wl_global : Option ℕ
  pub wl_output : Option ObjectId
  pub x : ℤ
  pub y : ℤ
  pub width : ℕ
  pub height : ℕ
  pub usable_x : ℤ
  pub usable_y : ℤ
  pub usable_width : ℕ
  pub usable_height : ℕ
  pub active_tag : ℕ
  pub focused_window : Option ℕ
  pub layer : Option ObjectId

-- `Output::new`
unfoldable pub new_output : ObjectId → Output
new_output proxy = record {
  proxy = proxy;
  name = none;
  wl_global = none;
  wl_output = none;
  x = pos 0;
  y = pos 0;
  width = 0;
  height = 0;
  usable_x = pos 0;
  usable_y = pos 0;
  usable_width = 0;
  usable_height = 0;
  active_tag = 0;
  focused_window = none;
  layer = none;
}

pub record Seat : Type 0 where
  pub proxy : ObjectId
  pub pointer_x : ℤ
  pub pointer_y : ℤ
  pub pointer_window : Option ℕ
  pub layer : Option ObjectId
  pub pointer : Option ObjectId
  pub cursor_shape : Option ObjectId

-- `Seat::new`
unfoldable pub new_seat : ObjectId → Seat
new_seat proxy = record {
  proxy = proxy;
  pointer_x = pos 0;
  pointer_y = pos 0;
  pointer_window = none;
  layer = none;
  pointer = none;
  cursor_shape = none;
}

pub record State : Type 0 where
  pub outputs : List Output
  pub seats : List Seat
  pub windows : List Window
  pub tags : List Tag
  pub focused_output : Option ℕ
  pub default_master_fraction : F64
  pub resize_mode : Bool
  pub pending_apply : Bool

-- `State::new`: one unassigned tag for each of `0..NUM_TAGS`.
unfoldable pub new_state : F64 → State
unfolding unassigned
new_state fraction = record {
  outputs = [];
  seats = [];
  windows = [];
  tags = t ∷ t ∷ t ∷ t ∷ t ∷ t ∷ t ∷ t ∷ t ∷ [];
  focused_output = none;
  default_master_fraction = fraction;
  resize_mode = false;
  pending_apply = false;
}
  where
    t : Tag
    t = unassigned fraction

unfoldable pub mark_dirty : State → State
mark_dirty s = record s { pending_apply = true }

unfoldable pub toggle_resize_mode : State → State × Bool
toggle_resize_mode s = (record s { resize_mode = not s.resize_mode }, not s.resize_mode)

unfoldable pub find_window : State → ℕ → Option Window
find_window s id = find (λ w. w.id == id) s.windows

-- A change of the first window with this id: what the callers of `find_window_mut` do.
unfoldable pub update_first : (Window → Window) → ℕ → List Window → List Window
update_first f id [] = []
update_first f id (w ∷ ws) = if w.id == id then f w ∷ ws else w ∷ update_first f id ws

unfoldable pub update_window : State → ℕ → (Window → Window) → State
unfolding update_first
update_window s id f = record s { windows = update_first f id s.windows }

unfoldable pub find_window_by_proxy : State → ObjectId → Option ℕ
find_window_by_proxy s proxy = map_opt (λ w. w.id) (find (λ w. w.proxy == proxy) s.windows)

-- `o.name.as_deref() == Some(name)`
abbrev pub has_name : Option String → String → Bool
has_name n name = is_some_and n (λ m. str_eq m name)

unfoldable pub find_output_by_name : State → String → Option ℕ
find_output_by_name s name = position (λ o. has_name o.name name) s.outputs

abbrev pub first_output : List Output → Option ℕ
first_output [] = none
first_output (o ∷ os) = some 0

unfoldable pub active_output : State → Option ℕ
active_output s = or_else s.focused_output (first_output s.outputs)

unfoldable pub tag_owner : State → ℕ → Option ℕ
tag_owner s tag = and_then (get_elem? s.tags tag) (λ t. t.output)

unfoldable pub window_output : State → Window → Option ℕ
unfolding tag_owner active_output
window_output s w = or_else (tag_owner s w.tag) (active_output s)

unfoldable pub window_is_visible : State → Window → Bool
unfolding tag_owner
window_is_visible s w =
    is_some_and (and_then (tag_owner s w.tag) (get_elem? s.outputs)) (λ o. o.active_tag == w.tag)

-- `self.tags[tag].output = Some(output_idx)`
unfoldable pub own_tag : ℕ → ℕ → List Tag → List Tag
own_tag tag idx tags = modify tags tag (λ t. record t { output = some idx })

-- The first tag with no output.
unfoldable pub free_tag : State → Option ℕ
free_tag s = position (λ t. elim t.output [ none ↦ true | some o ↦ false ]) s.tags

-- `State::output_area`: the usable area, or the whole output until one is reported.
pub record Area : Type 0 where
  pub x : ℤ
  pub y : ℤ
  pub width : ℕ
  pub height : ℕ

unfoldable pub output_area : Output → Area
output_area o =
    if o.usable_width == 0
    then if o.usable_height == 0
      then record { x = o.x; y = o.y; width = o.width; height = o.height }
      else usable
    else usable
  where
    usable : Area
    usable = record {
      x = o.usable_x;
      y = o.usable_y;
      width = o.usable_width;
      height = o.usable_height;
    }
