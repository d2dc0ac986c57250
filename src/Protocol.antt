-- ===== src/Protocol.antt =====
-- What src/protocols.rs generates from the protocol files, as far as the program uses it: objects
-- by their ids, the bit flags, and the requests that the program sends, in the order it sends them.
pub mod Sequence
use streamwm.Base.{ℕ, Bool, false, Option}
use Prim.Native.String.{String}
use streamwm.Base.Int.{ℤ}

-- `Proxy::id()` of a protocol object.
abbrev pub ObjectId : Type 0
ObjectId = ℕ

-- An IEEE double, by its bit pattern.
abbrev pub F64 : Type 0
F64 = ℕ

-- The operations of Rust's `f64` that the program uses, a parameter: `as` conversions, `clamp`,
-- the arithmetic, and the constants 0.1 and 0.9.
pub record FloatOps : Type 0 where
  pub one_tenth : F64
  pub nine_tenths : F64
  pub clamp : F64 → F64 → F64 → F64
  pub add : F64 → F64 → F64
  pub neg : F64 → F64
  pub mul : F64 → F64 → F64
  pub of_u32 : ℕ → F64
  pub as_i32 : F64 → ℤ

-- `river_window_v1::Edges`
pub record Edges : Type 0 where
  pub top : Bool
  pub bottom : Bool
  pub left : Bool
  pub right : Bool

-- `river_seat_v1::Modifiers`
pub record Modifiers : Type 0 where
  pub shift : Bool
  pub ctrl : Bool
  pub mod1 : Bool
  pub mod3 : Bool
  pub mod4 : Bool
  pub mod5 : Bool

abbrev pub no_modifiers : Modifiers
no_modifiers = record {
  shift = false;
  ctrl = false;
  mod1 = false;
  mod3 = false;
  mod4 = false;
  mod5 = false;
}

-- `wp_cursor_shape_device_v1::Shape`, the shapes that the program uses.
pub data Shape : Type 0 where
  default_shape move_shape all_resize ew_resize ns_resize nwse_resize nesw_resize : Shape
  w_resize e_resize n_resize s_resize : Shape

pub data Request : Type 0 where
  -- any object
  destroy release : ObjectId → Request
  -- river_window_manager_v1
  manage_dirty manage_finish render_finish : Request
  -- river_window_v1
  hide show close use_ssd use_csd set_capabilities : ObjectId → Request
  fullscreen : ObjectId → ObjectId → Request
  exit_fullscreen inform_fullscreen inform_not_fullscreen : ObjectId → Request
  set_dimension_bounds propose_dimensions : ObjectId → ℤ → ℤ → Request
  set_tiled : ObjectId → Edges → Request
  set_borders : ObjectId → Edges → ℤ → ℕ → ℕ → ℕ → ℕ → Request
  get_node : ObjectId → Request
  -- river_node_v1
  set_position : ObjectId → ℤ → ℤ → Request
  place_top : ObjectId → Request
  -- river_seat_v1
  focus_window : ObjectId → ObjectId → Request
  clear_focus op_start_pointer op_end : ObjectId → Request
  pointer_warp : ObjectId → ℤ → ℤ → Request
  -- wl_pointer and wp_cursor_shape_device_v1
  set_cursor : ObjectId → Option Shape → Request
  -- wl_registry, wl_seat and the cursor-shape manager
  bind : ℕ → Request
  get_pointer get_shape_device : ObjectId → Request
  get_layer_output get_layer_seat : ObjectId → Request
  -- bindings: the seat, and the keysym or the button
  get_xkb_binding get_pointer_binding : ObjectId → ℕ → Modifiers → Request
  enable disable : ObjectId → Request
  -- a child process, by the command string given to `spawn`
  spawn : String → Request
  -- river_layer_shell_v1
  set_default : ObjectId → Request
