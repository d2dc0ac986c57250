-- ===== src/App.antt =====
-- src/connection.rs: the data that the single-threaded event loop owns. Two of its fields stand for
-- the outside: `sent` records the requests in their order, and `object` gives the id of the object
-- that a request creates, from the requests sent so far.
pub mod Safe
pub mod Requests
use Prim.Native.String.{String}
use streamwm.Base.{ℕ, Bool, false, Option, none, some, List, [], ◌∷◌, ◌++◌}
use streamwm.Base.Int.{ℤ}
use streamwm.Protocol.{ObjectId, Edges, Request, manage_dirty, FloatOps}
use streamwm.Config.{Config}
use streamwm.State.{State, new_state}

pub data OpKind : Type 0 where
  move resize : OpKind

pub record PointerOp : Type 0 where
  pub window : ℕ
  pub kind : OpKind
  pub start_x : ℤ
  pub start_y : ℤ
  pub start_float_x : ℤ
  pub start_float_y : ℤ
  pub start_w : ℕ
  pub start_h : ℕ
  pub edges : Edges
  pub seat : ObjectId

-- A key or pointer binding: its object, its action, and its seat.
pub record Bound : Type 0 where
  pub proxy : ObjectId
  pub action : String
  pub owner : ObjectId

pub record AppData : Type 0 where
  pub state : State
  pub wm : Option ObjectId
  pub xkb : Option ObjectId
  pub cursor_shape : Option ObjectId
  pub layer_shell : Option ObjectId
  pub config : Config
  pub quit : Bool
  pub qh : Bool
  pub registry : Bool
  pub bindings : List Bound
  pub layer_default_set : Bool
  pub pending_close : List ℕ
  pub pointer_bindings : List Bound
  pub pointer_op : Option PointerOp
  pub pending_op : Option PointerOp
  pub op_end_requested : Bool
  pub pending_pointer_warp : Option ℕ
  -- the counter behind `Window::new`
  pub next_window_id : ℕ
  pub floats : FloatOps
  pub sent : List Request
  pub object : List Request → ObjectId

-- `AppData::new`
unfoldable pub new_app : State → Config → FloatOps → (List Request → ObjectId) → AppData
new_app s c F object = record {
  state = s;
  wm = none;
  xkb = none;
  cursor_shape = none;
  layer_shell = none;
  config = c;
  quit = false;
  qh = false;
  registry = false;
  bindings = [];
  layer_default_set = false;
  pending_close = [];
  pointer_bindings = [];
  pointer_op = none;
  pending_op = none;
  op_end_requested = false;
  pending_pointer_warp = none;
  next_window_id = 1;
  floats = F;
  sent = [];
  object = object;
}

-- The data at the start of `run`: a state with the configured fraction, brought into range.
unfoldable pub start : Config → FloatOps → (List Request → ObjectId) → AppData
unfolding new_app new_state
start c F object =
    new_app (new_state (F.clamp c.master_fraction F.one_tenth F.nine_tenths)) c F object

abbrev pub with_state : AppData → State → AppData
with_state d s = record d { state = s }

unfoldable pub send : List Request → AppData → AppData
send rs d = record d { sent = d.sent ++ rs }

-- `if let Some(wm) = &data.wm { wm.manage_dirty() }`
unfoldable pub request_manage : AppData → AppData
unfolding send
request_manage d = elim d.wm [ none ↦ d | some wm ↦ send (manage_dirty ∷ []) d ]
