-- ===== src/Bindings/Pointer.antt =====
-- src/bindings.rs: interactive moves and resizes of floating windows, and src/events.rs:
-- `set_seat_cursor`.
pub mod Safety
pub mod Drag
use Prim.Native.String.{String}
use text.Mathlib.Text.{◌==◌ as str_eq}
use streamwm.Base.{
  ℕ, Bool, true, false, Option, none, some, List, [], ◌∷◌, ◌++◌, if◌then◌else◌, ◌==◌, is_some,
  and_then, map_opt, find, ◌||◌,
}
use streamwm.Base.Int.{ℤ, pos, to_i32, to_u32, add_i32, sub_i32, max_ℤ}
use streamwm.Protocol.{
  ObjectId, Edges, Shape, default_shape, move_shape, all_resize, ew_resize, ns_resize, nwse_resize,
  nesw_resize, w_resize, e_resize, n_resize, s_resize, Request, op_start_pointer, op_end,
  set_cursor,
}
use streamwm.App.{OpKind, move, resize, PointerOp, AppData, with_state, send, request_manage}
use streamwm.State.{State, Window, Seat, find_window, update_window}
use streamwm.Wm.Layout.{Geometry, geometry_of}

abbrev pub no_edges : Edges
no_edges = record { top = false; bottom = false; left = false; right = false }

abbrev pub corner : Edges
corner = record { top = false; bottom = true; left = false; right = true }

-- `Seat::set_cursor`
unfoldable pub seat_cursor : Seat → Shape → List Request
seat_cursor seat shape = elim seat.pointer [
  | none ↦ []
  | some pointer ↦ elim seat.cursor_shape [
    | some device ↦ set_cursor device (some shape) ∷ []
    | none ↦ set_cursor pointer none ∷ []
  ]
]

unfoldable pub set_seat_cursor : State → ObjectId → Shape → List Request
unfolding seat_cursor
set_seat_cursor s seat shape = elim (find (λ x. x.proxy == seat) s.seats) [
  | none ↦ []
  | some x ↦ seat_cursor x shape
]

-- The match on (left, right, top, bottom).
unfoldable pub resize_shape : Bool → Bool → Bool → Bool → Shape
resize_shape true true true true = all_resize
resize_shape true true _ _ = ew_resize
resize_shape _ _ true true = ns_resize
resize_shape true false true false = nwse_resize
resize_shape true false false true = nesw_resize
resize_shape false true true false = nesw_resize
resize_shape false true false true = nwse_resize
resize_shape true false _ _ = w_resize
resize_shape false true _ _ = e_resize
resize_shape false false true false = n_resize
resize_shape false false false true = s_resize
resize_shape _ _ _ _ = all_resize

unfoldable pub cursor_shape : OpKind → Edges → Shape
unfolding resize_shape
cursor_shape move edges = move_shape
cursor_shape resize edges = resize_shape edges.left edges.right edges.top edges.bottom

-- The seat and the window under its pointer, for the first seat whose pointer is over a window.
unfoldable pub pointed : List Seat → Option (Seat × ℕ)
pointed [] = none
pointed (s ∷ ss) = elim s.pointer_window [ some w ↦ some (s, w) | none ↦ pointed ss ]

unfoldable pub op_of : OpKind → Edges → Seat → Window → PointerOp
op_of kind edges seat w = record {
  window = w.id;
  kind = kind;
  start_x = seat.pointer_x;
  start_y = seat.pointer_y;
  start_float_x = w.float_x;
  start_float_y = w.float_y;
  start_w = w.float_w;
  start_h = w.float_h;
  edges = edges;
  seat = seat.proxy;
}

unfoldable pub pointer_op_for : State → String → Option PointerOp
unfolding pointed find_window op_of
pointer_op_for s action = and_then (pointed s.seats) λ (seat, wid).
    and_then (find_window s wid) λ w.
      if w.floating
      then some
          (if str_eq action "move" then op_of move no_edges seat w else op_of resize corner seat w)
      else none

-- The operation is queued: `op_start_pointer` is for the manage sequence.
unfoldable pub queue_op : AppData → Option PointerOp → AppData
queue_op d none = d
queue_op d (some op) = request_manage (record d { pending_op = some op })

unfoldable pub start_pointer_op : AppData → ObjectId → AppData
start_pointer_op d binding = queue_op d (
    and_then (find (λ b. b.proxy == binding) d.pointer_bindings)
      (λ b. pointer_op_for d.state b.action))

-- The window floats from now on, at its tile if it was tiled.
unfoldable pub take_geometry : Option Geometry → Window → Window
take_geometry none w = w
take_geometry (some g) w = record w {
  float_x = g.x;
  float_y = g.y;
  float_w = g.width;
  float_h = g.height;
}

unfoldable pub float_at : Option Geometry → Window → Window
unfolding take_geometry
float_at g w = if w.floating then w else record (take_geometry g w) { floating = true }

unfoldable pub seat_position : State → ObjectId → ℤ × ℤ
seat_position s seat = elim (find (λ x. x.proxy == seat) s.seats) [
  | none ↦ (pos 0, pos 0)
  | some x ↦ (x.pointer_x, x.pointer_y)
]

-- An operation on a window from where it is, and from where the seat's pointer is.
unfoldable pub anchored_op : ℕ → OpKind → Edges → ObjectId → ℤ × ℤ → Window → PointerOp
anchored_op wid kind edges seat pointer w = record {
  window = wid;
  kind = kind;
  start_x = pointer.0;
  start_y = pointer.1;
  start_float_x = w.float_x;
  start_float_y = w.float_y;
  start_w = w.float_w;
  start_h = w.float_h;
  edges = edges;
  seat = seat;
}

unfoldable pub start_interactive_op : AppData → ℕ → ObjectId → OpKind → Edges → AppData
unfolding queue_op anchored_op
start_interactive_op d wid seat kind edges =
    let s = update_window d.state wid (float_at (geometry_of d.floats d.state d.config wid)) in
    queue_op (with_state d s)
      (map_opt (anchored_op wid kind edges seat (seat_position s seat)) (find_window s wid))

-- One axis of a resize: the new origin and the new extent, for the side that is dragged.
unfoldable pub drag_axis : Bool → ℤ → ℕ → ℤ → ℤ × ℤ
unfolding add_i32 sub_i32 to_i32
drag_axis true origin extent delta = (add_i32 origin delta, sub_i32 (to_i32 extent) delta)
drag_axis false origin extent delta = (origin, add_i32 (to_i32 extent) delta)

-- `n.max(50) as u32`
unfoldable pub at_least_50 : ℤ → ℕ
unfolding max_ℤ to_u32
at_least_50 n = to_u32 (max_ℤ n (pos 50))

unfoldable pub apply_kind : OpKind → PointerOp → ℤ → ℤ → Window → Window
apply_kind move op dx dy w = record w {
  float_x = add_i32 op.start_float_x (sub_i32 dx op.start_x);
  float_y = add_i32 op.start_float_y (sub_i32 dy op.start_y);
}
apply_kind resize op dx dy w =
    let h = drag_axis op.edges.left op.start_float_x op.start_w (sub_i32 dx op.start_x) in
    let v = drag_axis op.edges.top op.start_float_y op.start_h (sub_i32 dy op.start_y) in
    record w { float_x = h.0; float_y = v.0; float_w = at_least_50 h.1; float_h = at_least_50 v.1 }

unfoldable pub apply_op : PointerOp → ℤ → ℤ → Window → Window
unfolding apply_kind
apply_op op dx dy w = apply_kind op.kind op dx dy w

unfoldable pub delta_on : Option PointerOp → AppData → ℤ → ℤ → AppData
delta_on none d dx dy = d
delta_on (some op) d dx dy = with_state d (update_window d.state op.window (apply_op op dx dy))

unfoldable pub apply_pointer_delta : AppData → ℤ → ℤ → AppData
unfolding delta_on
apply_pointer_delta d dx dy = delta_on d.pointer_op d dx dy

unfoldable pub end_pointer_op : AppData → AppData
end_pointer_op d =
    if is_some d.pointer_op || is_some d.pending_op
    then request_manage (record d { op_end_requested = true })
    else d

unfoldable pub start_queued : AppData → AppData
unfolding send set_seat_cursor cursor_shape
start_queued d = elim d.pending_op [
  | none ↦ d
  | some op ↦
      let cursor = set_seat_cursor d.state op.seat (cursor_shape op.kind op.edges) in
      send (cursor ++ op_start_pointer op.seat ∷ [])
        (record d { pending_op = none; pointer_op = some op })
]

unfoldable pub end_requested : AppData → AppData
unfolding send set_seat_cursor
end_requested d =
    if d.op_end_requested
    then elim d.pointer_op [
      | none ↦ record d { op_end_requested = false }
      | some op ↦
          send (op_end op.seat ∷ set_seat_cursor d.state op.seat default_shape)
            (record d { op_end_requested = false; pointer_op = none })
    ]
    else d

unfoldable pub process_pointer_ops : AppData → AppData
unfolding start_queued end_requested
process_pointer_ops d = end_requested (start_queued d)
