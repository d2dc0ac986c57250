-- ===== src/Bindings/Pointer/Safety.antt =====
-- The pointer operations of src/bindings.rs keep the data safe. They never panic: none of them is
-- an `Outcome`.
use streamwm.Base.{ℕ, ◌≡◌, refl, Option, none, some, arith, ◌||◌, is_some, inl, inr, Bool-cases}
use streamwm.Base.Int.{ℤ}
use streamwm.Protocol.{ObjectId, Edges}
use streamwm.App.{OpKind, move, resize, PointerOp, AppData, send}
use streamwm.App.Safe.{Safe, request_manage-Safe, edit_window-Safe}
use streamwm.State.{Window}
use streamwm.Wm.Layout.{Geometry}
use streamwm.Bindings.Pointer.{
  take_geometry, float_at, queue_op, start_pointer_op, start_interactive_op, apply_kind, apply_op,
  delta_on, apply_pointer_delta, end_pointer_op, start_queued, end_requested, process_pointer_ops,
}

float_at-tag : (g : Option Geometry) (w : Window) → (float_at g w).tag ≡ w.tag
unfolding float_at take_geometry
float_at-tag none w = ground arith
float_at-tag (some g) w = ground arith

queue_op-Safe : (d : AppData) (op : Option PointerOp) → Safe d → Safe (queue_op d op)
unfolding queue_op
queue_op-Safe d none v = v
queue_op-Safe d (some op) v = request_manage-Safe _ v

pub start_pointer_op-Safe :
    (d : AppData) (binding : ObjectId) → Safe d → Safe (start_pointer_op d binding)
unfolding start_pointer_op
start_pointer_op-Safe d binding v = queue_op-Safe d _ v

pub start_interactive_op-Safe :
    (d : AppData) (wid : ℕ) (seat : ObjectId) (kind : OpKind) (edges : Edges)
    → Safe d
    → Safe (start_interactive_op d wid seat kind edges)
unfolding start_interactive_op
start_interactive_op-Safe d wid seat kind edges v =
    queue_op-Safe _ _ (edit_window-Safe d wid _ (λ w k. rw (float_at-tag _ w) k) v)

apply_kind-tag :
    (kind : OpKind) (op : PointerOp) (dx dy : ℤ) (w : Window)
    → (apply_kind kind op dx dy w).tag ≡ w.tag
unfolding apply_kind
apply_kind-tag move op dx dy w = refl
apply_kind-tag resize op dx dy w = refl

delta_on-Safe :
    (op : Option PointerOp) (d : AppData) (dx dy : ℤ) → Safe d → Safe (delta_on op d dx dy)
unfolding delta_on apply_op
delta_on-Safe none d dx dy v = v
delta_on-Safe (some op) d dx dy v =
    edit_window-Safe d op.window _ (λ w k. rw (apply_kind-tag op.kind op dx dy w) k) v

pub apply_pointer_delta-Safe :
    (d : AppData) (dx dy : ℤ) → Safe d → Safe (apply_pointer_delta d dx dy)
unfolding apply_pointer_delta
apply_pointer_delta-Safe d dx dy v = delta_on-Safe d.pointer_op d dx dy v

pub end_pointer_op-Safe : (d : AppData) → Safe d → Safe (end_pointer_op d)
unfolding end_pointer_op
end_pointer_op-Safe d v = elim (Bool-cases (is_some d.pointer_op || is_some d.pending_op)) [
  | inl active ↦ rw active (request_manage-Safe _ v)
  | inr idle ↦ rw idle v
]

pub process_pointer_ops-state : (d : AppData) → (process_pointer_ops d).state ≡ d.state
unfolding process_pointer_ops start_queued end_requested send
process_pointer_ops-state d = ground arith

pub process_pointer_ops-qh : (d : AppData) → (process_pointer_ops d).qh ≡ d.qh
unfolding process_pointer_ops start_queued end_requested send
process_pointer_ops-qh d = ground arith
