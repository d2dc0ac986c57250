-- ===== src/Bindings/Requests.antt =====
-- The requests of actions and of pointer operations (src/bindings.rs) outside manage sequences.
use Prim.Native.String.{String}
use streamwm.Base.{
  refl, ℕ, Bool, true, false, Option, none, some, List, [], ◌∷◌, inl, inr, ltb, length, is_some,
  ◌||◌, Option-cases, Outcome, index, IfDone, IfDone-bind, if-IfDone, IfDone-then,
}
use streamwm.Base.Int.{ℤ}
use streamwm.Protocol.{ObjectId, Request, Edges}
use streamwm.App.{AppData, OpKind, PointerOp, with_state}
use streamwm.App.Requests.{Quiet, send-Quiet, request_manage-Quiet, if-Quiet}
use streamwm.State.{Window, find_window, active_output, update_window}
use streamwm.State.Focus.{focus_tag, send_focused_to_tag}
use streamwm.Bindings.Pointer.{
  queue_op, start_pointer_op, start_interactive_op, delta_on, apply_pointer_delta, end_pointer_op,
}
use streamwm.Bindings.Action.{
  on_active_output, queue_close, focus_among, float_focused, focused_window, close_focused,
  focus_step_on, focus_step, go_to_tag, move_to_tag, change_focused, toggle_fullscreen,
  toggle_float, focus_output_step, resize_active, resize_step, perform, run_action,
}
use streamwm.Bindings.Action.Text.{
  Action, spawn_terminal, spawn_launcher, spawn_command, close, focus_next, focus_prev,
  focus_tag_action, send_to_tag, fullscreen, float, focus_next_output, focus_prev_output,
  cycle_layout, enter_resize_mode, exit_resize_mode, resize_step_left, resize_step_right, quit,
  nothing, parse_action,
}

module _ (before : List Request) where
  queue_op-Quiet :
      (d : AppData) (op : Option PointerOp) → Quiet before d → Quiet before (queue_op d op)
  unfolding queue_op
  queue_op-Quiet d none v = v
  queue_op-Quiet d (some op) v = request_manage-Quiet before (record d { pending_op = some op }) v

  pub start_pointer_op-Quiet :
      (d : AppData) (binding : ObjectId)
      → Quiet before d
      → Quiet before (start_pointer_op d binding)
  unfolding start_pointer_op
  start_pointer_op-Quiet d binding v = queue_op-Quiet d _ v

  pub start_interactive_op-Quiet :
      (d : AppData) (wid : ℕ) (seat : ObjectId) (kind : OpKind) (edges : Edges)
      → Quiet before d
      → Quiet before (start_interactive_op d wid seat kind edges)
  unfolding start_interactive_op
  start_interactive_op-Quiet d wid seat kind edges v = queue_op-Quiet _ _ v

  delta_on-Quiet :
      (op : Option PointerOp) (d : AppData) (dx dy : ℤ)
      → Quiet before d
      → Quiet before (delta_on op d dx dy)
  unfolding delta_on
  delta_on-Quiet none d dx dy v = v
  delta_on-Quiet (some op) d dx dy v = v

  pub apply_pointer_delta-Quiet :
      (d : AppData) (dx dy : ℤ) → Quiet before d → Quiet before (apply_pointer_delta d dx dy)
  unfolding apply_pointer_delta
  apply_pointer_delta-Quiet d dx dy v = delta_on-Quiet d.pointer_op d dx dy v

  pub end_pointer_op-Quiet : (d : AppData) → Quiet before d → Quiet before (end_pointer_op d)
  unfolding end_pointer_op
  end_pointer_op-Quiet d v =
      if-Quiet before (is_some d.pointer_op || is_some d.pending_op) _ d
        (request_manage-Quiet before (record d { op_end_requested = true }) v) v

  on_active_output-Quiet :
      (d : AppData) (f : ℕ → Outcome AppData)
      → Quiet before d
      → ((o : ℕ) → IfDone (f o) (Quiet before))
      → IfDone (on_active_output d f) (Quiet before)
  unfolding on_active_output
  on_active_output-Quiet d f v k = elim (Option-cases (active_output d.state)) [
    | inl e ↦ rw (e, on_active_output) v
    | inr (o, e) ↦ rw (e, on_active_output) (k o)
  ]

  queue_close-Quiet :
      (d : AppData) → Quiet before d → (focus : Option ℕ) → Quiet before (queue_close d focus)
  unfolding queue_close
  queue_close-Quiet d v none = v
  queue_close-Quiet d v (some fid) = request_manage-Quiet before _ v

  focus_among-Quiet :
      (ids : List ℕ) (forward : Bool) (d : AppData) (idx : ℕ) (current : Option ℕ)
      → Quiet before d
      → Quiet before (focus_among ids forward d idx current)
  unfolding focus_among
  focus_among-Quiet [] forward d idx current v = v
  focus_among-Quiet (id ∷ ids) forward d idx current v = request_manage-Quiet before _ v

  change_focused-Quiet :
      (d : AppData) (f : Window → Window)
      → Quiet before d
      → (focus : Option ℕ) → Quiet before (change_focused d f focus)
  unfolding change_focused
  change_focused-Quiet d f v none = v
  change_focused-Quiet d f v (some fid) = elim (Option-cases (find_window d.state fid)) [
    | inl e ↦ rw (e, change_focused) v
    | inr (w, e) ↦
        rw (e, change_focused)
          (request_manage-Quiet before (with_state d (update_window d.state fid f)) v)
  ]

  float_focused-Quiet :
      (d : AppData) → Quiet before d → (focus : Option ℕ) → Quiet before (float_focused d focus)
  unfolding float_focused
  float_focused-Quiet d v none = v
  float_focused-Quiet d v (some fid) = request_manage-Quiet before _ v

  focus_output_step-Quiet :
      (forward : Bool) (d : AppData) → Quiet before d → Quiet before (focus_output_step forward d)
  unfolding focus_output_step
  focus_output_step-Quiet forward d v =
      if-Quiet before (ltb 1 (length d.state.outputs)) _ d (request_manage-Quiet before _ v) v

  focus_step-Quiet :
      (forward : Bool) (d : AppData) → Quiet before d → IfDone (focus_step forward d) (Quiet before)
  unfolding focus_step focus_step_on
  focus_step-Quiet forward d v = on_active_output-Quiet d _ v λ idx.
      IfDone-bind (index d.state.outputs idx) _ (Quiet before)
        (λ o. focus_among-Quiet _ forward d idx o.focused_window v)

  resize_active-Quiet :
      (right : Bool) (d : AppData) → Quiet before d → IfDone (resize_active right d) (Quiet before)
  unfolding resize_active
  resize_active-Quiet right d v =
      on_active_output-Quiet d _ v
        λ idx. IfDone-bind (index d.state.outputs idx) _ (Quiet before) (λ o. v)

  resize_step-Quiet :
      (right : Bool) (d : AppData) → Quiet before d → IfDone (resize_step right d) (Quiet before)
  unfolding resize_step
  resize_step-Quiet right d v =
      if-IfDone d.state.resize_mode _ _ (Quiet before)
        (IfDone-then (resize_active right d) _ (Quiet before) (Quiet before)
          (resize_active-Quiet right d v) (λ d' v'. request_manage-Quiet before d' v'))
        (request_manage-Quiet before d v)

  perform-Quiet : (a : Action) (d : AppData) → Quiet before d → IfDone (perform a d) (Quiet before)
  unfolding perform close_focused go_to_tag move_to_tag toggle_fullscreen toggle_float
  perform-Quiet spawn_terminal d v = send-Quiet before _ d (refl, tt) v
  perform-Quiet spawn_launcher d v = send-Quiet before _ d (refl, tt) v
  perform-Quiet (spawn_command (some command)) d v = send-Quiet before _ d (refl, tt) v
  perform-Quiet (spawn_command none) d v = v
  perform-Quiet close d v =
      IfDone-bind (focused_window d.state) _ (Quiet before) (queue_close-Quiet d v)
  perform-Quiet focus_next d v = focus_step-Quiet true d v
  perform-Quiet focus_prev d v = focus_step-Quiet false d v
  perform-Quiet (focus_tag_action (some tag)) d v = on_active_output-Quiet _ _ v λ o.
      IfDone-bind (focus_tag d.state o tag) _ (Quiet before) (λ s. request_manage-Quiet before _ v)
  perform-Quiet (focus_tag_action none) d v = v
  perform-Quiet (send_to_tag (some tag)) d v = on_active_output-Quiet d _ v λ o.
      IfDone-bind (send_focused_to_tag d.state o tag) _ (Quiet before)
        (λ s. request_manage-Quiet before _ v)
  perform-Quiet (send_to_tag none) d v = v
  perform-Quiet fullscreen d v =
      IfDone-bind (focused_window d.state) _ (Quiet before) (change_focused-Quiet d _ v)
  perform-Quiet float d v =
      IfDone-bind (focused_window d.state) _ (Quiet before) (float_focused-Quiet d v)
  perform-Quiet focus_next_output d v = focus_output_step-Quiet true d v
  perform-Quiet focus_prev_output d v = focus_output_step-Quiet false d v
  perform-Quiet cycle_layout d v = v
  perform-Quiet enter_resize_mode d v = request_manage-Quiet before _ v
  perform-Quiet exit_resize_mode d v = request_manage-Quiet before _ v
  perform-Quiet resize_step_left d v = resize_step-Quiet false d v
  perform-Quiet resize_step_right d v = resize_step-Quiet true d v
  perform-Quiet quit d v = v
  perform-Quiet nothing d v = v

  pub run_action-Quiet :
      (d : AppData) (action : String) → Quiet before d → IfDone (run_action d action) (Quiet before)
  unfolding run_action
  run_action-Quiet d action v = perform-Quiet (parse_action action) d v
