-- ===== src/Loop/Safety.antt =====
-- No input makes the event loop panic.
use streamwm.Base.{
  ◌≡◌, List, inl, inr, find, ◌==◌, Option-cases, done, Returns, done_of_Returns, subst, sym,
}
use streamwm.Base.Int.{clip_u32}
use streamwm.Protocol.{ObjectId, Request, FloatOps}
use streamwm.Config.{Config}
use streamwm.App.{AppData}
use streamwm.App.Safe.{Safe, start-Safe}
use streamwm.State.Ranges.{Coordinate, Extent}
use streamwm.Bindings.Safety.{run_action-Safe}
use streamwm.Bindings.Pointer.Safety.{start_pointer_op-Safe, end_pointer_op-Safe}
use streamwm.Connection.Safety.{wm_event-Safe}
use streamwm.Events.Safety.Outputs.{
  EventFits, output_event-Safe, layer_output_event-Safe, wl_output_name-Safe,
}
use streamwm.Events.Safety.Windows.{WindowFits, window_event-Safe}
use streamwm.Events.Safety.Seats.{seat_event-Safe}
use streamwm.Status.Safety.{apply_command-Safe, flush_pending-Safe}
use streamwm.Loop.{
  Input, on_wm, on_window, on_output, on_layer_output, on_wl_output, on_seat, on_key, on_button,
  key_pressed, key_released, stop_repeat, button_pressed, button_released, xkb_binding_event,
  pointer_binding_event, on_command, turn_ended, step, Globals, boot, dispatch_action,
}

-- An input that the invariant has room for: outputs that end up within 2 ^ 30 of the origin, and a
-- window's parent while there is an output.
abbrev pub Admissible : AppData → Input → Type 0
Admissible d (on_wm e) = Unit
Admissible d (on_window proxy e) = WindowFits d.state e
Admissible d (on_output proxy e) = EventFits e
Admissible d (on_layer_output layer x y width height) =
    Coordinate x × Coordinate y × Extent (clip_u32 width) × Extent (clip_u32 height)
Admissible d (on_wl_output global name) = Unit
Admissible d (on_seat sid e) = Unit
Admissible d (on_key binding e) = Unit
Admissible d (on_button binding e) = Unit
Admissible d (on_command c) = Unit
Admissible d turn_ended = Unit

dispatch_action-Safe :
    (d : AppData) (proxy : ObjectId) → Safe d → Returns (dispatch_action d proxy) Safe
unfolding dispatch_action
dispatch_action-Safe d proxy v = elim (Option-cases (find (λ b. b.proxy == proxy) d.bindings)) [
  | inl e ↦ rw (e, dispatch_action) v
  | inr (b, e) ↦ rw (e, dispatch_action) (run_action-Safe d b.action v)
]

pub step-Safe : (d : AppData) (i : Input) → Admissible d i → Safe d → Returns (step d i) Safe
unfolding step xkb_binding_event pointer_binding_event
step-Safe d (on_wm e) a v = wm_event-Safe d e v
step-Safe d (on_window proxy e) a v = window_event-Safe d proxy e a v
step-Safe d (on_output proxy e) a v = output_event-Safe d proxy e a v
step-Safe d (on_layer_output layer x y width height) a v =
    layer_output_event-Safe d layer x y width height a.0 a.1 a.2 a.3 v
step-Safe d (on_wl_output global name) a v = wl_output_name-Safe d global name v
step-Safe d (on_seat sid e) a v = seat_event-Safe d sid e v
step-Safe d (on_key binding key_pressed) a v = dispatch_action-Safe d binding v
step-Safe d (on_key binding key_released) a v = v
step-Safe d (on_key binding stop_repeat) a v = v
step-Safe d (on_button binding button_pressed) a v = start_pointer_op-Safe d binding v
step-Safe d (on_button binding button_released) a v = end_pointer_op-Safe d v
step-Safe d (on_command c) a v = apply_command-Safe d c v
step-Safe d turn_ended a v = flush_pending-Safe d v

pub boot-Safe :
    (c : Config) (F : FloatOps) (object : List Request → ObjectId) (g : Globals)
    → Safe (boot c F object g)
unfolding boot
boot-Safe c F object g = start-Safe c F object

-- The data that a sequence of admissible steps reaches from the start of the loop.
pub data Reach (c : Config) (F : FloatOps) (object : List Request → ObjectId)
    : AppData → Type 0 where
  booted : (g : Globals) → Reach c F object (boot c F object g)
  stepped :
      (d : AppData) (i : Input) (d' : AppData)
      → Reach c F object d
      → Admissible d i
      → step d i ≡ done d'
      → Reach c F object d'

module _ (c : Config) (F : FloatOps) (object : List Request → ObjectId) where
  Reach-Safe : (d : AppData) → Reach c F object d → Safe d
  Reach-Safe _ (booted g) = boot-Safe c F object g
  Reach-Safe _ (stepped d0 i d r a e) =
      subst (λ m. Returns m Safe) e (step-Safe d0 i a (Reach-Safe d0 r))

  -- From any data that the event loop reaches, each input returns, without a panic, and leaves
  -- reachable data with a well-formed state, in which every output shows a tag that it owns,
  -- unless it owns none and no tag is free, for every configuration and all globals, where
  -- outputs end up within 2 ^ 30 of the origin and a window is given a parent only while there is
  -- an output.
  pub step-Reach :
      (d : AppData) (i : Input)
      → Reach c F object d
      → Admissible d i
      → Returns (step d i) (λ d'. Reach c F object d' × Safe d')
  step-Reach d i r a =
      let (d', e, v) = done_of_Returns (step d i) Safe (step-Safe d i a (Reach-Safe d r)) in
      subst (λ m. Returns m (λ d'. Reach c F object d' × Safe d')) (sym e) (stepped d i d' r a e, v)
