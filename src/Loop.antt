-- ===== src/Loop.antt =====
-- The event loop (src/connection.rs, `run`): one step for each thing that reaches the program, and
-- the data that a sequence of them leaves.
pub mod Safety
pub mod Answers
pub mod Rounds
pub mod Refines
use Prim.Native.String.{String}
use streamwm.Base.{ℕ, true, Option, none, some, List, find, ◌==◌, Outcome, done}
use streamwm.Base.Int.{ℤ}
use streamwm.Protocol.{ObjectId, Request, FloatOps}
use streamwm.Config.{Config}
use streamwm.App.{AppData, start}
use streamwm.Bindings.Action.{run_action}
use streamwm.Bindings.Pointer.{start_pointer_op, end_pointer_op}
use streamwm.Connection.{WmEvent, wm_event}
use streamwm.Events.OnWindow.{WindowEvent, window_event}
use streamwm.Events.OnOutput.{OutputEvent, output_event, layer_output_event, wl_output_name}
use streamwm.Events.OnSeat.{SeatEvent, seat_event}
use streamwm.Status.Command.{Command, apply_command, flush_pending}

-- The globals that `bind_globals` has bound, if the compositor has them. Binding the window manager
-- itself must succeed.
pub record Globals : Type 0 where
  pub wm : ObjectId
  pub xkb : Option ObjectId
  pub cursor_shape : Option ObjectId
  pub layer_shell : Option ObjectId

-- The data when the loop begins.
unfoldable pub boot : Config → FloatOps → (List Request → ObjectId) → Globals → AppData
unfolding start
boot c F object g = record (start c F object) {
  wm = some g.wm;
  xkb = g.xkb;
  cursor_shape = g.cursor_shape;
  layer_shell = g.layer_shell;
  qh = true;
  registry = true;
}

-- `dispatch_action`: the action of the binding that was pressed, if it is known.
unfoldable pub dispatch_action : AppData → ObjectId → Outcome AppData
unfolding run_action
dispatch_action d proxy = elim (find (λ b. b.proxy == proxy) d.bindings) [
  | none ↦ done d
  | some b ↦ run_action d b.action
]

-- `river_xkb_binding_v1`'s events: the program answers the first alone.
pub data XkbBindingEvent : Type 0 where
  key_pressed key_released stop_repeat : XkbBindingEvent

pub data PointerBindingEvent : Type 0 where
  button_pressed button_released : PointerBindingEvent

unfoldable pub xkb_binding_event : AppData → ObjectId → XkbBindingEvent → Outcome AppData
unfolding dispatch_action
xkb_binding_event d binding key_pressed = dispatch_action d binding
xkb_binding_event d binding key_released = done d
xkb_binding_event d binding stop_repeat = done d

unfoldable pub pointer_binding_event : AppData → ObjectId → PointerBindingEvent → AppData
pointer_binding_event d binding button_pressed = start_pointer_op d binding
pointer_binding_event d binding button_released = end_pointer_op d

-- What reaches the program, each from the object that it names.
pub data Input : Type 0 where
  on_wm : WmEvent → Input
  on_window : ObjectId → WindowEvent → Input
  on_output : ObjectId → OutputEvent → Input
  on_layer_output : ObjectId → ℤ → ℤ → ℤ → ℤ → Input
  on_wl_output : ℕ → String → Input
  on_seat : ObjectId → SeatEvent → Input
  on_key : ObjectId → XkbBindingEvent → Input
  on_button : ObjectId → PointerBindingEvent → Input
  on_command : Command → Input
  turn_ended : Input

unfoldable pub step : AppData → Input → Outcome AppData
unfolding xkb_binding_event pointer_binding_event
step d (on_wm e) = wm_event d e
step d (on_window proxy e) = window_event d proxy e
step d (on_output proxy e) = output_event d proxy e
step d (on_layer_output layer x y width height) = layer_output_event d layer x y width height
step d (on_wl_output global name) = done (wl_output_name d global name)
step d (on_seat sid e) = seat_event d sid e
step d (on_key binding e) = xkb_binding_event d binding e
step d (on_button binding e) = done (pointer_binding_event d binding e)
step d (on_command c) = apply_command d c
step d turn_ended = done (flush_pending d)
