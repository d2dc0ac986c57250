-- ===== src/Loop/Answers.antt =====
-- The requests that each input of the event loop is answered with, and the order that the window
-- management protocol asks for.
use streamwm.Base.{
  List, find, ◌==◌, inl, inr, Option-cases, Outcome, IfDone, IfDone-mono, Returns, Returns-IfDone,
}
use streamwm.Protocol.{ObjectId, Request, FloatOps}
use streamwm.Protocol.Sequence.{Stage, idle, managing, rendering}
use streamwm.Config.{Config}
use streamwm.App.{AppData}
use streamwm.App.Safe.{Safe}
use streamwm.App.Requests.{Quiet, Adds-refl, Answers, idle-Answers}
use streamwm.Bindings.Requests.{run_action-Quiet, start_pointer_op-Quiet, end_pointer_op-Quiet}
use streamwm.Connection.{
  WmEvent, unavailable, finished, window, output, seat, manage_start, render_start, session_locked,
  session_unlocked, wm_event,
}
use streamwm.Connection.Requests.{
  new_window_event-Quiet, new_output_event-Quiet, new_seat_event-Quiet,
}
use streamwm.Events.Requests.Windows.{window_event-Quiet}
use streamwm.Events.Requests.Outputs.{
  output_event-Quiet, layer_output_event-Quiet, wl_output_name-Quiet,
}
use streamwm.Events.Requests.Seats.{seat_event-Quiet}
use streamwm.Status.Requests.{apply_command-Quiet, flush_pending-Quiet}
use streamwm.Wm.Requests.{on_manage_start-Answers}
use streamwm.Wm.Requests.Render.{on_render_start-Answers}
use streamwm.Loop.{
  Input, on_wm, on_window, on_output, on_layer_output, on_wl_output, on_seat, on_key, on_button,
  key_pressed, key_released, stop_repeat, button_pressed, button_released, xkb_binding_event,
  pointer_binding_event, on_command, turn_ended, step, dispatch_action,
}
use streamwm.Loop.Safety.{Admissible, Reach, step-Reach}

-- The sequence that an event of the window manager begins, if it begins one.
abbrev pub begins_event : WmEvent → Stage
begins_event manage_start = managing
begins_event render_start = rendering
begins_event _ = idle

abbrev pub begins : Input → Stage
begins (on_wm e) = begins_event e
begins _ = idle

-- A handler that adds no request of a sequence answers an input that begins none.
Quiet-Answers :
    (d : AppData) (m : Outcome AppData)
    → IfDone m (Quiet d.sent)
    → IfDone m (λ d'. Answers idle d.sent d'.sent)
Quiet-Answers d m h =
    IfDone-mono m (Quiet d.sent) (λ d'. Answers idle d.sent d'.sent) h
      (λ d' v. idle-Answers d.sent d'.sent v)

unchanged : (d : AppData) → Quiet d.sent d
unchanged d = Adds-refl idle d.sent

wm_event-Answers :
    (d : AppData) (e : WmEvent)
    → IfDone (wm_event d e) (λ d'. Answers (begins_event e) d.sent d'.sent)
unfolding wm_event
wm_event-Answers d unavailable = idle-Answers d.sent d.sent (unchanged d)
wm_event-Answers d finished = idle-Answers d.sent d.sent (unchanged d)
wm_event-Answers d (window proxy) =
    idle-Answers d.sent _ (new_window_event-Quiet d.sent d proxy (unchanged d))
wm_event-Answers d (output proxy) =
    Quiet-Answers d _ (new_output_event-Quiet d.sent d proxy (unchanged d))
wm_event-Answers d (seat proxy) =
    Quiet-Answers d _ (new_seat_event-Quiet d.sent d proxy (unchanged d))
wm_event-Answers d manage_start = on_manage_start-Answers d
wm_event-Answers d render_start = on_render_start-Answers d
wm_event-Answers d session_locked = idle-Answers d.sent d.sent (unchanged d)
wm_event-Answers d session_unlocked = idle-Answers d.sent d.sent (unchanged d)

dispatch_action-Quiet :
    (d : AppData) (proxy : ObjectId) → IfDone (dispatch_action d proxy) (Quiet d.sent)
unfolding dispatch_action
dispatch_action-Quiet d proxy = elim (Option-cases (find (λ b. b.proxy == proxy) d.bindings)) [
  | inl e ↦ rw (e, dispatch_action) (unchanged d)
  | inr (b, e) ↦ rw (e, dispatch_action) (run_action-Quiet d.sent d b.action (unchanged d))
]

step-IfDone :
    (d : AppData) (i : Input) → IfDone (step d i) (λ d'. Answers (begins i) d.sent d'.sent)
unfolding step xkb_binding_event pointer_binding_event
step-IfDone d (on_wm e) = wm_event-Answers d e
step-IfDone d (on_window proxy e) =
    Quiet-Answers d _ (window_event-Quiet d.sent d proxy e (unchanged d))
step-IfDone d (on_output proxy e) =
    Quiet-Answers d _ (output_event-Quiet d.sent d proxy e (unchanged d))
step-IfDone d (on_layer_output layer x y width height) =
    Quiet-Answers d _ (layer_output_event-Quiet d.sent d layer x y width height (unchanged d))
step-IfDone d (on_wl_output global name) =
    idle-Answers d.sent _ (wl_output_name-Quiet d.sent d global name (unchanged d))
step-IfDone d (on_seat sid e) = Quiet-Answers d _ (seat_event-Quiet d.sent d sid e (unchanged d))
step-IfDone d (on_key binding key_pressed) = Quiet-Answers d _ (dispatch_action-Quiet d binding)
step-IfDone d (on_key binding key_released) = idle-Answers d.sent d.sent (unchanged d)
step-IfDone d (on_key binding stop_repeat) = idle-Answers d.sent d.sent (unchanged d)
step-IfDone d (on_button binding button_pressed) =
    idle-Answers d.sent _ (start_pointer_op-Quiet d.sent d binding (unchanged d))
step-IfDone d (on_button binding button_released) =
    idle-Answers d.sent _ (end_pointer_op-Quiet d.sent d (unchanged d))
step-IfDone d (on_command c) = Quiet-Answers d _ (apply_command-Quiet d.sent d c (unchanged d))
step-IfDone d turn_ended = idle-Answers d.sent _ (flush_pending-Quiet d.sent d (unchanged d))

module _ (c : Config) (F : FloatOps) (object : List Request → ObjectId) where
  -- From any data that the event loop reaches, the requests that an input is answered with keep
  -- the order of the window management protocol: window management state is changed only between
  -- the start of a manage sequence and manage_finish, rendering state only in a manage or a
  -- render sequence, and a sequence that the input starts is ended by its one finish request,
  -- which no other input is answered with; under the conditions of step-Reach.
  pub step-Answers :
      (d : AppData) (i : Input)
      → Reach c F object d
      → Admissible d i
      → Returns (step d i) (λ d'. Answers (begins i) d.sent d'.sent)
  step-Answers d i r a =
      Returns-IfDone (step d i) (λ d'. Reach c F object d' × Safe d') _
        (step-Reach c F object d i r a) (step-IfDone d i)
