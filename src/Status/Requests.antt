-- ===== src/Status/Requests.antt =====
-- The requests of the commands of the control socket (src/status.rs).
use streamwm.Base.{refl, ◌∷◌, [], List, inl, inr, Option-cases, IfDone, IfDone-bind, IfDone-then}
use streamwm.Protocol.{Request, spawn}
use streamwm.App.{AppData}
use streamwm.App.Requests.{Quiet, send-Quiet, request_manage-Quiet, if-Quiet}
use streamwm.State.{active_output, find_output_by_name}
use streamwm.State.Focus.{send_focused_to_tag}
use streamwm.Status.Command.{
  Command, focus_tag_command, send_to_tag, focus_output, focus_window, spawn_command, quit, refresh,
  command_output, focus_tag_on, focus_matching, run_command, apply_command, flush_pending,
}

module _ (before : List Request) where
  run_command-Quiet :
      (c : Command) (d : AppData) → Quiet before d → IfDone (run_command c d) (Quiet before)
  unfolding run_command
  run_command-Quiet (focus_tag_command tag output) d v =
      IfDone-bind (focus_tag_on d.state (command_output d.state output) tag) _ (Quiet before)
        (λ s. v)
  run_command-Quiet (send_to_tag tag) d v = elim (Option-cases (active_output d.state)) [
    | inl e ↦ rw (e, run_command) v
    | inr (o, e) ↦
        rw (e, run_command)
          (IfDone-bind (send_focused_to_tag d.state o tag) _ (Quiet before) (λ s. v))
  ]
  run_command-Quiet (focus_output name) d v =
      elim (Option-cases (find_output_by_name d.state name)) [
        | inl e ↦ rw (e, run_command) v
        | inr (i, e) ↦ rw (e, run_command) v
      ]
  run_command-Quiet (focus_window app_id title) d v =
      IfDone-bind (focus_matching d.state app_id title) _ (Quiet before) (λ s. v)
  run_command-Quiet (spawn_command command) d v =
      if-Quiet before d.config.allow_spawn _ d
        (send-Quiet before (spawn command ∷ []) d (refl, tt) v) v
  run_command-Quiet quit d v = v
  run_command-Quiet refresh d v = v

  pub apply_command-Quiet :
      (d : AppData) (c : Command) → Quiet before d → IfDone (apply_command d c) (Quiet before)
  unfolding apply_command
  apply_command-Quiet d c v =
      IfDone-then (run_command c d) _ (Quiet before) (Quiet before) (run_command-Quiet c d v)
        (λ d' v'. request_manage-Quiet before d' v')

  pub flush_pending-Quiet : (d : AppData) → Quiet before d → Quiet before (flush_pending d)
  unfolding flush_pending
  flush_pending-Quiet d v =
      if-Quiet before d.state.pending_apply _ d (request_manage-Quiet before _ v) v
