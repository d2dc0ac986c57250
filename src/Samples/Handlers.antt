-- ===== src/Samples/Handlers.antt =====
-- The theorems on the event handlers, applied to the data of a drag.
use streamwm.Base.{ℕ, none, some, arith, Returns}
use streamwm.Base.Int.{to_u32, pos}
use streamwm.App.{new_app, AppData}
use streamwm.App.Requests.{Answers}
use streamwm.Protocol.Sequence.{managing}
use streamwm.Loop.Answers.{step-Answers}
use streamwm.App.Safe.{Safe}
use streamwm.Connection.{wm_event, window, output, manage_start}
use streamwm.Connection.Safety.{wm_event-Safe}
use streamwm.Events.OnWindow.{window_event, parent}
use streamwm.Events.OnOutput.{output_event, dimensions}
use streamwm.Events.OnSeat.{seat_event, window_interaction}
use streamwm.Events.Safety.Windows.{window_event-Safe}
use streamwm.Events.Safety.Outputs.{output_event-Safe}
use streamwm.Events.Safety.Seats.{seat_event-Safe}
use streamwm.Status.Command.{apply_command, focus_tag_command}
use streamwm.Status.Safety.{apply_command-Safe}
use streamwm.Wm.Manage.{on_manage_start}
use streamwm.Wm.Focus.{Focused}
use streamwm.Wm.Focus.Kept.{on_manage_start-Focused}
use streamwm.Loop.{boot, on_wm, step}
use streamwm.Loop.Safety.{Reach, booted, step-Reach}
use streamwm.Samples.{config, dragging, dragging-Safe, fresh, globals, hundredths}

step-Reach_example :
    Returns
      (step (boot config hundredths fresh globals) (on_wm (output 5)))
      (λ d. Reach config hundredths fresh d × Safe d)
step-Reach_example =
    step-Reach config hundredths fresh (boot config hundredths fresh globals) (on_wm (output 5))
      (booted globals) tt

wm_event-Safe_example : Returns (wm_event dragging (window 24)) Safe
wm_event-Safe_example = wm_event-Safe dragging (window 24) dragging-Safe

window_event-Safe_example : Returns (window_event dragging 21 (parent (some 22))) Safe
unfolding new_app
window_event-Safe_example =
    window_event-Safe dragging 21 (parent (some 22)) (omega arith) dragging-Safe

output_event-Safe_example : Returns (output_event dragging 11 (dimensions (pos 800) (pos 600))) Safe
unfolding to_u32
output_event-Safe_example =
    output_event-Safe dragging 11 (dimensions (pos 800) (pos 600)) (omega arith) dragging-Safe

seat_event-Safe_example : Returns (seat_event dragging 30 (window_interaction 23)) Safe
seat_event-Safe_example = seat_event-Safe dragging 30 (window_interaction 23) dragging-Safe

apply_command-Safe_example : Returns (apply_command dragging (focus_tag_command 2 none)) Safe
apply_command-Safe_example = apply_command-Safe dragging (focus_tag_command 2 none) dragging-Safe

abbrev booting : AppData
booting = boot config hundredths fresh globals

step-Answers_example :
    Returns (step booting (on_wm manage_start)) (λ d. Answers managing booting.sent d.sent)
step-Answers_example =
    step-Answers config hundredths fresh booting (on_wm manage_start) (booted globals) tt

on_manage_start-Focused_example :
    Returns (on_manage_start dragging) (λ d. (j : ℕ) → Focused d.state j)
on_manage_start-Focused_example = on_manage_start-Focused dragging dragging-Safe
