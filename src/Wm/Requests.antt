-- ===== src/Wm/Requests.antt =====
-- The requests of a manage sequence (src/wm/mod.rs): allowed in it, and ended by `manage_finish`.
pub mod Render
pub mod Start
pub mod Finish
use streamwm.Base.{List, IfDone, IfDone-bind, IfDone-then, done, ◌>>=◌, length}
use streamwm.Protocol.{Request}
use streamwm.Protocol.Sequence.{managing}
use streamwm.App.{AppData, with_state}
use streamwm.App.Requests.{Adds, Adds-trans, Answers, Adds-Answers}
use streamwm.State.{State}
use streamwm.Bindings.Pointer.{start_queued, end_requested, process_pointer_ops}
use streamwm.Wm.Manage.{
  refocus_from, set_layer_default, route_focus, sync_windows, finish_manage, on_manage_start,
}
use streamwm.Wm.Requests.Start.{
  start_queued-Managed, end_requested-Managed, sync_windows-Managed, set_layer_default-Managed,
  route_focus-Managed,
}
use streamwm.Wm.Requests.Finish.{finish_manage-Answers}

-- The data between the refocusing of the outputs and the routing of the focus.
abbrev prepared : AppData → State → AppData
prepared d s = set_layer_default (sync_windows (with_state d s))

prepared-Managed : (d : AppData) (s : State) → Adds managing d.sent (prepared d s).sent
prepared-Managed d s =
    let synced = sync_windows (with_state d s) in
    Adds-trans managing d.sent synced.sent (set_layer_default synced).sent
      (sync_windows-Managed (with_state d s)) (set_layer_default-Managed synced)

process_pointer_ops-Managed : (d : AppData) → Adds managing d.sent (process_pointer_ops d).sent
unfolding process_pointer_ops
process_pointer_ops-Managed d =
    Adds-trans managing d.sent (start_queued d).sent (end_requested (start_queued d)).sent
      (start_queued-Managed d) (end_requested-Managed (start_queued d))

route_finish-Answers :
    (before : List Request) (d : AppData)
    → Adds managing before d.sent
    → IfDone
        (route_focus d >>= λ d'. done (finish_manage d'))
        (λ d'. Answers managing before d'.sent)
route_finish-Answers before d v =
    IfDone-then (route_focus d) (λ d'. done (finish_manage d')) (λ d'. Adds managing d.sent d'.sent)
      (λ d'. Answers managing before d'.sent) (route_focus-Managed d)
      λ d' w.
        Adds-Answers managing before d'.sent (finish_manage d').sent
          (Adds-trans managing before d.sent d'.sent v w) (finish_manage-Answers d')

-- A manage sequence, if it returns, answers `manage_start`.
pub on_manage_start-Answers :
    (d : AppData) → IfDone (on_manage_start d) (λ d'. Answers managing d.sent d'.sent)
unfolding on_manage_start
on_manage_start-Answers d =
    let started = process_pointer_ops d in
    IfDone-bind (refocus_from (length started.state.outputs) 0 started.state) _
      (λ d'. Answers managing d.sent d'.sent)
      λ s. route_finish-Answers d.sent (prepared started s) (
        Adds-trans managing d.sent started.sent (prepared started s).sent
          (process_pointer_ops-Managed d) (prepared-Managed started s))
