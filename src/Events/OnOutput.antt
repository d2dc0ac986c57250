-- ===== src/Events/OnOutput.antt =====
-- src/events.rs: the events of `river_output_v1`, `river_layer_shell_output_v1` and `wl_output`.
use Prim.Native.String.{String}
use streamwm.Base.{
  ℕ, false, Option, none, some, [], ◌∷◌, if◌then◌else◌, ◌==◌, ◌&&◌, same_opt, position, modify,
  Outcome, done, ◌>>=◌,
}
use streamwm.Base.Int.{ℤ, to_u32, clip_u32}
use streamwm.Protocol.{ObjectId, bind}
use streamwm.App.{AppData, with_state, send, request_manage}
use streamwm.State.{State, Output}
use streamwm.State.Outputs.{repair_outputs, remove_output}

pub data OutputEvent : Type 0 where
  position_event : ℤ → ℤ → OutputEvent
  dimensions : ℤ → ℤ → OutputEvent
  wl_output : ℕ → OutputEvent
  removed : OutputEvent

unfoldable pub edit_output : State → ℕ → (Output → Output) → State
edit_output s idx f = record s { outputs = modify s.outputs idx f }

-- A change of an output's place, and the repair and the manage sequence that it calls for.
unfoldable pub moved_output : AppData → ℕ → (Output → Output) → Outcome AppData
unfolding edit_output request_manage
moved_output d idx f = do
  s ← repair_outputs (edit_output d.state idx f)
  done (request_manage (with_state d s))

unfoldable pub bind_wl_output : AppData → Option ℕ → ℕ → AppData
unfolding send edit_output
bind_wl_output d found name =
    if d.registry && d.qh
    then (let d' = send (bind name ∷ []) d in
        elim found [
          | none ↦ d'
          | some idx ↦ with_state d' (
              edit_output d.state idx
                (λ o. record o { wl_global = some name; wl_output = some (d.object d'.sent) }))
        ])
    else d

unfoldable pub removed_output : AppData → ℕ → Outcome AppData
unfolding send request_manage
removed_output d idx = do
  r ← remove_output d.state idx
  done (request_manage (send r.1 (record d { state = r.0; layer_default_set = false })))

unfoldable pub output_event_at : AppData → Option ℕ → OutputEvent → Outcome AppData
unfolding bind_wl_output
output_event_at d found (wl_output name) = done (bind_wl_output d found name)
output_event_at d none e = done d
output_event_at d (some idx) (position_event x y) =
    moved_output d idx (λ o. record o { x = x; y = y })
output_event_at d (some idx) (dimensions width height) =
    moved_output d idx (λ o. record o { width = to_u32 width; height = to_u32 height })
output_event_at d (some idx) removed = removed_output d idx

unfoldable pub output_event : AppData → ObjectId → OutputEvent → Outcome AppData
output_event d proxy e = output_event_at d (position (λ o. o.proxy == proxy) d.state.outputs) e

-- `NonExclusiveArea` of the layer-shell object `layer`.
unfoldable pub layer_output_event : AppData → ObjectId → ℤ → ℤ → ℤ → ℤ → Outcome AppData
layer_output_event d layer x y width height =
    elim (position (λ o. same_opt o.layer (some layer)) d.state.outputs) [
      | none ↦ done d
      | some idx ↦ moved_output d idx (λ o. record o {
        usable_x = x;
        usable_y = y;
        usable_width = clip_u32 width;
        usable_height = clip_u32 height;
      })
    ]

-- `wl_output::Event::Name`, for the output bound from this global.
unfoldable pub wl_output_name : AppData → ℕ → String → AppData
unfolding edit_output
wl_output_name d global name =
    elim (position (λ o. same_opt o.wl_global (some global)) d.state.outputs) [
      | none ↦ d
      | some idx ↦ with_state d (edit_output d.state idx (λ o. record o { name = some name }))
    ]
