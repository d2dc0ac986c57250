-- ===== src/Events/Requests/Outputs.antt =====
-- The requests of the events of outputs (src/events.rs).
use Prim.Native.String.{String}
use streamwm.Base.{
  refl, ℕ, false, Option, none, some, List, [], ◌∷◌, inl, inr, ◌&&◌, same_opt, All-append,
  Option-cases, IfDone, IfDone-bind, get_elem?, position, IfDone-then,
}
use streamwm.Base.Int.{ℤ}
use streamwm.Protocol.{ObjectId, Request, destroy, release}
use streamwm.Protocol.Sequence.{idle}
use streamwm.App.{AppData, with_state}
use streamwm.App.Requests.{Within, Quiet, send-Quiet, request_manage-Quiet, if-Quiet}
use streamwm.State.{State, Output}
use streamwm.State.Outputs.{
  repair_outputs, remove_output, retire, remove_found, normalize_outputs, drop_output,
  clamp_floating_windows,
}
use streamwm.Events.OnOutput.{
  OutputEvent, position_event, dimensions, wl_output, removed, edit_output, moved_output,
  bind_wl_output, removed_output, output_event_at, output_event, layer_output_event, wl_output_name,
}

retire-Within : (o : Output) → Within idle (retire o)
unfolding retire
retire-Within o = All-append _ _ _ (layer o.layer) (All-append _ _ _ (wl o.wl_output) (refl, tt))
  where
    layer : (l : Option ObjectId) → Within idle (elim l [ none ↦ [] | some x ↦ destroy x ∷ [] ])
    layer none = tt
    layer (some x) = (refl, tt)

    wl : (l : Option ObjectId) → Within idle (elim l [ none ↦ [] | some x ↦ release x ∷ [] ])
    wl none = tt
    wl (some x) = (refl, tt)

remove_found-Within :
    (found : Option Output) (s : State) (idx : ℕ)
    → IfDone (remove_found found s idx) (λ r. Within idle r.1)
unfolding remove_found
remove_found-Within none s idx = tt
remove_found-Within (some o) s idx =
    IfDone-bind (normalize_outputs (drop_output s idx)) _ (λ r. Within idle r.1)
      λ s'.
        IfDone-bind (clamp_floating_windows s') _ (λ r. Within idle r.1) (λ s''. retire-Within o)

module _ (before : List Request) where
  moved_output-Quiet :
      (d : AppData) (idx : ℕ) (f : Output → Output)
      → Quiet before d
      → IfDone (moved_output d idx f) (Quiet before)
  unfolding moved_output
  moved_output-Quiet d idx f v =
      IfDone-bind (repair_outputs (edit_output d.state idx f)) _ (Quiet before)
        (λ s. request_manage-Quiet before (with_state d s) v)

  bind_wl_output-Quiet :
      (d : AppData) (found : Option ℕ) (name : ℕ)
      → Quiet before d
      → Quiet before (bind_wl_output d found name)
  unfolding bind_wl_output
  bind_wl_output-Quiet d none name v =
      if-Quiet before (d.registry && d.qh) _ d (send-Quiet before _ d (refl, tt) v) v
  bind_wl_output-Quiet d (some idx) name v =
      if-Quiet before (d.registry && d.qh) _ d (send-Quiet before _ d (refl, tt) v) v

  removed_output-Quiet :
      (d : AppData) (idx : ℕ) → Quiet before d → IfDone (removed_output d idx) (Quiet before)
  unfolding removed_output remove_output
  removed_output-Quiet d idx v =
      IfDone-then (remove_output d.state idx) _ (λ r. Within idle r.1) (Quiet before)
        (remove_found-Within (get_elem? d.state.outputs idx) d.state idx)
        λ r h.
          request_manage-Quiet before _
            (send-Quiet before r.1 (record d { state = r.0; layer_default_set = false }) h v)

  output_event_at-Quiet :
      (d : AppData) (found : Option ℕ) (e : OutputEvent)
      → Quiet before d
      → IfDone (output_event_at d found e) (Quiet before)
  unfolding output_event_at
  output_event_at-Quiet d none (wl_output name) v = bind_wl_output-Quiet d none name v
  output_event_at-Quiet d (some idx) (wl_output name) v = bind_wl_output-Quiet d (some idx) name v
  output_event_at-Quiet d none (position_event x y) v = v
  output_event_at-Quiet d none (dimensions width height) v = v
  output_event_at-Quiet d none removed v = v
  output_event_at-Quiet d (some idx) (position_event x y) v = moved_output-Quiet d idx _ v
  output_event_at-Quiet d (some idx) (dimensions width height) v = moved_output-Quiet d idx _ v
  output_event_at-Quiet d (some idx) removed v = removed_output-Quiet d idx v

  pub output_event-Quiet :
      (d : AppData) (proxy : ObjectId) (e : OutputEvent)
      → Quiet before d
      → IfDone (output_event d proxy e) (Quiet before)
  unfolding output_event
  output_event-Quiet d proxy e v = output_event_at-Quiet d _ e v

  pub layer_output_event-Quiet :
      (d : AppData) (layer : ObjectId) (x y width height : ℤ)
      → Quiet before d
      → IfDone (layer_output_event d layer x y width height) (Quiet before)
  unfolding layer_output_event
  layer_output_event-Quiet d layer x y width height v =
      elim (Option-cases (position (λ o. same_opt o.layer (some layer)) d.state.outputs)) [
        | inl e ↦ rw (e, layer_output_event) v
        | inr (idx, e) ↦ rw (e, layer_output_event) (moved_output-Quiet d idx _ v)
      ]

  pub wl_output_name-Quiet :
      (d : AppData) (global : ℕ) (name : String)
      → Quiet before d
      → Quiet before (wl_output_name d global name)
  unfolding wl_output_name
  wl_output_name-Quiet d global name v =
      elim (Option-cases (position (λ o. same_opt o.wl_global (some global)) d.state.outputs)) [
        | inl e ↦ rw (e, wl_output_name) v
        | inr (idx, e) ↦ rw (e, wl_output_name) v
      ]
