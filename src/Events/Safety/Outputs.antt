-- ===== src/Events/Safety/Outputs.antt =====
-- The events of outputs (src/events.rs).
use Prim.Native.String.{String}
use streamwm.Base.{
  ℕ, ◌≡◌, refl, Option, none, some, inl, inr, get_elem?, position, Option-cases, Returns,
  Returns-bind, get_elem?-of_lt, same_opt, ◌==◌,
}
use streamwm.Base.Int.{ℤ, to_u32, clip_u32}
use streamwm.Protocol.{ObjectId}
use streamwm.App.{AppData, with_state, send}
use streamwm.App.Safe.{Safe, either-Safe, request_manage-Safe}
use streamwm.State.{State, Output}
use streamwm.State.Ranges.{Ranged, modify_output-Ranged, OutputFits, Coordinate, Extent}
use streamwm.State.Invariant.{modify_output-WellFormed}
use streamwm.State.Outputs.{repair_outputs, remove_output, retire}
use streamwm.State.Outputs.Removal.{IsRepaired, repair_outputs-IsRepaired, remove_output-IsRepaired}
use streamwm.State.Outputs.Ranges.{position-lt}
use streamwm.Events.OnOutput.{
  OutputEvent, position_event, dimensions, wl_output, removed, edit_output, moved_output,
  bind_wl_output, removed_output, output_event_at, output_event, layer_output_event, wl_output_name,
}

-- The event keeps an output in range.
abbrev pub EventFits : OutputEvent → Type 0
EventFits (position_event x y) = Coordinate x × Coordinate y
EventFits (dimensions width height) = Extent (to_u32 width) × Extent (to_u32 height)
EventFits (wl_output name) = Unit
EventFits removed = Unit

edit_output-Safe :
    (d : AppData) (idx : ℕ) (f : Output → Output)
    → ((o : Output) → OutputFits o → OutputFits (f o))
    → ((o : Output) → (f o).active_tag ≡ o.active_tag)
    → Safe d
    → Safe (with_state d (edit_output d.state idx f))
unfolding edit_output
edit_output-Safe d idx f k same v = (modify_output-WellFormed d.state idx f k same v.0, v.1)

edit_output-Ranged :
    (s : State) (idx : ℕ) (f : Output → Output)
    → ((o : Output) → OutputFits o → OutputFits (f o))
    → Ranged s
    → Ranged (edit_output s idx f)
unfolding edit_output
edit_output-Ranged s idx f k v = modify_output-Ranged s idx f k v

moved_output-Safe :
    (d : AppData) (idx : ℕ) (f : Output → Output)
    → ((o : Output) → OutputFits o → OutputFits (f o))
    → Safe d
    → Returns (moved_output d idx f) Safe
unfolding moved_output
moved_output-Safe d idx f k v =
    Returns-bind (repair_outputs (edit_output d.state idx f)) _ IsRepaired Safe
      (repair_outputs-IsRepaired _ (edit_output-Ranged d.state idx f k v.0.ranged))
      (λ s w. request_manage-Safe (with_state d s) (w.0, v.1))

bind_wl_output-Safe :
    (d : AppData) (found : Option ℕ) (name : ℕ) → Safe d → Safe (bind_wl_output d found name)
unfolding bind_wl_output send edit_output
bind_wl_output-Safe d none name v = either-Safe _ _ d v v
bind_wl_output-Safe d (some idx) name v =
    either-Safe _ _ d (modify_output-WellFormed d.state idx _ (λ _ k. k) (λ _. refl) v.0, v.1) v

removed_output-Safe :
    (d : AppData) (idx : ℕ) (o : Output)
    → get_elem? d.state.outputs idx ≡ some o
    → Safe d
    → Returns (removed_output d idx) Safe
unfolding removed_output send
removed_output-Safe d idx o e v =
    Returns-bind (remove_output d.state idx) _ (λ r. IsRepaired r.0 × (r.1 ≡ retire o)) Safe
      (remove_output-IsRepaired d.state idx o e v.0.ranged)
      (λ r w. request_manage-Safe _ (w.0.0, v.1))

-- Every event of an output, known or not, returns on data with a well-formed state and a queue
-- handle, and leaves such data, where a new position is within 2 ^ 30 of the origin and a new
-- size below 2 ^ 30.
pub output_event-Safe :
    (d : AppData) (proxy : ObjectId) (e : OutputEvent)
    → EventFits e
    → Safe d
    → Returns (output_event d proxy e) Safe
unfolding output_event output_event_at
output_event-Safe d proxy e fits v = go e fits
  where
    idx : Option ℕ
    idx = position (λ o. o.proxy == proxy) d.state.outputs

    go : (e : OutputEvent) → EventFits e → Returns (output_event_at d idx e) Safe
    go (wl_output name) fits = bind_wl_output-Safe d idx name v
    go (position_event x y) fits = elim (Option-cases idx) [
      | inl missing ↦ rw (missing, output_event_at) v
      | inr (i, found) ↦
          rw (found, output_event_at)
            (moved_output-Safe d i _ (λ o k. (k.0, (fits.0, fits.1, k.1.2, k.1.3), k.2)) v)
    ]
    go (dimensions width height) fits = elim (Option-cases idx) [
      | inl missing ↦ rw (missing, output_event_at) v
      | inr (i, found) ↦
          rw (found, output_event_at)
            (moved_output-Safe d i _ (λ o k. (k.0, (k.1.0, k.1.1, fits.0, fits.1), k.2)) v)
    ]
    go removed fits = elim (Option-cases idx) [
      | inl missing ↦ rw (missing, output_event_at) v
      | inr (i, found) ↦
          let (o, at) = get_elem?-of_lt d.state.outputs i (position-lt _ d.state.outputs i found) in
          rw (found, output_event_at) (removed_output-Safe d i o at v)
    ]

-- A usable area in range keeps the data safe, for a known layer output or not.
pub layer_output_event-Safe :
    (d : AppData) (layer : ObjectId) (x y width height : ℤ)
    → Coordinate x
    → Coordinate y
    → Extent (clip_u32 width)
    → Extent (clip_u32 height)
    → Safe d
    → Returns (layer_output_event d layer x y width height) Safe
unfolding layer_output_event
layer_output_event-Safe d layer x y width height fx fy fw fh v =
    elim (Option-cases (position (λ o. same_opt o.layer (some layer)) d.state.outputs)) [
      | inl missing ↦ rw (missing, layer_output_event) v
      | inr (i, found) ↦
          rw (found, layer_output_event)
            (moved_output-Safe d i _ (λ o k. (k.0, k.1, (fx, fy, fw, fh))) v)
    ]

pub wl_output_name-Safe :
    (d : AppData) (global : ℕ) (name : String) → Safe d → Safe (wl_output_name d global name)
unfolding wl_output_name
wl_output_name-Safe d global name v =
    elim (Option-cases (position (λ o. same_opt o.wl_global (some global)) d.state.outputs)) [
      | inl missing ↦ rw (missing, wl_output_name) v
      | inr (i, found) ↦
          rw (found, wl_output_name) (edit_output-Safe d i _ (λ o k. k) (λ _. refl) v)
    ]
