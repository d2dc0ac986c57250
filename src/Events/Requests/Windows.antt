-- ===== src/Events/Requests/Windows.antt =====
-- The requests of the events of windows (src/events.rs).
use Prim.Native.String.{String}
use streamwm.Base.{
  refl, ℕ, Option, none, some, List, [], ◌∷◌, inl, inr, All-append, Option-cases, IfDone,
  IfDone-bind, get_or_else,
}
use streamwm.Protocol.{ObjectId, Request, destroy}
use streamwm.Protocol.Sequence.{idle}
use streamwm.App.{AppData, move, resize}
use streamwm.App.Requests.{Within, Quiet, send-Quiet, request_manage-Quiet}
use streamwm.State.{Window, find_window, find_window_by_proxy}
use streamwm.Bindings.Pointer.{no_edges}
use streamwm.Bindings.Requests.{start_interactive_op-Quiet}
use streamwm.Events.OnWindow.{
  WindowEvent, pointer_move_requested, pointer_resize_requested, closed, app_id, title,
  dimensions_hint, parent, fullscreen_requested, exit_fullscreen_requested, maximize_requested,
  unmaximize_requested, minimize_requested, window_objects, close_window, change_window, name_app,
  set_app_id, parent_of, adopt, set_parent, known_window_event, window_event,
}

window_objects-Within : (w : Option Window) → Within idle (window_objects w)
unfolding window_objects
window_objects-Within none = tt
window_objects-Within (some w) = All-append _ _ _ (node w.node) (refl, tt)
  where
    node : (n : Option ObjectId) → Within idle (elim n [ none ↦ [] | some x ↦ destroy x ∷ [] ])
    node none = tt
    node (some x) = (refl, tt)

module _ (before : List Request) where
  set_app_id-Quiet :
      (d : AppData) (id : ℕ) (name : Option String)
      → Quiet before d
      → IfDone (set_app_id d id name) (Quiet before)
  unfolding set_app_id
  set_app_id-Quiet d id name v =
      IfDone-bind (change_window d.state id (name_app d.state _ name)) _ (Quiet before) (λ s. v)

  set_parent-Quiet :
      (d : AppData) (id : ℕ) (p : Option ObjectId)
      → Quiet before d
      → IfDone (set_parent d id p) (Quiet before)
  unfolding set_parent
  set_parent-Quiet d id p v = elim (Option-cases (parent_of d.state p)) [
    | inl e ↦ rw (e, set_parent) v
    | inr (r, e) ↦
        rw (e, set_parent)
          (IfDone-bind (change_window d.state id (adopt r.0 r.1)) _ (Quiet before) (λ s. v))
  ]

  known_window_event-Quiet :
      (d : AppData) (proxy : ObjectId) (id : ℕ) (e : WindowEvent)
      → Quiet before d
      → IfDone (known_window_event d proxy id e) (Quiet before)
  unfolding known_window_event close_window
  known_window_event-Quiet d proxy id (pointer_move_requested seat) v =
      start_interactive_op-Quiet before d id seat move no_edges v
  known_window_event-Quiet d proxy id (pointer_resize_requested seat edges) v =
      start_interactive_op-Quiet before d id seat resize (get_or_else edges no_edges) v
  known_window_event-Quiet d proxy id closed v =
      send-Quiet before _ d (window_objects-Within (find_window d.state id)) v
  known_window_event-Quiet d proxy id (app_id name) v = set_app_id-Quiet d id name v
  known_window_event-Quiet d proxy id (title t) v = v
  known_window_event-Quiet d proxy id (WindowEvent.dimensions width height) v = v
  known_window_event-Quiet d proxy id (dimensions_hint a b c e) v = v
  known_window_event-Quiet d proxy id (parent p) v = set_parent-Quiet d id p v
  known_window_event-Quiet d proxy id fullscreen_requested v = request_manage-Quiet before _ v
  known_window_event-Quiet d proxy id exit_fullscreen_requested v = request_manage-Quiet before _ v
  known_window_event-Quiet d proxy id maximize_requested v = v
  known_window_event-Quiet d proxy id unmaximize_requested v = v
  known_window_event-Quiet d proxy id minimize_requested v = request_manage-Quiet before _ v
  known_window_event-Quiet d proxy id WindowEvent.other_event v = v

  pub window_event-Quiet :
      (d : AppData) (proxy : ObjectId) (e : WindowEvent)
      → Quiet before d
      → IfDone (window_event d proxy e) (Quiet before)
  unfolding window_event
  window_event-Quiet d proxy e v = elim (Option-cases (find_window_by_proxy d.state proxy)) [
    | inl missing ↦ rw (missing, window_event) v
    | inr (id, found) ↦ rw (found, window_event) (known_window_event-Quiet d proxy id e v)
  ]
