-- ===== src/Events/Safety/Windows.antt =====
-- The events of windows (src/events.rs).
use Prim.Native.String.{String}
use streamwm.Base.{
  ℕ, ◌<◌, ◌≡◌, refl, subst, sym, ap, ◌∙◌, Bool, true, false, Option, none, some, List, [], ◌∷◌, inl,
  inr, arith, length, not, is_some_and, find, map_opt, get_or_else, or_else, ◌≢◌, get_elem?-of_lt,
  Bool-cases, Option-cases, Returns, Returns-bind, All-get, All-retain, ◌==◌, ◌&&◌,
}
use streamwm.Protocol.{ObjectId}
use streamwm.Config.{is_floating_app}
use streamwm.App.{AppData, move, resize, send}
use streamwm.App.Safe.{Safe, request_manage-Safe, edit_window-Safe}
use streamwm.State.{
  State, Window, Output, Area, num_tags, find_window_by_proxy, window_output, output_area,
  active_output, first_output, tag_owner,
}
use streamwm.State.Ranges.{tag_owner-lt}
use streamwm.State.Invariant.{WellFormed, windows-WellFormed}
use streamwm.State.Focus.Safety.{mark_dirty-WellFormed}
use streamwm.State.Outputs.Clamping.{AreaFits, output_area-AreaFits}
use streamwm.Bindings.Safety.{active_output-lt}
use streamwm.Bindings.Pointer.{no_edges}
use streamwm.Bindings.Pointer.Safety.{start_interactive_op-Safe}
use streamwm.Events.OnWindow.{
  WindowEvent, pointer_move_requested, pointer_resize_requested, closed, app_id, title, dimensions,
  dimensions_hint, parent, fullscreen_requested, exit_fullscreen_requested, maximize_requested,
  unmaximize_requested, minimize_requested, other_event, close_window, shown_area, auto_float,
  change_window, name_app, set_app_id, parent_of, adopt, set_parent, known_window_event,
  window_event,
}
use streamwm.Events.Safety.Floating.{
  KeepsTag, auto_float-Returns, change_window-WellFormed, float_over-Returns, shown_area-AreaFits,
}

name_app-KeepsTag :
    (s : State) (should_float : Bool) (name : Option String)
    → WellFormed s
    → KeepsTag (name_app s should_float name)
unfolding name_app
name_app-KeepsTag s should_float name v w h = elim (Bool-cases (should_float && not w.floating)) [
  | inl on ↦ rw on (
      Returns-bind (auto_float (shown_area s w) w) _ (λ w'. w'.tag < num_tags)
        (λ w'. w'.tag < num_tags)
        (auto_float-Returns (shown_area s w) w (λ a e. shown_area-AreaFits s w a v e) h)
        (λ w' u. u))
  | inr off ↦ rw off h
]

set_app_id-Safe :
    (d : AppData) (id : ℕ) (name : Option String) → Safe d → Returns (set_app_id d id name) Safe
unfolding set_app_id
set_app_id-Safe d id name v =
    let f : Bool = is_some_and name (is_floating_app d.config) in
    Returns-bind (change_window d.state id (name_app d.state f name)) _ WellFormed Safe
      (change_window-WellFormed d.state id _ (name_app-KeepsTag d.state f name v.0) v.0)
      (λ s w. (mark_dirty-WellFormed s w, v.1))

adopt-KeepsTag : (p : Window) (area : Area) → AreaFits area → KeepsTag (adopt p area)
unfolding adopt
adopt-KeepsTag p area fits w h = elim (Bool-cases (p.floating && not w.floating)) [
  | inl on ↦ rw on (float_over-Returns _ area _ fits h)
  | inr off ↦ rw off h
]

set_parent-Safe :
    (d : AppData) (id : ℕ) (p : Option ObjectId)
    → ((r : Window × Area) → parent_of d.state p ≡ some r → AreaFits r.1)
    → Safe d
    → Returns (set_parent d id p) Safe
unfolding set_parent
set_parent-Safe d id p fits v = elim (Option-cases (parent_of d.state p)) [
  | inl e ↦ rw (e, set_parent) (mark_dirty-WellFormed d.state v.0, v.1)
  | inr (r, e) ↦
      rw (e, set_parent)
        (Returns-bind (change_window d.state id (adopt r.0 r.1)) _ WellFormed Safe
          (change_window-WellFormed d.state id _ (adopt-KeepsTag r.0 r.1 (fits r e)) v.0)
          (λ s w. (mark_dirty-WellFormed s w, v.1)))
]

no_active : (f : Option ℕ) (os : List Output) → 0 < length os → or_else f (first_output os) ≢ none
no_active none [] h e = omega arith
no_active none (o ∷ os) h e = cc
no_active (some f) os h e = cc

no_active_output : (s : State) → 0 < length s.outputs → active_output s ≢ none
unfolding active_output
no_active_output s h e = no_active s.focused_output s.outputs h e

-- With an output, every window has one that it is shown on or would be.
window_output-lt :
    (s : State) (w : Window)
    → WellFormed s
    → 0 < length s.outputs
    → (i : ℕ) × (window_output s w ≡ some i) × (i < length s.outputs)
unfolding window_output
window_output-lt s w v h = elim (Option-cases (tag_owner s w.tag)) [
  | inl unowned ↦ elim (Option-cases (active_output s)) [
    | inl e ↦ absurd (no_active_output s h e)
    | inr (o, e) ↦ (o, rw (unowned, e) refl, active_output-lt s o v e)
  ]
  | inr (i, e) ↦ (i, rw e refl, tag_owner-lt s w.tag i v.ranged e)
]

shown_area-some :
    (s : State) (w : Window)
    → WellFormed s
    → 0 < length s.outputs
    → (a : Area) × (shown_area s w ≡ some a) × AreaFits a
unfolding shown_area
shown_area-some s w v h =
    let (i, e, lt) = window_output-lt s w v h in
    let (o, f) = get_elem?-of_lt s.outputs i lt in
    (
      output_area o,
      rw (e, f) refl,
      output_area-AreaFits o (All-get _ s.outputs i o f v.ranged.shown),
    )

-- With an output, the area around a parent is that of an output.
parent_of-AreaFits :
    (s : State) (p : Option ObjectId) (r : Window × Area)
    → WellFormed s
    → 0 < length s.outputs
    → parent_of s p ≡ some r
    → AreaFits r.1
unfolding parent_of
parent_of-AreaFits s none r v h e = cc
parent_of-AreaFits s (some p) r v h e = go (find (λ w. w.proxy == p) s.windows) e
  where
    go :
        (found : Option Window)
        → map_opt
            (λ w. (
              w,
              get_or_else
                  (shown_area s w)
                  (record { x = w.float_x; y = w.float_y; width = w.float_w; height = w.float_h }),
            ))
            found
          ≡ some r
        → AreaFits r.1
    go none e = cc
    go (some w) e =
        let (a, shown, fits) = shown_area-some s w v h in
        let box : Area = record {
          x = w.float_x;
          y = w.float_y;
          width = w.float_w;
          height = w.float_h;
        } in
        let same : a ≡ r.1 =
          sym (ap (λ x. get_or_else x box) shown)
          ∙ ap (λ x. get_or_else (map_opt (λ q. q.1) x) a) e in
        subst AreaFits same fits

close_window-Safe :
    (d : AppData) (proxy : ObjectId) (id : ℕ) → Safe d → Safe (close_window d proxy id)
unfolding close_window send
close_window-Safe d proxy id v =
    (windows-WellFormed d.state _ (All-retain _ _ d.state.windows v.0.ranged.placed) v.0, v.1)

-- There is an output when a window is given a parent.
abbrev pub WindowFits : State → WindowEvent → Type 0
WindowFits s (parent p) = 0 < length s.outputs
WindowFits s e = Unit

known_window_event-Safe :
    (d : AppData) (proxy : ObjectId) (id : ℕ) (e : WindowEvent)
    → WindowFits d.state e
    → Safe d
    → Returns (known_window_event d proxy id e) Safe
unfolding known_window_event
known_window_event-Safe d proxy id (pointer_move_requested seat) h v =
    start_interactive_op-Safe d id seat move no_edges v
known_window_event-Safe d proxy id (pointer_resize_requested seat edges) h v =
    start_interactive_op-Safe d id seat resize (get_or_else edges no_edges) v
known_window_event-Safe d proxy id closed h v = close_window-Safe d proxy id v
known_window_event-Safe d proxy id (app_id name) h v = set_app_id-Safe d id name v
known_window_event-Safe d proxy id (title t) h v = edit_window-Safe d id _ (λ _ k. k) v
known_window_event-Safe d proxy id (dimensions width height) h v =
    edit_window-Safe d id _ (λ _ k. k) v
known_window_event-Safe d proxy id (dimensions_hint a b c e) h v =
    edit_window-Safe d id _ (λ _ k. k) v
known_window_event-Safe d proxy id (parent p) h v =
    set_parent-Safe d id p (λ r e. parent_of-AreaFits d.state p r v.0 h e) v
known_window_event-Safe d proxy id fullscreen_requested h v =
    request_manage-Safe _ (edit_window-Safe d id (λ w. record w { fullscreen = true }) (λ _ k. k) v)
known_window_event-Safe d proxy id exit_fullscreen_requested h v =
    request_manage-Safe _
      (edit_window-Safe d id (λ w. record w { fullscreen = false }) (λ _ k. k) v)
known_window_event-Safe d proxy id maximize_requested h v = v
known_window_event-Safe d proxy id unmaximize_requested h v = v
known_window_event-Safe d proxy id minimize_requested h v =
    request_manage-Safe _ (edit_window-Safe d id (λ w. record w { minimized = true }) (λ _ k. k) v)
known_window_event-Safe d proxy id other_event h v = v

-- Every event of a window, known or not, returns on data with a well-formed state and a queue
-- handle, and leaves such data, where a window is given a parent only while there is an output.
pub window_event-Safe :
    (d : AppData) (proxy : ObjectId) (e : WindowEvent)
    → WindowFits d.state e
    → Safe d
    → Returns (window_event d proxy e) Safe
unfolding window_event
window_event-Safe d proxy e h v = elim (Option-cases (find_window_by_proxy d.state proxy)) [
  | inl missing ↦ rw (missing, window_event) v
  | inr (id, found) ↦ rw (found, window_event) (known_window_event-Safe d proxy id e h v)
]
