-- ===== src/Events/OnWindow.antt =====
-- src/events.rs: the events of `river_window_v1`.
use Prim.Native.String.{String}
use streamwm.Base.{
  ℕ, Bool, true, false, Option, none, some, List, [], ◌∷◌, ◌++◌, if◌then◌else◌, ◌==◌, not, ◌&&◌,
  and_then, map_opt, get_or_else, is_some_and, get_elem?, find, retain, Outcome, done, ◌>>=◌,
}
use streamwm.Base.Int.{ℤ, to_u32, clip_u32}
use streamwm.Protocol.{ObjectId, Edges, Request, destroy}
use streamwm.Config.{is_floating_app}
use streamwm.App.{move, resize, AppData, with_state, send, request_manage}
use streamwm.State.{
  State, Window, Area, find_window, update_window, find_window_by_proxy, window_output, output_area,
  mark_dirty,
}
use streamwm.State.Geometry.{Hints, fit_beside_parent, place_over_parent}
use streamwm.Bindings.Pointer.{no_edges, start_interactive_op}

pub data WindowEvent : Type 0 where
  pointer_move_requested : ObjectId → WindowEvent
  -- the edges are absent if the event carried bits that are no edge
  pointer_resize_requested : ObjectId → Option Edges → WindowEvent
  closed : WindowEvent
  app_id title : Option String → WindowEvent
  dimensions : ℤ → ℤ → WindowEvent
  dimensions_hint : ℤ → ℤ → ℤ → ℤ → WindowEvent
  parent : Option ObjectId → WindowEvent
  fullscreen_requested exit_fullscreen_requested : WindowEvent
  maximize_requested unmaximize_requested minimize_requested other_event : WindowEvent

-- The requests that destroy the objects of a window.
unfoldable pub window_objects : Option Window → List Request
window_objects none = []
window_objects (some w) =
    elim w.node [ none ↦ [] | some n ↦ destroy n ∷ [] ] ++ destroy w.proxy ∷ []

unfoldable pub close_window : AppData → ObjectId → ℕ → AppData
unfolding window_objects find_window send
close_window d proxy id = send (window_objects (find_window d.state id)) (
    with_state d
      (record d.state { windows = retain (λ w. not (w.proxy == proxy)) d.state.windows }))

unfoldable pub hints_of : Window → Hints
hints_of w = record {
  min_w = w.min_width;
  min_h = w.min_height;
  max_w = w.max_width;
  max_h = w.max_height;
}

-- A window that starts to float over `over`, within `area`.
unfoldable pub float_over : Area → Area → Window → Outcome Window
unfolding hints_of fit_beside_parent
float_over over area w =
    let size = fit_beside_parent (over.width, over.height) (w.float_w, w.float_h) (hints_of w) in
    do
      p ← place_over_parent size.0 size.1 over area
      done (record w {
        floating = true;
        float_w = size.0;
        float_h = size.1;
        float_x = p.0;
        float_y = p.1;
      })

unfoldable pub shown_area : State → Window → Option Area
unfolding window_output output_area
shown_area s w = map_opt output_area (and_then (window_output s w) (get_elem? s.outputs))

unfoldable pub auto_float : Option Area → Window → Outcome Window
auto_float none w = done (record w { floating = true })
auto_float (some area) w = float_over area area w

-- The window with this id is changed by a step that may panic.
unfoldable pub change_window : State → ℕ → (Window → Outcome Window) → Outcome State
unfolding find_window update_window
change_window s id f = elim (find_window s id) [
  | none ↦ done s
  | some w ↦ do w' ← f w; done (update_window s id (λ _. w'))
]

unfoldable pub name_app : State → Bool → Option String → Window → Outcome Window
name_app s should_float name w = do
  w' ← (if should_float && not w.floating then auto_float (shown_area s w) w else done w)
  done (record w' { app_id = name })

unfoldable pub set_app_id : AppData → ℕ → Option String → Outcome AppData
unfolding mark_dirty
set_app_id d id name = do
  let should_float = is_some_and name (is_floating_app d.config)
  s ← change_window d.state id (name_app d.state should_float name)
  done (with_state d (mark_dirty s))

-- What the handler reads of the parent: its id, whether it floats, its box, and the area around.
unfoldable pub parent_of : State → Option ObjectId → Option (Window × Area)
unfolding shown_area
parent_of s none = none
parent_of s (some p) =
    map_opt
      (λ w. (
        w,
        get_or_else (shown_area s w)
            (record { x = w.float_x; y = w.float_y; width = w.float_w; height = w.float_h }),
      ))
      (find (λ w. w.proxy == p) s.windows)

unfoldable pub adopt : Window → Area → Window → Outcome Window
adopt p area w =
    let child = record w { parent = some p.id } in
    if p.floating && not w.floating
    then float_over (record { x = p.float_x; y = p.float_y; width = p.float_w; height = p.float_h })
        area child
    else done child

unfoldable pub set_parent : AppData → ℕ → Option ObjectId → Outcome AppData
unfolding parent_of mark_dirty
set_parent d id p = elim (parent_of d.state p) [
  | none ↦ done (with_state d (mark_dirty d.state))
  | some (w, area) ↦ do
    s ← change_window d.state id (adopt w area)
    done (with_state d (mark_dirty s))
]

abbrev edit : AppData → ℕ → (Window → Window) → AppData
edit d id f = with_state d (update_window d.state id f)

-- The event on a window that is known by this id.
unfoldable pub known_window_event : AppData → ObjectId → ℕ → WindowEvent → Outcome AppData
unfolding close_window start_interactive_op update_window request_manage
known_window_event d proxy id (pointer_move_requested seat) =
    done (start_interactive_op d id seat move no_edges)
known_window_event d proxy id (pointer_resize_requested seat edges) =
    done (start_interactive_op d id seat resize (get_or_else edges no_edges))
known_window_event d proxy id closed = done (close_window d proxy id)
known_window_event d proxy id (app_id name) = set_app_id d id name
known_window_event d proxy id (title t) = done (edit d id (λ w. record w { title = t }))
known_window_event d proxy id (dimensions width height) =
    done (edit d id (λ w. record w { width = to_u32 width; height = to_u32 height }))
known_window_event d proxy id (dimensions_hint min_w min_h max_w max_h) = done (
    edit d id (λ w. record w {
      min_width = clip_u32 min_w;
      min_height = clip_u32 min_h;
      max_width = clip_u32 max_w;
      max_height = clip_u32 max_h;
    }))
known_window_event d proxy id (parent p) = set_parent d id p
known_window_event d proxy id fullscreen_requested =
    done (request_manage (edit d id (λ w. record w { fullscreen = true })))
known_window_event d proxy id exit_fullscreen_requested =
    done (request_manage (edit d id (λ w. record w { fullscreen = false })))
known_window_event d proxy id maximize_requested = done d
known_window_event d proxy id unmaximize_requested = done d
known_window_event d proxy id minimize_requested =
    done (request_manage (edit d id (λ w. record w { minimized = true })))
known_window_event d proxy id other_event = done d

unfoldable pub window_event : AppData → ObjectId → WindowEvent → Outcome AppData
unfolding find_window_by_proxy
window_event d proxy e = elim (find_window_by_proxy d.state proxy) [
  | none ↦ done d
  | some id ↦ known_window_event d proxy id e
]
