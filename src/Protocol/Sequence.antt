-- ===== src/Protocol/Sequence.antt =====
-- The order of requests that protocols/stable/river-window-management-v1.xml asks for (its sections
-- on manage and render sequences), as an automaton on the requests: window management state is
-- changed in a manage sequence only, rendering state in a manage or a render sequence, and each
-- sequence ends with its own request.
use streamwm.Base.{
  Bool, true, false, Option, none, some, List, [], ◌∷◌, not, ◌||◌, and_then, if◌then◌else◌,
}
use streamwm.Protocol.{
  Request, manage_finish, render_finish, hide, show, close, use_ssd, use_csd, set_capabilities,
  fullscreen, exit_fullscreen, inform_fullscreen, inform_not_fullscreen, set_dimension_bounds,
  propose_dimensions, set_tiled, set_borders, set_position, place_top, focus_window, clear_focus,
  op_start_pointer, op_end, pointer_warp, enable, disable, set_default,
}

-- "This request modifies window management state", in the protocol files.
abbrev pub is_management : Request → Bool
is_management (close _) = true
is_management (use_ssd _) = true
is_management (use_csd _) = true
is_management (set_capabilities _) = true
is_management (fullscreen _ _) = true
is_management (exit_fullscreen _) = true
is_management (inform_fullscreen _) = true
is_management (inform_not_fullscreen _) = true
is_management (set_dimension_bounds _ _ _) = true
is_management (propose_dimensions _ _ _) = true
is_management (set_tiled _ _) = true
is_management (focus_window _ _) = true
is_management (clear_focus _) = true
is_management (op_start_pointer _) = true
is_management (op_end _) = true
is_management (pointer_warp _ _ _) = true
is_management (enable _) = true
is_management (disable _) = true
is_management (set_default _) = true
is_management _ = false

-- "This request modifies rendering state"
abbrev pub is_rendering : Request → Bool
is_rendering (hide _) = true
is_rendering (show _) = true
is_rendering (set_borders _ _ _ _ _ _ _) = true
is_rendering (set_position _ _ _) = true
is_rendering (place_top _) = true
is_rendering _ = false

abbrev pub is_manage_finish : Request → Bool
is_manage_finish manage_finish = true
is_manage_finish _ = false

abbrev pub is_render_finish : Request → Bool
is_render_finish render_finish = true
is_render_finish _ = false

-- The sequence that goes on, if there is one.
pub data Stage : Type 0 where
  idle managing rendering : Stage

-- The requests within a stage, which do not end it.
abbrev pub allowed : Stage → Request → Bool
allowed idle r =
    not (is_management r || (is_rendering r || (is_manage_finish r || is_render_finish r)))
allowed managing r = not (is_manage_finish r || is_render_finish r)
allowed rendering r = not (is_management r || (is_manage_finish r || is_render_finish r))

abbrev pub finishes : Stage → Request → Bool
finishes idle r = false
finishes managing r = is_manage_finish r
finishes rendering r = is_render_finish r

-- The stage behind a request, unless that is a protocol error.
abbrev pub follow : Stage → Request → Option Stage
follow p r = if finishes p r then some idle else if allowed p r then some p else none

abbrev pub follow_all : Stage → List Request → Option Stage
follow_all p [] = some p
follow_all p (r ∷ rs) = and_then (follow p r) (λ q. follow_all q rs)
