-- ===== src/Bindings/Action.antt =====
-- src/bindings.rs: `run_action`, the effect of a key binding: the action's text is read into an
-- `Action`, one constructor for each arm of its match, and `perform` is the arms.
pub mod Text
use Prim.Native.String.{String}
use streamwm.Base.{
  ◌>>=◌, ℕ, ◌+◌, ◌-◌, ◌%◌, Bool, true, false, Option, none, some, List, [], ◌∷◌, ◌++◌, map,
  if◌then◌else◌, ◌==◌, ltb, not, and_then, get_or_else, is_some_and, length, get_elem?, retain,
  position, modify, Outcome, done, index,
}
use streamwm.Protocol.{spawn}
use streamwm.App.{AppData, with_state, send, request_manage}
use streamwm.State.{
  State, Window, Output, find_window, update_window, active_output, tag_owner, toggle_resize_mode,
}
use streamwm.State.Focus.{on_active, focus_tag, send_focused_to_tag, clear_fullscreen_on_tag}
use streamwm.State.Fraction.{master_fraction, set_master_fraction}
use streamwm.Wm.Layout.{geometry_of}
use streamwm.Bindings.Pointer.{take_geometry}
use Text.{
  Action, spawn_terminal, spawn_launcher, spawn_command, close, focus_next, focus_prev,
  focus_tag_action, send_to_tag, fullscreen, float, focus_next_output, focus_prev_output,
  cycle_layout, enter_resize_mode, exit_resize_mode, resize_step_left, resize_step_right, quit,
  nothing, parse_action,
}

-- The window that the focused output has in focus.
unfoldable pub focused_window : State → Outcome (Option ℕ)
unfolding active_output
focused_window s = elim (active_output s) [
  | none ↦ done none
  | some o ↦ do out ← index s.outputs o; done out.focused_window
]

-- What an action does with the active output's index, if there is one.
unfoldable pub on_active_output : AppData → (ℕ → Outcome AppData) → Outcome AppData
on_active_output d f = elim (active_output d.state) [ none ↦ done d | some o ↦ f o ]

unfoldable pub queue_close : AppData → Option ℕ → AppData
queue_close d none = d
queue_close d (some fid) = request_manage (record d { pending_close = d.pending_close ++ fid ∷ [] })

unfoldable pub close_focused : AppData → Outcome AppData
close_focused d = do focus ← focused_window d.state; done (queue_close d focus)

-- The position after `idx`, or before it, in a cycle of `n`.
unfoldable pub cycle : Bool → ℕ → ℕ → ℕ
cycle true idx n = (idx + 1) % n
cycle false idx n = (idx + n - 1) % n

-- The window to focus next (`true`) or before, among the ids on the active tag.
unfoldable pub next_focus : Bool → List ℕ → Option ℕ → Option ℕ
unfolding cycle
next_focus forward ids current = get_elem? ids (
    cycle forward (get_or_else (and_then current (λ f. position (λ i. i == f) ids)) 0) (length ids))

unfoldable pub active_ids : State → ℕ → Output → List ℕ
unfolding on_active
active_ids s idx o = map (λ w. w.id) (retain (on_active s idx o) s.windows)

unfoldable pub focus_among : List ℕ → Bool → AppData → ℕ → Option ℕ → AppData
unfolding next_focus
focus_among [] forward d idx current = d
focus_among (id ∷ ids) forward d idx current =
    let s = d.state in
    let focus = next_focus forward (id ∷ ids) current in
    request_manage (
      with_state d
        (record s { outputs = modify s.outputs idx (λ x. record x { focused_window = focus }) }))

unfoldable pub focus_step_on : Bool → AppData → ℕ → Output → AppData
unfolding active_ids focus_among
focus_step_on forward d idx o =
    focus_among (active_ids d.state idx o) forward d idx o.focused_window

unfoldable pub focus_step : Bool → AppData → Outcome AppData
focus_step forward d =
    on_active_output d λ idx. do o ← index d.state.outputs idx; done (focus_step_on forward d idx o)

-- The output to warp the pointer to: the tag's owner, if it is not this output.
unfoldable pub warp_target : State → ℕ → Option ℕ
unfolding active_output tag_owner
warp_target s tag =
    and_then (active_output s)
      λ o. and_then (tag_owner s tag) (λ owner. if owner == o then none else some owner)

unfoldable pub go_to_tag : AppData → ℕ → Outcome AppData
go_to_tag d tag =
    let warped = record d { pending_pointer_warp = warp_target d.state tag } in
    on_active_output warped
      λ o. do s ← focus_tag d.state o tag; done (request_manage (with_state warped s))

unfoldable pub move_to_tag : AppData → ℕ → Outcome AppData
move_to_tag d tag =
    on_active_output d
      λ o. do s ← send_focused_to_tag d.state o tag; done (request_manage (with_state d s))

-- A change of the window in focus, if there is one: nothing else happens without it.
unfoldable pub change_focused : AppData → (Window → Window) → Option ℕ → AppData
change_focused d f none = d
change_focused d f (some fid) = elim (find_window d.state fid) [
  | none ↦ d
  | some w ↦ request_manage (with_state d (update_window d.state fid f))
]

unfoldable pub toggle_fullscreen : AppData → Outcome AppData
toggle_fullscreen d = do
  focus ← focused_window d.state
  done (change_focused d (λ w. record w { fullscreen = not w.fullscreen }) focus)

unfoldable pub float_window : AppData → ℕ → State
float_window d fid =
    if is_some_and (find_window d.state fid) (λ w. not w.floating)
    then update_window d.state fid (λ w.
      record (take_geometry (geometry_of d.floats d.state d.config fid) w) { floating = true })
    else update_window d.state fid (λ w. record w { floating = false })

unfoldable pub float_focused : AppData → Option ℕ → AppData
float_focused d none = d
float_focused d (some fid) = request_manage (with_state d (float_window d fid))

unfoldable pub toggle_float : AppData → Outcome AppData
toggle_float d = do focus ← focused_window d.state; done (float_focused d focus)

unfoldable pub focus_output_step : Bool → AppData → AppData
unfolding cycle
focus_output_step forward d =
    let n = length d.state.outputs in
    if ltb 1 n
    then (let next = cycle forward (get_or_else d.state.focused_output 0) n in
        request_manage (record d {
          state = record d.state { focused_output = some next };
          pending_pointer_warp = some next;
        }))
    else d

unfoldable pub resize_active : Bool → AppData → Outcome AppData
resize_active right d = on_active_output d λ idx. do
  o ← index d.state.outputs idx
  let step = d.config.resize_step
  let delta = if right then step else d.floats.neg step
  let s = d.state
  let wider =
      set_master_fraction d.floats s o.active_tag
        (d.floats.add (master_fraction s o.active_tag) delta)
  done (with_state d (clear_fullscreen_on_tag wider o.active_tag))

unfoldable pub resize_step : Bool → AppData → Outcome AppData
resize_step right d =
    if d.state.resize_mode
    then (do d' ← resize_active right d; done (request_manage d'))
    else done (request_manage d)

unfoldable pub perform : Action → AppData → Outcome AppData
unfolding toggle_resize_mode
perform spawn_terminal d = done (send (spawn d.config.terminal ∷ []) d)
perform spawn_launcher d = done (send (spawn d.config.launcher ∷ []) d)
perform (spawn_command (some command)) d = done (send (spawn command ∷ []) d)
perform (spawn_command none) d = done d
perform close d = close_focused d
perform focus_next d = focus_step true d
perform focus_prev d = focus_step false d
perform (focus_tag_action (some tag)) d = go_to_tag d tag
perform (focus_tag_action none) d = done d
perform (send_to_tag (some tag)) d = move_to_tag d tag
perform (send_to_tag none) d = done d
perform fullscreen d = toggle_fullscreen d
perform float d = toggle_float d
perform focus_next_output d = done (focus_output_step true d)
perform focus_prev_output d = done (focus_output_step false d)
perform cycle_layout d = done d
perform enter_resize_mode d = done (request_manage (with_state d (toggle_resize_mode d.state).0))
perform exit_resize_mode d =
    done (request_manage (with_state d (record d.state { resize_mode = false })))
perform resize_step_left d = resize_step false d
perform resize_step_right d = resize_step true d
perform quit d = done (record d { quit = true })
perform nothing d = done d

unfoldable pub run_action : AppData → String → Outcome AppData
run_action d action = perform (parse_action action) d
