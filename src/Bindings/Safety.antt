-- ===== src/Bindings/Safety.antt =====
-- Every action and every pointer operation of src/bindings.rs returns on safe data, and keeps it
-- safe.
use Prim.Native.String.{String}
use streamwm.Base.{
  ℕ, ◌<◌, ◌≡◌, refl, sym, subst, ap, ◌∙◌, Bool, true, false, Option, none, some, List, [], ◌∷◌, inl,
  inr, arith, length, ltb, if◌then◌else◌, Bool-cases, Option-cases, Outcome, done, ◌>>=◌, Returns,
  Returns-bind, index-of_lt, length-modify, All-modify, get_or_else, is_some_and, not,
}
use streamwm.Protocol.{FloatOps}
use streamwm.App.{AppData, request_manage}
use streamwm.App.Safe.{Safe, send-Safe, request_manage-Safe, managed-Safe, edit_window-Safe}
use streamwm.State.{State, Window, Output, find_window, active_output, num_tags}
use streamwm.State.Invariant.{
  WellFormed, update_window-WellFormed, modify_output-WellFormed, focus-WellFormed,
}
use streamwm.State.Owners.{shown, SettledIn-modify}
use streamwm.State.Focus.{focus_tag, send_focused_to_tag}
use streamwm.State.Focus.Safety.{
  focus_tag-WellFormed, send_focused_to_tag-WellFormed, clear_fullscreen_on_tag-WellFormed,
}
use streamwm.State.Fraction.{set_master_fraction}
use streamwm.Wm.Layout.{Geometry, geometry_of}
use streamwm.Bindings.Pointer.{take_geometry}
use streamwm.Bindings.Action.{
  on_active_output, queue_close, focus_among, float_focused, focused_window, close_focused,
  focus_step_on, focus_step, go_to_tag, move_to_tag, change_focused, toggle_fullscreen,
  float_window, toggle_float, focus_output_step, resize_active, resize_step, perform, run_action,
  cycle,
}
use streamwm.Bindings.Action.Text.{
  Action, spawn_terminal, spawn_launcher, spawn_command, close, focus_next, focus_prev,
  focus_tag_action, send_to_tag, fullscreen, float, focus_next_output, focus_prev_output,
  cycle_layout, enter_resize_mode, exit_resize_mode, resize_step_left, resize_step_right, quit,
  nothing, parse_action,
}

-- The active output is in range.
pub active_output-lt :
    (s : State) (o : ℕ) → WellFormed s → active_output s ≡ some o → o < length s.outputs
unfolding active_output
active_output-lt s o v e = go s.focused_output s.outputs refl refl
  where
    go :
        (f : Option ℕ) (os : List Output)
        → s.focused_output ≡ f
        → s.outputs ≡ os
        → o < length s.outputs
    go (some f) os ef eo =
        let same : f ≡ o = ground arith in
        subst (λ i. i < length s.outputs) same (rw ef at v.ranged.focus)
    go none [] ef eo = ground arith
    go none (x ∷ xs) ef eo = let zero_is : 0 ≡ o = ground arith in omega (arith, ap length eo)

-- Reading the focus of the active output does not panic.
pub focused_window-Returns : (s : State) → WellFormed s → Returns (focused_window s) (λ _. Unit)
unfolding focused_window
focused_window-Returns s v = elim (Option-cases (active_output s)) [
  | inl e ↦ rw (e, focused_window) tt
  | inr (o, e) ↦
      let (out, _, found) = index-of_lt s.outputs o (active_output-lt s o v e) in
      rw (e, focused_window, found) tt
]

on_active_output-Safe :
    (d : AppData) (f : ℕ → Outcome AppData)
    → Safe d
    → ((o : ℕ) → o < length d.state.outputs → Returns (f o) Safe)
    → Returns (on_active_output d f) Safe
unfolding on_active_output
on_active_output-Safe d f v k = elim (Option-cases (active_output d.state)) [
  | inl e ↦ rw (e, on_active_output) v
  | inr (o, e) ↦ rw (e, on_active_output) (k o (active_output-lt d.state o v.0 e))
]

-- An action on the window in focus, whichever it is.
on_focused-Safe :
    (d : AppData) (f : Option ℕ → AppData)
    → Safe d
    → ((focus : Option ℕ) → Safe (f focus))
    → Returns (focused_window d.state >>= λ focus. done (f focus)) Safe
on_focused-Safe d f v k =
    Returns-bind (focused_window d.state) _ (λ _. Unit) Safe (focused_window-Returns d.state v.0)
      (λ focus _. k focus)

queue_close-Safe : (d : AppData) → Safe d → (focus : Option ℕ) → Safe (queue_close d focus)
unfolding queue_close
queue_close-Safe d v none = v
queue_close-Safe d v (some fid) = request_manage-Safe _ v

focus_among-Safe :
    (ids : List ℕ) (forward : Bool) (d : AppData) (idx : ℕ) (current : Option ℕ)
    → Safe d
    → Safe (focus_among ids forward d idx current)
unfolding focus_among
focus_among-Safe [] forward d idx current v = v
focus_among-Safe (id ∷ ids) forward d idx current v =
    request_manage-Safe _ (modify_output-WellFormed d.state idx _ (λ _ k. k) (λ _. refl) v.0, v.1)

change_focused-Safe :
    (d : AppData) (f : Window → Window)
    → ((w : Window) → w.tag < num_tags → (f w).tag < num_tags)
    → Safe d
    → (focus : Option ℕ) → Safe (change_focused d f focus)
unfolding change_focused
change_focused-Safe d f k v none = v
change_focused-Safe d f k v (some fid) = elim (Option-cases (find_window d.state fid)) [
  | inl e ↦ rw (e, change_focused) v
  | inr (w, e) ↦ rw (e, change_focused) (request_manage-Safe _ (edit_window-Safe d fid f k v))
]

pub take_geometry-tag : (g : Option Geometry) (w : Window) → (take_geometry g w).tag ≡ w.tag
unfolding take_geometry
take_geometry-tag none w = refl
take_geometry-tag (some g) w = refl

float_window-WellFormed : (d : AppData) (fid : ℕ) → Safe d → WellFormed (float_window d fid)
unfolding float_window
float_window-WellFormed d fid v =
    let g = geometry_of d.floats d.state d.config fid in
    elim (Bool-cases (is_some_and (find_window d.state fid) (λ w. not w.floating))) [
      | inl on ↦
          rw on (update_window-WellFormed d.state fid _ (λ w k. rw (take_geometry-tag g w) k) v.0)
      | inr off ↦ rw off (update_window-WellFormed d.state fid _ (λ w k. k) v.0)
    ]

float_focused-Safe : (d : AppData) → Safe d → (focus : Option ℕ) → Safe (float_focused d focus)
unfolding float_focused
float_focused-Safe d v none = v
float_focused-Safe d v (some fid) = request_manage-Safe _ (float_window-WellFormed d fid v, v.1)

cycle-lt : (forward : Bool) (idx n : ℕ) → 0 < n → cycle forward idx n < n
unfolding cycle
cycle-lt true idx n h = omega arith
cycle-lt false idx n h = omega arith

focus_output_step-Safe :
    (forward : Bool) (d : AppData) → Safe d → Safe (focus_output_step forward d)
unfolding focus_output_step
focus_output_step-Safe forward d v =
    let n = length d.state.outputs in
    let next = cycle forward (get_or_else d.state.focused_output 0) n in
    elim (Bool-cases (ltb 1 n)) [
      | inl many ↦ rw many (
          request_manage-Safe _
            (focus-WellFormed d.state (some next) (cycle-lt forward _ n (ground arith)) v.0, v.1))
      | inr few ↦ rw few v
    ]

set_master_fraction-WellFormed :
    (F : FloatOps) (s : State) (tag fraction : ℕ)
    → WellFormed s
    → WellFormed (set_master_fraction F s tag fraction)
unfolding set_master_fraction
set_master_fraction-WellFormed F s tag fraction v = record {
  ranged = record {
    tag_count = length-modify s.tags tag _ ∙ v.ranged.tag_count;
    owned = All-modify _ s.tags tag _ (λ _ k. k) v.ranged.owned;
    focus = v.ranged.focus;
    shown = v.ranged.shown;
    placed = v.ranged.placed;
  };
  settled = λ j. SettledIn-modify s.tags tag _ j (shown s j) (λ _. refl) (v.settled j);
}

resize_active-Safe : (right : Bool) (d : AppData) → Safe d → Returns (resize_active right d) Safe
unfolding resize_active
resize_active-Safe right d v = on_active_output-Safe d _ v λ idx lt.
    let (o, _, e) = index-of_lt d.state.outputs idx lt in
    rw e (
      clear_fullscreen_on_tag-WellFormed _ o.active_tag
          (set_master_fraction-WellFormed d.floats d.state o.active_tag _ v.0),
      v.1,
    )

resize_step-Safe : (right : Bool) (d : AppData) → Safe d → Returns (resize_step right d) Safe
unfolding resize_step
resize_step-Safe right d v = elim (Bool-cases d.state.resize_mode) [
  | inl on ↦
      subst
        (λ b.
          Returns
            (if b
              then (resize_active right d >>= λ d'. done (request_manage d'))
              else done (request_manage d))
            Safe)
        (sym on)
        (Returns-bind (resize_active right d) _ Safe Safe (resize_active-Safe right d v)
          request_manage-Safe)
  | inr off ↦
      subst
        (λ b.
          Returns
            (if b
              then (resize_active right d >>= λ d'. done (request_manage d'))
              else done (request_manage d))
            Safe)
        (sym off) (request_manage-Safe d v)
]

focus_step-Safe : (forward : Bool) (d : AppData) → Safe d → Returns (focus_step forward d) Safe
unfolding focus_step focus_step_on
focus_step-Safe forward d v = on_active_output-Safe d _ v λ idx lt.
    let (o, _, e) = index-of_lt d.state.outputs idx lt in
    rw e (focus_among-Safe _ forward d idx o.focused_window v)

-- Every action returns and keeps the data safe.
pub perform-Safe : (a : Action) (d : AppData) → Safe d → Returns (perform a d) Safe
unfolding perform close_focused go_to_tag move_to_tag toggle_fullscreen toggle_float
perform-Safe spawn_terminal d v = send-Safe _ d v
perform-Safe spawn_launcher d v = send-Safe _ d v
perform-Safe (spawn_command (some command)) d v = send-Safe _ d v
perform-Safe (spawn_command none) d v = v
perform-Safe close d v = on_focused-Safe d (queue_close d) v (queue_close-Safe d v)
perform-Safe focus_next d v = focus_step-Safe true d v
perform-Safe focus_prev d v = focus_step-Safe false d v
perform-Safe (focus_tag_action (some tag)) d v =
    on_active_output-Safe _ _ v
      λ o _. managed-Safe _ (focus_tag d.state o tag) (focus_tag-WellFormed d.state o tag v.0) v
perform-Safe (focus_tag_action none) d v = v
perform-Safe (send_to_tag (some tag)) d v = on_active_output-Safe d _ v λ o _.
    managed-Safe d (send_focused_to_tag d.state o tag)
      (send_focused_to_tag-WellFormed d.state o tag v.0) v
perform-Safe (send_to_tag none) d v = v
perform-Safe fullscreen d v =
    on_focused-Safe d (change_focused d _) v (change_focused-Safe d _ (λ _ k. k) v)
perform-Safe float d v = on_focused-Safe d (float_focused d) v (float_focused-Safe d v)
perform-Safe focus_next_output d v = focus_output_step-Safe true d v
perform-Safe focus_prev_output d v = focus_output_step-Safe false d v
perform-Safe cycle_layout d v = v
perform-Safe enter_resize_mode d v = request_manage-Safe _ (ground arith)
perform-Safe exit_resize_mode d v = request_manage-Safe _ (ground arith)
perform-Safe resize_step_left d v = resize_step-Safe false d v
perform-Safe resize_step_right d v = resize_step-Safe true d v
perform-Safe quit d v = v
perform-Safe nothing d v = v

-- Whatever the action of a key binding is, running it on data with a well-formed state and a
-- queue handle returns, without a panic, and leaves such data.
pub run_action-Safe : (d : AppData) (action : String) → Safe d → Returns (run_action d action) Safe
unfolding run_action
run_action-Safe d action v = perform-Safe (parse_action action) d v
