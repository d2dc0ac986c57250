-- ===== src/Wm/Focus/Kept.antt =====
-- What a manage sequence leaves of a window: its id and its tag, and so the focus of the outputs.
use streamwm.Base.{
  ℕ, ◌≡◌, refl, sym, ◌∙◌, subst, Bool, true, false, Option, none, some, List, [], ◌∷◌, inl, inr,
  if◌then◌else◌, not, ◌&&◌, ◌==◌, any, All, Bool-cases, Option-cases, get_elem?, done, ◌>>=◌,
  IfDone, IfDone-bind, IfDone-then, length, Returns, Returns-IfDone, IfDone-of_Returns,
}
use streamwm.Protocol.{ObjectId, Request}
use streamwm.App.{AppData, with_state, send}
use streamwm.App.Safe.{Safe}
use streamwm.State.{State, Window, Output}
use streamwm.State.Focus.{on_active}
use streamwm.State.Focus.Effects.{Chosen}
use streamwm.Bindings.Action.{focused_window}
use streamwm.Bindings.Pointer.{process_pointer_ops}
use streamwm.Wm.Manage.{
  refocus_from, drop_lost_fullscreen, send_caps, send_decoration, apply_fullscreen, sync_window,
  sync_each, set_layer_default, route_focus, first_layer, tell_tiled, tell_each, sync_windows,
  finish_manage, on_manage_start, same_flag, fullscreen_target, has_lost_output,
}
use streamwm.Wm.Safety.{on_manage_start-Safe}
use streamwm.Wm.Focus.{FocusedIn, Focused, refocus_from-Focused}

-- The same window, as far as its id and its tag go.
abbrev Keyed : Window → Window → Type 0
Keyed w w' = (w'.id ≡ w.id) × (w'.tag ≡ w.tag)

abbrev SameKeys : List Window → List Window → Type 0
SameKeys [] [] = Unit
SameKeys (w ∷ ws) (w' ∷ ws') = Keyed w w' × SameKeys ws ws'
SameKeys _ _ = ⊥

Keyed-trans : (a b c : Window) → Keyed a b → Keyed b c → Keyed a c
Keyed-trans a b c (i, t) (j, u) = (j ∙ i, u ∙ t)

if-Keyed :
    (w : Window) (b : Bool) (x y : Window × List Request)
    → Keyed w x.0
    → Keyed w y.0
    → Keyed w (if b then x else y).0
if-Keyed w true x y h k = h
if-Keyed w false x y h k = k

apply_fullscreen-Keyed :
    (target : Option ObjectId) (w : Window) → Keyed w (apply_fullscreen target w).0
unfolding apply_fullscreen
apply_fullscreen-Keyed none w =
    if-Keyed w w.fullscreen _ _ (if-Keyed w w.fullscreen_applied _ _ (refl, refl) (refl, refl))
      (if-Keyed w w.fullscreen_applied _ _ (refl, refl) (refl, refl))
apply_fullscreen-Keyed (some o) w =
    if-Keyed w w.fullscreen _ _ (if-Keyed w w.fullscreen_applied _ _ (refl, refl) (refl, refl))
      (if-Keyed w w.fullscreen_applied _ _ (refl, refl) (refl, refl))

sync_window-Keyed :
    (ssd : Bool) (target : Option ObjectId) (lost : Bool) (w : Window)
    → Keyed w (sync_window ssd target lost w).0
unfolding sync_window drop_lost_fullscreen send_caps send_decoration
sync_window-Keyed ssd target lost w =
    let w1 = (drop_lost_fullscreen lost w).0 in
    let w2 = (send_caps w1).0 in
    let w3 = (send_decoration ssd w2).0 in
    Keyed-trans w w1 (apply_fullscreen target w3).0
      (if-Keyed w (w.fullscreen_applied && lost) _ _ (refl, refl) (refl, refl))
      (Keyed-trans w1 w2 (apply_fullscreen target w3).0
        (if-Keyed w1 w1.caps_set _ _ (refl, refl) (refl, refl))
        (Keyed-trans w2 w3 (apply_fullscreen target w3).0
          (if-Keyed w2 (same_flag w2.ssd_applied ssd) _ _ (refl, refl) (refl, refl))
          (apply_fullscreen-Keyed target w3)))

sync_each-SameKeys :
    (ssd : Bool) (s : State) (ws : List Window) → SameKeys ws (sync_each ssd s ws).0
unfolding sync_each
sync_each-SameKeys ssd s [] = tt
sync_each-SameKeys ssd s (w ∷ ws) = (
  sync_window-Keyed ssd (fullscreen_target s w) (has_lost_output s w) w,
  sync_each-SameKeys ssd s ws,
)

tell_each-SameKeys : (ws : List Window) → SameKeys ws (tell_each ws).0
unfolding tell_each tell_tiled
tell_each-SameKeys [] = tt
tell_each-SameKeys (w ∷ ws) = (
  if-Keyed w (same_flag w.tiled_applied (not w.floating && not w.fullscreen)) _ _ (refl, refl)
      (refl, refl),
  tell_each-SameKeys ws,
)

module _ (s : State) (j : ℕ) (o : Output) where
  on_active-Keyed : (w w' : Window) → Keyed w w' → on_active s j o w' ≡ on_active s j o w
  unfolding on_active
  on_active-Keyed w w' (same_id, same_tag) = rw same_tag refl

  SameKeys-none :
      (ws ws' : List Window)
      → SameKeys ws ws'
      → All (λ w. on_active s j o w ≡ false) ws
      → All (λ w. on_active s j o w ≡ false) ws'
  SameKeys-none [] [] k h = tt
  SameKeys-none [] (w' ∷ ws') k h = elim k [ ]
  SameKeys-none (w ∷ ws) [] k h = elim k [ ]
  SameKeys-none (w ∷ ws) (w' ∷ ws') k h =
      (on_active-Keyed w w' k.0 ∙ h.0, SameKeys-none ws ws' k.1 h.1)

  SameKeys-any :
      (id : ℕ) (ws ws' : List Window)
      → SameKeys ws ws'
      → any (λ w. w.id == id && on_active s j o w) ws'
        ≡ any (λ w. w.id == id && on_active s j o w) ws
  unfolding on_active
  SameKeys-any id [] [] k = refl
  SameKeys-any id [] (w' ∷ ws') k = elim k [ ]
  SameKeys-any id (w ∷ ws) [] k = elim k [ ]
  SameKeys-any id (w ∷ ws) (w' ∷ ws') k =
      rw (k.0.0, on_active-Keyed w w' k.0, SameKeys-any id ws ws' k.1) refl

  SameKeys-Chosen :
      (ws ws' : List Window) (f : Option ℕ)
      → SameKeys ws ws'
      → Chosen (on_active s j o) ws f
      → Chosen (on_active s j o) ws' f
  SameKeys-Chosen ws ws' none k h = SameKeys-none ws ws' k h
  SameKeys-Chosen ws ws' (some id) k h = SameKeys-any id ws ws' k ∙ h

FocusedIn-windows :
    (s : State) (ws : List Window) (j : ℕ) (x : Option Output)
    → SameKeys s.windows ws
    → FocusedIn s j x
    → FocusedIn (record s { windows = ws }) j x
unfolding on_active
FocusedIn-windows s ws j none k h = tt
FocusedIn-windows s ws j (some o) k h = SameKeys-Chosen s j o s.windows ws o.focused_window k h

abbrev AllFocused : State → Type 0
AllFocused s = (j : ℕ) → Focused s j

windows-AllFocused :
    (s : State) (ws : List Window)
    → SameKeys s.windows ws
    → AllFocused s
    → AllFocused (record s { windows = ws })
windows-AllFocused s ws k h j = FocusedIn-windows s ws j (get_elem? s.outputs j) k (h j)

set_layer_default-state : (d : AppData) → (set_layer_default d).state ≡ d.state
unfolding set_layer_default send
set_layer_default-state d = elim (Bool-cases d.layer_default_set) [
  | inl set ↦ rw (set, set_layer_default) refl
  | inr unset ↦ elim (Option-cases (first_layer d.state.outputs)) [
    | inl e ↦ rw (unset, e, set_layer_default) refl
    | inr (layer, e) ↦ rw (unset, e, set_layer_default) refl
  ]
]

sync_windows-AllFocused : (d : AppData) → AllFocused d.state → AllFocused (sync_windows d).state
unfolding sync_windows send
sync_windows-AllFocused d h =
    windows-AllFocused d.state _ (sync_each-SameKeys d.config.use_ssd d.state d.state.windows) h

finish_manage-AllFocused : (d : AppData) → AllFocused d.state → AllFocused (finish_manage d).state
unfolding finish_manage send
finish_manage-AllFocused d h = windows-AllFocused d.state _ (tell_each-SameKeys d.state.windows) h

route_focus-AllFocused :
    (d : AppData) → AllFocused d.state → IfDone (route_focus d) (λ d'. AllFocused d'.state)
unfolding route_focus send
route_focus-AllFocused d h =
    IfDone-bind (focused_window d.state) _ (λ d'. AllFocused d'.state) (λ focus. h)

route_finish-AllFocused :
    (d : AppData)
    → AllFocused d.state
    → IfDone (route_focus d >>= λ d'. done (finish_manage d')) (λ d'. AllFocused d'.state)
route_finish-AllFocused d h =
    IfDone-then (route_focus d) (λ d'. done (finish_manage d')) (λ d'. AllFocused d'.state)
      (λ d'. AllFocused d'.state) (route_focus-AllFocused d h)
      (λ d' v. finish_manage-AllFocused d' v)

prepared-AllFocused :
    (d : AppData) (s : State)
    → AllFocused s
    → AllFocused (set_layer_default (sync_windows (with_state d s))).state
prepared-AllFocused d s h =
    subst AllFocused (sym (set_layer_default-state (sync_windows (with_state d s))))
      (sync_windows-AllFocused (with_state d s) h)

on_manage_start-AllFocused : (d : AppData) → IfDone (on_manage_start d) (λ d'. AllFocused d'.state)
unfolding on_manage_start
on_manage_start-AllFocused d =
    let started = process_pointer_ops d in
    IfDone-then (refocus_from (length started.state.outputs) 0 started.state) _ AllFocused
      (λ d'. AllFocused d'.state)
      (IfDone-of_Returns (refocus_from (length started.state.outputs) 0 started.state) AllFocused
        (refocus_from-Focused started.state))
      (λ s h. route_finish-AllFocused _ (prepared-AllFocused started s h))

-- After a manage sequence on data with a well-formed state and a queue handle, the focused window
-- of every output is on the tag that the output shows and owns, and an output has none only when
-- no window is there.
pub on_manage_start-Focused :
    (d : AppData) → Safe d → Returns (on_manage_start d) (λ d'. (j : ℕ) → Focused d'.state j)
on_manage_start-Focused d v =
    Returns-IfDone (on_manage_start d) Safe (λ d'. AllFocused d'.state) (on_manage_start-Safe d v)
      (on_manage_start-AllFocused d)
