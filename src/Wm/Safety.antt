-- ===== src/Wm/Safety.antt =====
-- A manage sequence (src/wm/mod.rs) returns on safe data, and keeps it safe.
pub mod Render
use streamwm.Base.{
  ℕ, zero, suc, ◌+◌, ◌<◌, ◌≤◌, ◌≡◌, refl, sym, ◌∙◌, subst, Bool, Option, none, some, List, [], ◌∷◌,
  inl, inr, arith, length, Bool-cases, Option-cases, not, ◌&&◌, Returns, Returns-bind,
}
use streamwm.Protocol.{ObjectId}
use streamwm.App.{AppData, with_state, send}
use streamwm.App.Safe.{Safe}
use streamwm.State.{State, Window, num_tags}
use streamwm.State.Ranges.{WindowsFit}
use streamwm.State.Invariant.{WellFormed, windows-WellFormed}
use streamwm.State.Focus.{refocus_output}
use streamwm.State.Outputs.Settled.{IsNormal, refocus_output-IsNormal}
use streamwm.Bindings.Safety.{focused_window-Returns}
use streamwm.Bindings.Pointer.{process_pointer_ops}
use streamwm.Bindings.Pointer.Safety.{process_pointer_ops-state, process_pointer_ops-qh}
use streamwm.Bindings.Action.{focused_window}
use streamwm.Wm.Manage.{
  refocus_from, drop_lost_fullscreen, send_caps, send_decoration, apply_fullscreen, sync_window,
  sync_each, set_layer_default, route_focus, first_layer, tell_tiled, tell_each, sync_windows,
  finish_manage, on_manage_start, same_flag, fullscreen_target, has_lost_output,
}

drop_lost_fullscreen-tag : (lost : Bool) (w : Window) → (drop_lost_fullscreen lost w).0.tag ≡ w.tag
unfolding drop_lost_fullscreen
drop_lost_fullscreen-tag lost w = ground arith

send_caps-tag : (w : Window) → (send_caps w).0.tag ≡ w.tag
unfolding send_caps
send_caps-tag w = ground arith

send_decoration-tag : (ssd : Bool) (w : Window) → (send_decoration ssd w).0.tag ≡ w.tag
unfolding send_decoration
send_decoration-tag ssd w = elim (Bool-cases (same_flag w.ssd_applied ssd)) [
  | inl same ↦ rw same refl
  | inr other ↦ rw other refl
]

apply_fullscreen-tag :
    (target : Option ObjectId) (w : Window) → (apply_fullscreen target w).0.tag ≡ w.tag
unfolding apply_fullscreen
apply_fullscreen-tag none w = ground arith
apply_fullscreen-tag (some o) w = ground arith

sync_window-tag :
    (ssd : Bool) (target : Option ObjectId) (lost : Bool) (w : Window)
    → (sync_window ssd target lost w).0.tag ≡ w.tag
unfolding sync_window
sync_window-tag ssd target lost w =
    let w1 = (drop_lost_fullscreen lost w).0 in
    let w2 = (send_caps w1).0 in
    apply_fullscreen-tag target (send_decoration ssd w2).0
    ∙ (send_decoration-tag ssd w2 ∙ (send_caps-tag w1 ∙ drop_lost_fullscreen-tag lost w))

sync_each-WindowsFit :
    (ssd : Bool) (s : State) (ws : List Window) → WindowsFit ws → WindowsFit (sync_each ssd s ws).0
unfolding sync_each
sync_each-WindowsFit ssd s [] h = tt
sync_each-WindowsFit ssd s (w ∷ ws) h = (
  subst (λ t. t < num_tags)
      (sym (sync_window-tag ssd (fullscreen_target s w) (has_lost_output s w) w)) h.0,
  sync_each-WindowsFit ssd s ws h.1,
)

tell_tiled-tag : (w : Window) → (tell_tiled w).0.tag ≡ w.tag
unfolding tell_tiled
tell_tiled-tag w =
    elim (Bool-cases (same_flag w.tiled_applied (not w.floating && not w.fullscreen))) [
      | inl same ↦ rw same refl
      | inr other ↦ rw other refl
    ]

tell_each-WindowsFit : (ws : List Window) → WindowsFit ws → WindowsFit (tell_each ws).0
unfolding tell_each
tell_each-WindowsFit [] h = tt
tell_each-WindowsFit (w ∷ ws) h =
    (subst (λ t. t < num_tags) (sym (tell_tiled-tag w)) h.0, tell_each-WindowsFit ws h.1)

refocus_from-WellFormed :
    (left idx : ℕ) (s : State)
    → idx + left ≤ length s.outputs
    → WellFormed s
    → Returns (refocus_from left idx s) WellFormed
unfolding refocus_from
refocus_from-WellFormed zero idx s h v = v
refocus_from-WellFormed (suc left) idx s h v =
    Returns-bind (refocus_output s idx) _ (IsNormal (length s.outputs)) WellFormed
      (refocus_output-IsNormal (length s.outputs) s idx (omega arith) (v, refl))
      (λ s' w. refocus_from-WellFormed left (suc idx) s' (omega (arith, w.1)) w.0)

sync_windows-Safe : (d : AppData) → Safe d → Safe (sync_windows d)
unfolding sync_windows send
sync_windows-Safe d v = (
  windows-WellFormed d.state _
      (sync_each-WindowsFit d.config.use_ssd d.state d.state.windows v.0.ranged.placed) v.0,
  v.1,
)

set_layer_default-Safe : (d : AppData) → Safe d → Safe (set_layer_default d)
unfolding set_layer_default send
set_layer_default-Safe d v = elim (Bool-cases d.layer_default_set) [
  | inl set ↦ rw set v
  | inr unset ↦ elim (Option-cases (first_layer d.state.outputs)) [
    | inl e ↦ rw (unset, e) v
    | inr (layer, e) ↦ rw (unset, e) v
  ]
]

route_focus-Safe : (d : AppData) → Safe d → Returns (route_focus d) Safe
unfolding route_focus send
route_focus-Safe d v =
    Returns-bind (focused_window d.state) _ (λ _. Unit) Safe (focused_window-Returns d.state v.0)
      (λ f u. v)

finish_manage-Safe : (d : AppData) → Safe d → Safe (finish_manage d)
unfolding finish_manage send
finish_manage-Safe d v =
    (windows-WellFormed d.state _ (tell_each-WindowsFit d.state.windows v.0.ranged.placed) v.0, v.1)

process_pointer_ops-Safe : (d : AppData) → Safe d → Safe (process_pointer_ops d)
process_pointer_ops-Safe d v =
    (subst WellFormed (sym (process_pointer_ops-state d)) v.0, process_pointer_ops-qh d ∙ v.1)

pub on_manage_start-Safe : (d : AppData) → Safe d → Returns (on_manage_start d) Safe
unfolding on_manage_start
on_manage_start-Safe d v =
    let started = process_pointer_ops d in
    let w = process_pointer_ops-Safe d v in
    Returns-bind (refocus_from (length started.state.outputs) 0 started.state) _ WellFormed Safe
      (refocus_from-WellFormed (length started.state.outputs) 0 started.state (omega arith) w.0)
      λ s u.
        Returns-bind (route_focus (set_layer_default (sync_windows (with_state started s)))) _ Safe
          Safe
          (route_focus-Safe _
            (set_layer_default-Safe _ (sync_windows-Safe (with_state started s) (u, w.1))))
          (λ d' x. finish_manage-Safe d' x)
