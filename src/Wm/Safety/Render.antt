-- ===== src/Wm/Safety/Render.antt =====
-- A render sequence (src/wm/mod.rs, src/wm/layout.rs) returns on safe data, and keeps it safe.
use streamwm.Base.{
  ℕ, ◌<◌, ◌≡◌, refl, sym, ◌∙◌, subst, Bool, true, false, Option, List, [], ◌∷◌, inl, inr,
  Bool-cases, Option-cases, not, ◌&&◌, Returns, Returns-bind, All-find, find, any, ◌==◌, is_some,
  if◌then◌else◌,
}
use streamwm.Protocol.{get_node}
use streamwm.App.{AppData, with_state, send}
use streamwm.App.Safe.{Safe}
use streamwm.State.{State, Window, Border, window_is_visible, num_tags, find_window}
use streamwm.State.Ranges.{WindowsFit}
use streamwm.State.Invariant.{WellFormed, windows-WellFormed, update_window-WellFormed}
use streamwm.State.Focus.{release_nodes, release_hidden_nodes}
use streamwm.Bindings.Safety.{focused_window-Returns}
use streamwm.Bindings.Action.{focused_window}
use streamwm.Wm.Layout.{Placement, hidden, fullscreen, at, placements}
use streamwm.Wm.Render.{
  Style, same_border, border_for, border_step, show_window, place_window, place_each,
  render_all_run, ensure_nodes, give_nodes, on_render_start,
}

release_nodes-WindowsFit :
    (active : List ℕ) (ws : List Window) → WindowsFit ws → WindowsFit (release_nodes active ws).0
unfolding release_nodes
release_nodes-WindowsFit active [] h = tt
release_nodes-WindowsFit active (w ∷ ws) h = elim (Bool-cases (any (λ t. t == w.tag) active)) [
  | inl shown ↦ rw shown (h.0, release_nodes-WindowsFit active ws h.1)
  | inr off ↦ elim (Option-cases w.node) [
    | inl e ↦ rw (off, e) (h.0, release_nodes-WindowsFit active ws h.1)
    | inr (n, e) ↦ rw (off, e) (h.0, release_nodes-WindowsFit active ws h.1)
  ]
]

release_hidden_nodes-WellFormed : (s : State) → WellFormed s → WellFormed (release_hidden_nodes s).0
unfolding release_hidden_nodes
release_hidden_nodes-WellFormed s v =
    windows-WellFormed s _ (release_nodes-WindowsFit _ s.windows v.ranged.placed) v

ensure_nodes-Safe :
    (s : State) (ws : List Window) (d : AppData)
    → WindowsFit ws
    → WindowsFit (ensure_nodes s ws d).0 × ((ensure_nodes s ws d).1.qh ≡ d.qh)
unfolding ensure_nodes send
ensure_nodes-Safe s [] d h = (tt, refl)
ensure_nodes-Safe s (w ∷ ws) d h =
    elim (Bool-cases (window_is_visible s w && not (is_some w.node))) [
      | inl new ↦
          let r = ensure_nodes-Safe s ws (send (get_node w.proxy ∷ []) d) h.1 in
          rw new ((h.0, r.0), r.1)
      | inr old ↦ let r = ensure_nodes-Safe s ws d h.1 in rw old ((h.0, r.0), r.1)
    ]

give_nodes-Safe : (d : AppData) → Safe d → Safe (give_nodes d)
unfolding give_nodes send
give_nodes-Safe d v = go d.qh
  where
    s : State
    s = (release_hidden_nodes d.state).0

    d' : AppData
    d' = send (release_hidden_nodes d.state).1 (with_state d s)

    w : WellFormed s
    w = release_hidden_nodes-WellFormed d.state v.0

    go :
        (b : Bool)
        → Safe (
            if b
            then with_state
                (ensure_nodes s s.windows d').1
                (record s { windows = (ensure_nodes s s.windows d').0 })
            else d')
    go true =
        let r = ensure_nodes-Safe s s.windows d' w.ranged.placed in
        (windows-WellFormed s _ r.0 w, r.1 ∙ v.1)
    go false = (w, v.1)

border_step-tag : (b : Border) (w : Window) → (border_step b w).0.tag ≡ w.tag
unfolding border_step
border_step-tag b w = elim (Bool-cases (same_border w.border_applied b)) [
  | inl same ↦ rw same refl
  | inr other ↦ rw other refl
]

show_window-WellFormed :
    (st : Style) (focus : Option ℕ) (p : Placement) (wid : ℕ) (s : State) (w : Window)
    → w.tag < num_tags
    → WellFormed s
    → WellFormed (show_window st focus p wid s w).0
unfolding show_window
show_window-WellFormed st focus p wid s w h v =
    update_window-WellFormed s wid _
      (λ _ _. subst (λ t. t < num_tags) (sym (border_step-tag (border_for st focus wid) w)) h) v

place_window-WellFormed :
    (st : Style) (focus : Option ℕ) (wid : ℕ) (p : Placement) (s : State)
    → WellFormed s
    → WellFormed (place_window st focus (wid, p) s).0
unfolding place_window find_window
place_window-WellFormed st focus wid hidden s v =
    elim (Option-cases (find (λ w. w.id == wid) s.windows)) [
      | inl e ↦ rw (e, place_window) v
      | inr (w, e) ↦ rw (e, place_window) v
    ]
place_window-WellFormed st focus wid fullscreen s v =
    elim (Option-cases (find (λ w. w.id == wid) s.windows)) [
      | inl e ↦ rw (e, place_window) v
      | inr (w, e) ↦
          rw (e, place_window)
            (show_window-WellFormed st focus fullscreen wid s w
              (All-find _ _ s.windows w e v.ranged.placed) v)
    ]
place_window-WellFormed st focus wid (at g) s v =
    elim (Option-cases (find (λ w. w.id == wid) s.windows)) [
      | inl e ↦ rw (e, place_window) v
      | inr (w, e) ↦
          rw (e, place_window)
            (show_window-WellFormed st focus (at g) wid s w
              (All-find _ _ s.windows w e v.ranged.placed) v)
    ]

place_each-WellFormed :
    (st : Style) (focus : Option ℕ) (ps : List (ℕ × Placement)) (s : State)
    → WellFormed s
    → WellFormed (place_each st focus ps s).0
unfolding place_each
place_each-WellFormed st focus [] s v = v
place_each-WellFormed st focus ((wid, p) ∷ ps) s v =
    place_each-WellFormed st focus ps _ (place_window-WellFormed st focus wid p s v)

render_all_run-Safe : (d : AppData) (focus : Option ℕ) → Safe d → Safe (render_all_run d focus)
unfolding render_all_run send
render_all_run-Safe d focus v =
    let s = (release_hidden_nodes d.state).0 in
    let w = release_hidden_nodes-WellFormed d.state v.0 in
    (place_each-WellFormed _ focus (placements d.floats s d.config) s w, v.1)

pub on_render_start-Safe : (d : AppData) → Safe d → Returns (on_render_start d) Safe
unfolding on_render_start send
on_render_start-Safe d v =
    let w = give_nodes-Safe d v in
    Returns-bind (focused_window (give_nodes d).state) _ (λ _. Unit) Safe
      (focused_window-Returns _ w.0) (λ focus u. render_all_run-Safe (give_nodes d) focus w)
