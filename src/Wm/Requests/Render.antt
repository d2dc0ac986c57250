-- ===== src/Wm/Requests/Render.antt =====
-- The requests of a render sequence (src/wm/mod.rs, src/wm/layout.rs): allowed in it, and ended by
-- `render_finish`.
use streamwm.Base.{
  refl, ℕ, Option, none, some, List, [], ◌∷◌, ◌++◌, inl, inr, not, ◌&&◌, ◌==◌, any, is_some,
  All-append, Bool-cases, Option-cases, IfDone, IfDone-bind, map,
}
use streamwm.Protocol.{ObjectId, Request, get_node, render_finish}
use streamwm.Protocol.Sequence.{rendering}
use streamwm.App.{AppData, with_state, send}
use streamwm.App.Requests.{
  Within, Adds, Adds-refl, Adds-more, Adds-trans, Answers, Adds-Answers, if-sent-Within, if-Adds,
}
use streamwm.State.{State, Window, find_window, window_is_visible}
use streamwm.State.Focus.{release_nodes, release_hidden_nodes}
use streamwm.Bindings.Action.{focused_window}
use streamwm.Wm.Layout.{Placement, hidden, fullscreen, at, placements}
use streamwm.Wm.Render.{
  Style, same_border, border_for, border_step, position_requests, show_window, place_window,
  place_each, render_all_run, ensure_nodes, give_nodes, on_render_start, style_of,
}

abbrev Rendered : List Request → Type 0
Rendered rs = Within rendering rs

send-Rendered :
    (d : AppData) (rs : List Request) → Rendered rs → Adds rendering d.sent (send rs d).sent
unfolding send
send-Rendered d rs h = Adds-more rendering d.sent rs h

release_nodes-Rendered : (active : List ℕ) (ws : List Window) → Rendered (release_nodes active ws).1
unfolding release_nodes
release_nodes-Rendered active [] = tt
release_nodes-Rendered active (w ∷ ws) = elim (Bool-cases (any (λ t. t == w.tag) active)) [
  | inl shown ↦ rw shown (release_nodes-Rendered active ws)
  | inr off ↦ elim (Option-cases w.node) [
    | inl e ↦ rw (off, e) (release_nodes-Rendered active ws)
    | inr (n, e) ↦ rw (off, e) (refl, release_nodes-Rendered active ws)
  ]
]

release_hidden_nodes-Rendered : (s : State) → Rendered (release_hidden_nodes s).1
unfolding release_hidden_nodes
release_hidden_nodes-Rendered s =
    release_nodes-Rendered (map (λ o. o.active_tag) s.outputs) s.windows

ensure_nodes-Rendered :
    (s : State) (ws : List Window) (d : AppData)
    → Adds rendering d.sent (ensure_nodes s ws d).1.sent
unfolding ensure_nodes
ensure_nodes-Rendered s [] d = Adds-refl rendering d.sent
ensure_nodes-Rendered s (w ∷ ws) d =
    let asked = send (get_node w.proxy ∷ []) d in
    elim (Bool-cases (window_is_visible s w && not (is_some w.node))) [
      | inl new ↦ rw new (
          Adds-trans rendering d.sent asked.sent (ensure_nodes s ws asked).1.sent
            (send-Rendered d _ (refl, tt)) (ensure_nodes-Rendered s ws asked))
      | inr old ↦ rw old (ensure_nodes-Rendered s ws d)
    ]

give_nodes-Rendered : (d : AppData) → Adds rendering d.sent (give_nodes d).sent
unfolding give_nodes
give_nodes-Rendered d =
    if-Adds rendering d.sent d.qh
      (with_state (ensure_nodes s s.windows d').1
        (record s { windows = (ensure_nodes s s.windows d').0 }))
      d'
      (Adds-trans rendering d.sent d'.sent (ensure_nodes s s.windows d').1.sent released
        (ensure_nodes-Rendered s s.windows d'))
      released
  where
    s : State
    s = (release_hidden_nodes d.state).0

    d' : AppData
    d' = send (release_hidden_nodes d.state).1 (with_state d s)

    released : Adds rendering d.sent d'.sent
    released = send-Rendered (with_state d s) _ (release_hidden_nodes-Rendered d.state)

position_requests-Rendered :
    (node : Option ObjectId) (p : Placement) → Rendered (position_requests node p)
unfolding position_requests
position_requests-Rendered none p = tt
position_requests-Rendered (some n) hidden = (refl, (refl, tt))
position_requests-Rendered (some n) fullscreen = (refl, (refl, tt))
position_requests-Rendered (some n) (at g) = (refl, (refl, tt))

show_window-Rendered :
    (st : Style) (focus : Option ℕ) (p : Placement) (wid : ℕ) (s : State) (w : Window)
    → Rendered (show_window st focus p wid s w).1
unfolding show_window border_step
show_window-Rendered st focus p wid s w = All-append _ _ _ (position_requests-Rendered w.node p) (
    All-append _ _ _
      (if-sent-Within rendering (same_border w.border_applied (border_for st focus wid)) _ _ tt
        (refl, tt))
      (refl, tt))

place_window-Rendered :
    (st : Style) (focus : Option ℕ) (wid : ℕ) (p : Placement) (s : State)
    → Rendered (place_window st focus (wid, p) s).1
unfolding place_window
place_window-Rendered st focus wid hidden s = elim (Option-cases (find_window s wid)) [
  | inl e ↦ rw (e, place_window) tt
  | inr (w, e) ↦ rw (e, place_window) (refl, tt)
]
place_window-Rendered st focus wid fullscreen s = elim (Option-cases (find_window s wid)) [
  | inl e ↦ rw (e, place_window) tt
  | inr (w, e) ↦ rw (e, place_window) (show_window-Rendered st focus fullscreen wid s w)
]
place_window-Rendered st focus wid (at g) s = elim (Option-cases (find_window s wid)) [
  | inl e ↦ rw (e, place_window) tt
  | inr (w, e) ↦ rw (e, place_window) (show_window-Rendered st focus (at g) wid s w)
]

place_each-Rendered :
    (st : Style) (focus : Option ℕ) (ps : List (ℕ × Placement)) (s : State)
    → Rendered (place_each st focus ps s).1
unfolding place_each
place_each-Rendered st focus [] s = tt
place_each-Rendered st focus ((wid, p) ∷ ps) s =
    All-append _ _ _ (place_window-Rendered st focus wid p s)
      (place_each-Rendered st focus ps (place_window st focus (wid, p) s).0)

render_all_run-Rendered :
    (d : AppData) (focus : Option ℕ) → Adds rendering d.sent (render_all_run d focus).sent
unfolding render_all_run
render_all_run-Rendered d focus =
    let s = (release_hidden_nodes d.state).0 in
    send-Rendered d _ (
      All-append _ _ _ (release_hidden_nodes-Rendered d.state)
        (place_each-Rendered (style_of d.config) focus (placements d.floats s d.config) s))

-- A render sequence, if it returns, answers `render_start`.
pub on_render_start-Answers :
    (d : AppData) → IfDone (on_render_start d) (λ d'. Answers rendering d.sent d'.sent)
unfolding on_render_start send
on_render_start-Answers d =
    let ready = give_nodes d in
    IfDone-bind (focused_window ready.state) _ _ λ focus.
      let drawn = render_all_run ready focus in
      Adds-Answers rendering d.sent drawn.sent (drawn.sent ++ render_finish ∷ [])
        (Adds-trans rendering d.sent ready.sent drawn.sent (give_nodes-Rendered d)
          (render_all_run-Rendered ready focus))
        (render_finish ∷ [], refl, refl)
