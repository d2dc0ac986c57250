-- ===== src/Wm/Render.antt =====
-- src/wm/mod.rs: the render sequence, `on_render_start`, and src/wm/layout.rs: `render_all_run`.
use streamwm.Base.{
  same_bool, ℕ, ◌*◌, ◌/◌, ◌%◌, ◌^◌, Bool, true, false, Option, none, some, List, [], ◌∷◌, ◌++◌,
  if◌then◌else◌, ◌==◌, ◌&&◌, not, same_opt, is_some, Outcome, done, ◌>>=◌,
}
use streamwm.Base.Int.{pos, to_i32}
use streamwm.Protocol.{
  ObjectId, Request, hide, show, set_position, place_top, set_borders, get_node, render_finish,
}
use streamwm.Config.{Config}
use streamwm.Config.Color.{Color, color}
use streamwm.App.{AppData, with_state, send}
use streamwm.State.{State, Window, Border, find_window, update_window, window_is_visible}
use streamwm.State.Focus.{release_hidden_nodes}
use streamwm.Bindings.Action.{focused_window}
use streamwm.Wm.Layout.{Placement, hidden, at, placements}
use streamwm.Wm.Manage.{all_edges}

-- An 8-bit colour component on 32 bits.
unfoldable pub widen : ℕ → ℕ
widen v = v * 0xffff_ffff / 255 % 2 ^ 32

unfoldable pub to_32bit : Color → ℕ × ℕ × ℕ × ℕ
unfolding widen
to_32bit c = (widen 255, widen c.red, widen c.green, widen c.blue)

unfoldable pub same_border : Option Border → Border → Bool
same_border none b = false
same_border (some a) b =
    same_bool a.focused b.focused
    && (a.width == b.width && (a.red == b.red && (a.green == b.green && a.blue == b.blue)))

unfoldable pub position_requests : Option ObjectId → Placement → List Request
position_requests none p = []
position_requests (some node) (at g) = set_position node g.x g.y ∷ place_top node ∷ []
position_requests (some node) _ = set_position node (pos 0) (pos 0) ∷ place_top node ∷ []

-- The border of a window, sent if it is not the one sent last.
unfoldable pub border_step : Border → Window → Window × List Request
unfolding same_border to_32bit to_i32
border_step b w =
    if same_border w.border_applied b
    then (w, [])
    else (let (a, r, g, bl) = to_32bit (record { red = b.red; green = b.green; blue = b.blue }) in
        (
          record w { border_applied = some b },
          set_borders w.proxy all_edges (to_i32 b.width) r g bl a ∷ [],
        ))

abbrev border_of : Bool → ℕ → Color → Border
border_of focused width c = record {
  focused = focused;
  width = width;
  red = c.red;
  green = c.green;
  blue = c.blue;
}

pub record Style : Type 0 where
  pub width : ℕ
  pub normal : Color
  pub focused : Color

unfoldable pub style_of : Config → Style
unfolding color
style_of c = record {
  width = c.border_width;
  normal = color c.border_color;
  focused = color c.focused_border_color;
}

unfoldable pub border_for : Style → Option ℕ → ℕ → Border
border_for st focus wid =
    if same_opt focus (some wid)
    then border_of true st.width st.focused
    else border_of false st.width st.normal

unfoldable pub show_window :
    Style → Option ℕ → Placement → ℕ → State → Window → State × List Request
unfolding position_requests border_step border_for update_window
show_window st focus p wid s w =
    let (w', sent) = border_step (border_for st focus wid) w in
    (update_window s wid (λ _. w'), position_requests w.node p ++ (sent ++ show w.proxy ∷ []))

unfoldable pub place_window : Style → Option ℕ → ℕ × Placement → State → State × List Request
unfolding find_window show_window
place_window st focus (wid, p) s = elim (find_window s wid) [
  | none ↦ (s, [])
  | some w ↦ elim p [ hidden ↦ (s, hide w.proxy ∷ []) | other ↦ show_window st focus other wid s w ]
]

unfoldable pub place_each : Style → Option ℕ → List (ℕ × Placement) → State → State × List Request
unfolding place_window
place_each st focus [] s = (s, [])
place_each st focus (p ∷ ps) s =
    let (s', sent) = place_window st focus p s in
    let (s'', more) = place_each st focus ps s' in (s'', sent ++ more)

unfoldable pub render_all_run : AppData → Option ℕ → AppData
unfolding place_each style_of send
render_all_run d focus =
    let (s, destroyed) = release_hidden_nodes d.state in
    let (s', sent) = place_each (style_of d.config) focus (placements d.floats s d.config) s in
    send (destroyed ++ sent) (with_state d s')

-- Nodes for the visible windows that have none: the windows left, and the data so far.
unfoldable pub ensure_nodes : State → List Window → AppData → List Window × AppData
unfolding window_is_visible send
ensure_nodes s [] d = ([], d)
ensure_nodes s (w ∷ ws) d =
    if window_is_visible s w && not (is_some w.node)
    then (let d' = send (get_node w.proxy ∷ []) d in
        let (ws', d'') = ensure_nodes s ws d' in
        (record w { node = some (d.object d'.sent) } ∷ ws', d''))
    else (let (ws', d') = ensure_nodes s ws d in (w ∷ ws', d'))

unfoldable pub give_nodes : AppData → AppData
unfolding ensure_nodes send
give_nodes d =
    let (s, destroyed) = release_hidden_nodes d.state in
    let d' = send destroyed (with_state d s) in
    if d.qh
    then (let (ws, d'') = ensure_nodes s s.windows d' in with_state d'' (record s { windows = ws }))
    else d'

unfoldable pub on_render_start : AppData → Outcome AppData
unfolding give_nodes render_all_run send
on_render_start d = do
  let ready = give_nodes d
  focus ← focused_window ready.state
  done (send (render_finish ∷ []) (render_all_run ready focus))
