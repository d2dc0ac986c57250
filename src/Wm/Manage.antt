-- ===== src/Wm/Manage.antt =====
-- src/wm/mod.rs: the manage sequence, `on_manage_start`.
use Prim.Native.Nat.{min, max}
use streamwm.Base.{
  is_empty, ℕ, zero, suc, Bool, true, false, Option, none, some, List, [], ◌∷◌, ◌++◌, map,
  if◌then◌else◌, ◌==◌, ◌&&◌, ◌||◌, not, ltb, and_then, map_opt, is_some, length, get_elem?, Outcome,
  done, ◌>>=◌,
}
use streamwm.Base.Int.{pos, to_i32, add_i32, half_i32}
use streamwm.Protocol.{
  ObjectId, Edges, Request, hide, close, use_ssd, use_csd, set_capabilities, fullscreen,
  exit_fullscreen, inform_fullscreen, inform_not_fullscreen, set_dimension_bounds,
  propose_dimensions, set_tiled, focus_window, clear_focus, pointer_warp, enable, disable,
  set_default, manage_finish,
}
use streamwm.App.{Bound, AppData, with_state, send}
use streamwm.State.{State, Window, Output, Seat, find_window, window_output, tag_owner}
use streamwm.State.Focus.{refocus_output}
use streamwm.Bindings.Pointer.{no_edges, process_pointer_ops}
use streamwm.Bindings.Action.{focused_window}
use streamwm.Bindings.Action.Text.{is_resize_binding}
use streamwm.Wm.Layout.{Geometry, compute_all}

-- `for output_idx in 0..outputs.len()`: the rounds left, and the index.
unfoldable pub refocus_from : ℕ → ℕ → State → Outcome State
refocus_from zero idx s = done s
refocus_from (suc left) idx s = do s' ← refocus_output s idx; refocus_from left (suc idx) s'

unfoldable pub hide_all : List Window → List Request
hide_all ws = map (λ w. hide w.proxy) ws

-- The deferred close requests, for the windows that still exist.
unfoldable pub close_requests : State → List ℕ → List Request
unfolding find_window
close_requests s [] = []
close_requests s (fid ∷ fids) = elim (find_window s fid) [
  | none ↦ close_requests s fids
  | some w ↦ close w.proxy ∷ close_requests s fids
]

-- A window whose fullscreen output was removed, while others are left.
unfoldable pub drop_lost_fullscreen : Bool → Window → Window × List Request
drop_lost_fullscreen lost w =
    if w.fullscreen_applied && lost
    then (
      record w { fullscreen = false; fullscreen_applied = false },
      inform_not_fullscreen w.proxy ∷ [],
    )
    else (w, [])

unfoldable pub send_caps : Window → Window × List Request
send_caps w =
    if w.caps_set then (w, []) else (record w { caps_set = true }, set_capabilities w.proxy ∷ [])

abbrev pub same_flag : Option Bool → Bool → Bool
same_flag none b = false
same_flag (some true) b = b
same_flag (some false) b = not b

unfoldable pub send_decoration : Bool → Window → Window × List Request
send_decoration ssd w = if same_flag w.ssd_applied ssd then (w, []) else (
  record w { ssd_applied = some ssd },
  (if ssd then use_ssd w.proxy else use_csd w.proxy) ∷ [],
)

-- The desired fullscreen state, applied on `target`, the output's object.
unfoldable pub apply_fullscreen : Option ObjectId → Window → Window × List Request
apply_fullscreen target w =
    if w.fullscreen
    then if w.fullscreen_applied then (w, []) else elim target [
      | none ↦ (w, [])
      | some o ↦ (
        record w { fullscreen_applied = true },
        fullscreen w.proxy o ∷ inform_fullscreen w.proxy ∷ [],
      )
    ]
    else if w.fullscreen_applied
    then (
      record w { fullscreen_applied = false },
      exit_fullscreen w.proxy ∷ inform_not_fullscreen w.proxy ∷ [],
    )
    else (w, [])

unfoldable pub sync_window : Bool → Option ObjectId → Bool → Window → Window × List Request
unfolding drop_lost_fullscreen send_caps send_decoration apply_fullscreen
sync_window ssd target lost w =
    let (w1, r1) = drop_lost_fullscreen lost w in
    let (w2, r2) = send_caps w1 in
    let (w3, r3) = send_decoration ssd w2 in
    let (w4, r4) = apply_fullscreen target w3 in (w4, r1 ++ (r2 ++ (r3 ++ r4)))

unfoldable pub fullscreen_target : State → Window → Option ObjectId
unfolding window_output
fullscreen_target s w = map_opt (λ o. o.proxy) (and_then (window_output s w) (get_elem? s.outputs))

unfoldable pub has_lost_output : State → Window → Bool
unfolding tag_owner
has_lost_output s w = not (is_some (tag_owner s w.tag)) && not (is_empty s.outputs)

unfoldable pub sync_each : Bool → State → List Window → List Window × List Request
unfolding sync_window fullscreen_target has_lost_output
sync_each ssd s [] = ([], [])
sync_each ssd s (w ∷ ws) =
    let (w', sent) = sync_window ssd (fullscreen_target s w) (has_lost_output s w) w in
    let (ws', more) = sync_each ssd s ws in (w' ∷ ws', sent ++ more)

abbrev pub first_layer : List Output → Option ObjectId
first_layer [] = none
first_layer (o ∷ os) = o.layer

unfoldable pub set_layer_default : AppData → AppData
unfolding send
set_layer_default d = if d.layer_default_set then d else elim (first_layer d.state.outputs) [
  | none ↦ d
  | some layer ↦ send (set_default layer ∷ []) (record d { layer_default_set = true })
]

unfoldable pub focus_requests : Option ObjectId → List Seat → List Request
focus_requests target seats =
    map (λ s. elim target [ none ↦ clear_focus s.proxy | some w ↦ focus_window s.proxy w ]) seats

-- Keyboard focus goes to the focused window of the focused output, for every seat.
unfoldable pub route_focus : AppData → Outcome AppData
unfolding find_window send focus_requests
route_focus d = do
  focus ← focused_window d.state
  done (
      send
        (focus_requests (map_opt (λ w. w.proxy) (and_then focus (find_window d.state)))
          d.state.seats)
        d)

-- The dimensions proposed to one tiled window.
unfoldable pub propose_tile : State → ℕ × Geometry → List Request
unfolding find_window to_i32
propose_tile s (wid, g) = if g.width == 0 || g.height == 0 then [] else elim (find_window s wid) [
  | none ↦ []
  | some w ↦
      if w.fullscreen
      then set_dimension_bounds w.proxy (pos 0) (pos 0) ∷ []
      else set_dimension_bounds w.proxy (to_i32 g.width) (to_i32 g.height)
        ∷ propose_dimensions w.proxy (to_i32 g.width) (to_i32 g.height)
        ∷ []
]

unfoldable pub clamp_dim : ℕ → ℕ → ℕ → ℕ
clamp_dim v lo hi =
    let out = if ltb 0 lo then max v lo else v in if ltb 0 hi then min out hi else out

unfoldable pub clamp_to_hints : ℕ → ℕ → ℕ → ℕ → ℕ → ℕ → ℕ × ℕ
unfolding clamp_dim
clamp_to_hints width height min_w min_h max_w max_h =
    (clamp_dim width min_w max_w, clamp_dim height min_h max_h)

unfoldable pub propose_float : Window → List Request
unfolding clamp_to_hints to_i32
propose_float w =
    if w.floating && (ltb 0 w.float_w && ltb 0 w.float_h)
    then (let (width, height) =
          clamp_to_hints w.float_w w.float_h w.min_width w.min_height w.max_width w.max_height in
        propose_dimensions w.proxy (to_i32 width) (to_i32 height) ∷ [])
    else []

unfoldable pub concat_map {ℓ} : {A : Type ℓ} → (A → List Request) → List A → List Request
concat_map f [] = []
concat_map f (x ∷ xs) = f x ++ concat_map f xs

unfoldable pub propose_all : AppData → List Request
unfolding concat_map propose_tile propose_float
propose_all d =
    concat_map (propose_tile d.state) (compute_all d.floats d.state d.config)
    ++ concat_map propose_float d.state.windows

abbrev pub all_edges : Edges
all_edges = record { top = true; bottom = true; left = true; right = true }

unfoldable pub tell_tiled : Window → Window × List Request
tell_tiled w =
    let tiled = not w.floating && not w.fullscreen in
    if same_flag w.tiled_applied tiled then (w, []) else (
      record w { tiled_applied = some tiled },
      set_tiled w.proxy (if tiled then all_edges else no_edges) ∷ [],
    )

unfoldable pub tell_each : List Window → List Window × List Request
unfolding tell_tiled
tell_each [] = ([], [])
tell_each (w ∷ ws) =
    let (w', sent) = tell_tiled w in let (ws', more) = tell_each ws in (w' ∷ ws', sent ++ more)

-- Resize-mode bindings are enabled in resize mode only, all others always.
unfoldable pub binding_request : Bool → Bound → Request
unfolding is_resize_binding
binding_request resize_mode b =
    if is_resize_binding b.action
    then if resize_mode then enable b.proxy else disable b.proxy
    else enable b.proxy

unfoldable pub enable_bindings : AppData → List Request
unfolding binding_request
enable_bindings d =
    map (binding_request d.state.resize_mode) d.bindings
    ++ map (λ b. enable b.proxy) d.pointer_bindings

unfoldable pub warp_requests : State → Option ℕ → List Request
unfolding add_i32 half_i32 to_i32
warp_requests s target = elim (and_then target (get_elem? s.outputs)) [
  | none ↦ []
  | some o ↦
      map
        (λ seat.
          pointer_warp seat.proxy (add_i32 o.x (half_i32 (to_i32 o.width)))
            (add_i32 o.y (half_i32 (to_i32 o.height))))
        s.seats
]

-- The steps up to the routing of focus.
unfoldable pub sync_windows : AppData → AppData
unfolding hide_all close_requests sync_each send
sync_windows d =
    let (ws, sent) = sync_each d.config.use_ssd d.state d.state.windows in
    send (hide_all d.state.windows ++ (close_requests d.state d.pending_close ++ sent))
      (record d { state = record d.state { windows = ws }; pending_close = [] })

-- The steps behind it.
unfoldable pub finish_manage : AppData → AppData
unfolding propose_all tell_each enable_bindings warp_requests send
finish_manage d =
    let (ws, sent) = tell_each d.state.windows in
    send
      (propose_all d
        ++ (sent
            ++ (enable_bindings d
                ++ (warp_requests d.state d.pending_pointer_warp ++ manage_finish ∷ []))))
      (record d { state = record d.state { windows = ws }; pending_pointer_warp = none })

unfoldable pub on_manage_start : AppData → Outcome AppData
unfolding process_pointer_ops sync_windows set_layer_default finish_manage
on_manage_start d = do
  let started = process_pointer_ops d
  s ← refocus_from (length started.state.outputs) 0 started.state
  d' ← route_focus (set_layer_default (sync_windows (with_state started s)))
  done (finish_manage d')
