-- ===== src/Wm/Requests/Start.antt =====
-- The requests of the first part of a manage sequence (src/wm/mod.rs): pointer operations, windows
-- that are closed or synchronized, and the routing of the focus.
use streamwm.Base.{
  refl, ℕ, Bool, true, false, Option, none, some, List, [], ◌∷◌, inl, inr, ◌&&◌, ◌==◌, All-append,
  Bool-cases, Option-cases, find, IfDone, IfDone-bind, if◌then◌else◌,
}
use streamwm.Protocol.{ObjectId, Request}
use streamwm.Protocol.Sequence.{managing}
use streamwm.App.{AppData, send}
use streamwm.App.Requests.{Within, Adds, Adds-refl, Adds-more, map-Within, if-sent-Within}
use streamwm.State.{State, Window, Seat, find_window}
use streamwm.Bindings.Action.{focused_window}
use streamwm.Bindings.Pointer.{
  seat_cursor, set_seat_cursor, start_queued, end_requested, cursor_shape,
}
use streamwm.Protocol.{Shape, default_shape}
use streamwm.Wm.Manage.{
  hide_all, close_requests, drop_lost_fullscreen, send_caps, send_decoration, apply_fullscreen,
  sync_window, sync_each, set_layer_default, route_focus, first_layer, focus_requests, sync_windows,
  same_flag, fullscreen_target, has_lost_output,
}

abbrev Managed : List Request → Type 0
Managed rs = Within managing rs

seat_cursor-Managed : (seat : Seat) (shape : Shape) → Managed (seat_cursor seat shape)
unfolding seat_cursor
seat_cursor-Managed seat shape = elim (Option-cases seat.pointer) [
  | inl e ↦ rw (e, seat_cursor) tt
  | inr (p, e) ↦ elim (Option-cases seat.cursor_shape) [
    | inl e' ↦ rw (e, e', seat_cursor) (refl, tt)
    | inr (c, e') ↦ rw (e, e', seat_cursor) (refl, tt)
  ]
]

set_seat_cursor-Managed :
    (s : State) (seat : ObjectId) (shape : Shape) → Managed (set_seat_cursor s seat shape)
unfolding set_seat_cursor
set_seat_cursor-Managed s seat shape = elim (Option-cases (find (λ x. x.proxy == seat) s.seats)) [
  | inl e ↦ rw (e, set_seat_cursor) tt
  | inr (x, e) ↦ rw (e, set_seat_cursor) (seat_cursor-Managed x shape)
]

send-Managed :
    (d : AppData) (rs : List Request) → Managed rs → Adds managing d.sent (send rs d).sent
unfolding send
send-Managed d rs h = Adds-more managing d.sent rs h

pub start_queued-Managed : (d : AppData) → Adds managing d.sent (start_queued d).sent
unfolding start_queued
start_queued-Managed d = elim (Option-cases d.pending_op) [
  | inl e ↦ rw (e, start_queued) (Adds-refl managing d.sent)
  | inr (op, e) ↦
      rw (e, start_queued)
        (send-Managed d _ (
          All-append _ _ _ (set_seat_cursor-Managed d.state op.seat (cursor_shape op.kind op.edges))
            (refl, tt)))
]

pub end_requested-Managed : (d : AppData) → Adds managing d.sent (end_requested d).sent
unfolding end_requested
end_requested-Managed d = elim (Bool-cases d.op_end_requested) [
  | inr off ↦ rw (off, end_requested) (Adds-refl managing d.sent)
  | inl on ↦ elim (Option-cases d.pointer_op) [
    | inl e ↦ rw (on, e, end_requested) (Adds-refl managing d.sent)
    | inr (op, e) ↦
        rw (on, e, end_requested)
          (send-Managed d _ (refl, set_seat_cursor-Managed d.state op.seat default_shape))
  ]
]

close_requests-Managed : (s : State) (fids : List ℕ) → Managed (close_requests s fids)
unfolding close_requests
close_requests-Managed s [] = tt
close_requests-Managed s (fid ∷ fids) = elim (Option-cases (find_window s fid)) [
  | inl e ↦ rw (e, close_requests) (close_requests-Managed s fids)
  | inr (w, e) ↦ rw (e, close_requests) (refl, close_requests-Managed s fids)
]

apply_fullscreen-Managed :
    (target : Option ObjectId) (w : Window) → Managed (apply_fullscreen target w).1
unfolding apply_fullscreen
apply_fullscreen-Managed none w =
    if-sent-Within managing w.fullscreen _ _
      (if-sent-Within managing w.fullscreen_applied _ _ tt tt)
      (if-sent-Within managing w.fullscreen_applied _ _ (refl, (refl, tt)) tt)
apply_fullscreen-Managed (some o) w =
    if-sent-Within managing w.fullscreen _ _
      (if-sent-Within managing w.fullscreen_applied _ _ tt (refl, (refl, tt)))
      (if-sent-Within managing w.fullscreen_applied _ _ (refl, (refl, tt)) tt)

send_decoration-Managed : (ssd : Bool) (w : Window) → Managed (send_decoration ssd w).1
unfolding send_decoration
send_decoration-Managed ssd w =
    if-sent-Within managing (same_flag w.ssd_applied ssd) _ _ tt (decoration ssd)
  where
    decoration :
        (b : Bool) → Managed ((if b then Request.use_ssd w.proxy else Request.use_csd w.proxy) ∷ [])
    decoration true = (refl, tt)
    decoration false = (refl, tt)

sync_window-Managed :
    (ssd : Bool) (target : Option ObjectId) (lost : Bool) (w : Window)
    → Managed (sync_window ssd target lost w).1
unfolding sync_window drop_lost_fullscreen send_caps
sync_window-Managed ssd target lost w =
    let w1 = (drop_lost_fullscreen lost w).0 in
    let w2 = (send_caps w1).0 in
    All-append _ _ _ (if-sent-Within managing (w.fullscreen_applied && lost) _ _ (refl, tt) tt) (
      All-append _ _ _ (if-sent-Within managing w1.caps_set _ _ tt (refl, tt)) (
        All-append _ _ _ (send_decoration-Managed ssd w2)
          (apply_fullscreen-Managed target (send_decoration ssd w2).0)))

sync_each-Managed : (ssd : Bool) (s : State) (ws : List Window) → Managed (sync_each ssd s ws).1
unfolding sync_each
sync_each-Managed ssd s [] = tt
sync_each-Managed ssd s (w ∷ ws) =
    All-append _ _ _ (sync_window-Managed ssd (fullscreen_target s w) (has_lost_output s w) w)
      (sync_each-Managed ssd s ws)

pub sync_windows-Managed : (d : AppData) → Adds managing d.sent (sync_windows d).sent
unfolding sync_windows hide_all
sync_windows-Managed d = send-Managed d _ (
    All-append _ _ _ (map-Within managing _ d.state.windows (λ _. refl)) (
      All-append _ _ _ (close_requests-Managed d.state d.pending_close)
        (sync_each-Managed d.config.use_ssd d.state d.state.windows)))

pub set_layer_default-Managed : (d : AppData) → Adds managing d.sent (set_layer_default d).sent
unfolding set_layer_default
set_layer_default-Managed d = elim (Bool-cases d.layer_default_set) [
  | inl set ↦ rw (set, set_layer_default) (Adds-refl managing d.sent)
  | inr unset ↦ elim (Option-cases (first_layer d.state.outputs)) [
    | inl e ↦ rw (unset, e, set_layer_default) (Adds-refl managing d.sent)
    | inr (layer, e) ↦ rw (unset, e, set_layer_default) (send-Managed d _ (refl, tt))
  ]
]

focus_requests-Managed :
    (target : Option ObjectId) (seats : List Seat) → Managed (focus_requests target seats)
unfolding focus_requests
focus_requests-Managed none seats = map-Within managing _ seats (λ _. refl)
focus_requests-Managed (some w) seats = map-Within managing _ seats (λ _. refl)

pub route_focus-Managed :
    (d : AppData) → IfDone (route_focus d) (λ d'. Adds managing d.sent d'.sent)
unfolding route_focus
route_focus-Managed d =
    IfDone-bind (focused_window d.state) _ _
      (λ focus. send-Managed d _ (focus_requests-Managed _ d.state.seats))
