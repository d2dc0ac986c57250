-- ===== src/Events/Requests/Seats.antt =====
-- The requests of the events of seats (src/events.rs).
use streamwm.Base.{
  refl, ℕ, Option, none, some, List, [], ◌∷◌, inl, inr, ◌==◌, ◌&&◌, same_opt, All-append,
  Option-cases, Bool-cases, done, IfDone, IfDone-bind, if-IfDone, find, position, retain,
}
use streamwm.Base.Int.{ℤ}
use streamwm.Protocol.{ObjectId, Request, bind, get_pointer, destroy, release}
use streamwm.Protocol.Sequence.{idle}
use streamwm.App.{AppData, with_state, send}
use streamwm.App.Requests.{Within, Quiet, send-Quiet, request_manage-Quiet, if-Quiet, map-Within}
use streamwm.State.{Seat, find_window_by_proxy}
use streamwm.Bindings.Requests.{apply_pointer_delta-Quiet, end_pointer_op-Quiet}
use streamwm.Events.OnSeat.{
  SeatEvent, op_delta, op_release, wl_seat, pointer_enter, pointer_leave, window_interaction,
  pointer_position, focus_window_on_output, bind_wl_seat, enter_window, pointer_entered, interacted,
  contains_point, follow_pointer, pointer_moved, dropped, update_seat, retired_seat, forget_seat,
  remove_seat, seat_event, of_seat,
}

dropped-Within : (ss : List Seat) → Within idle (dropped ss)
unfolding dropped
dropped-Within [] = tt
dropped-Within (s ∷ ss) =
    All-append _ _ _ (shape s.cursor_shape)
      (All-append _ _ _ (pointer s.pointer) (dropped-Within ss))
  where
    shape : (c : Option ObjectId) → Within idle (elim c [ none ↦ [] | some x ↦ destroy x ∷ [] ])
    shape none = tt
    shape (some x) = (refl, tt)

    pointer : (c : Option ObjectId) → Within idle (elim c [ none ↦ [] | some x ↦ release x ∷ [] ])
    pointer none = tt
    pointer (some x) = (refl, tt)

retired_seat-Within : (ss : List Seat) (sid : ObjectId) → Within idle (retired_seat ss sid)
unfolding retired_seat
retired_seat-Within ss sid = elim (Option-cases (find (λ s. s.proxy == sid) ss)) [
  | inl e ↦ rw (e, retired_seat) tt
  | inr (s, e) ↦ rw (e, retired_seat) (All-append _ _ _ (layer s.layer) (refl, tt))
]
  where
    layer : (c : Option ObjectId) → Within idle (elim c [ none ↦ [] | some x ↦ destroy x ∷ [] ])
    layer none = tt
    layer (some x) = (refl, tt)

module _ (before : List Request) where
  bind_wl_seat-Quiet :
      (d : AppData) (sid : ObjectId) (name : ℕ)
      → Quiet before d
      → Quiet before (bind_wl_seat d sid name)
  unfolding bind_wl_seat
  bind_wl_seat-Quiet d sid name v =
      let d1 = send (bind name ∷ []) d in
      let d2 = send (get_pointer (d.object d1.sent) ∷ []) d1 in
      let v2 : Quiet before d2 =
        send-Quiet before _ d1 (refl, tt) (send-Quiet before _ d (refl, tt) v) in
      elim (Bool-cases (d.registry && d.qh)) [
        | inr off ↦ rw off v
        | inl on ↦ elim (Option-cases d.cursor_shape) [
          | inl e ↦ rw (on, e, bind_wl_seat) v2
          | inr (manager, e) ↦ rw (on, e, bind_wl_seat) (send-Quiet before _ d2 (refl, tt) v2)
        ]
      ]

  enter_window-Quiet :
      (d : AppData) (wid : ℕ) → Quiet before d → IfDone (enter_window d wid) (Quiet before)
  unfolding enter_window
  enter_window-Quiet d wid v =
      if-IfDone d.config.focus_follows_mouse _ (done d) (Quiet before)
        (IfDone-bind (focus_window_on_output d.state wid) _ (Quiet before) (λ r.
          if-Quiet before r.1 _ (with_state d r.0)
            (request_manage-Quiet before (with_state d r.0) v) v))
        v

  pointer_entered-Quiet :
      (d : AppData) (sid : ObjectId) (found : Option ℕ)
      → Quiet before d
      → IfDone (pointer_entered d sid found) (Quiet before)
  unfolding pointer_entered
  pointer_entered-Quiet d sid none v = v
  pointer_entered-Quiet d sid (some wid) v = enter_window-Quiet _ wid v

  interacted-Quiet :
      (d : AppData) (found : Option ℕ) → Quiet before d → IfDone (interacted d found) (Quiet before)
  unfolding interacted
  interacted-Quiet d none v = v
  interacted-Quiet d (some wid) v =
      IfDone-bind (focus_window_on_output _ wid) _ (Quiet before) (λ r. v)

  follow_pointer-Quiet :
      (d : AppData) (found : Option ℕ) → Quiet before d → Quiet before (follow_pointer d found)
  unfolding follow_pointer
  follow_pointer-Quiet d none v = v
  follow_pointer-Quiet d (some i) v =
      if-Quiet before (same_opt d.state.focused_output (some i)) d _ v
        (request_manage-Quiet before _ v)

  pointer_moved-Quiet :
      (d : AppData) (sid : ObjectId) (x y : ℤ)
      → Quiet before d
      → Quiet before (pointer_moved d sid x y)
  unfolding pointer_moved
  pointer_moved-Quiet d sid x y v =
      let d' = with_state d (record d.state {
        seats = update_seat sid (λ s. record s { pointer_x = x; pointer_y = y }) d.state.seats;
      }) in
      let found = position (contains_point x y) d.state.outputs in
      if-Quiet before d.config.focus_follows_mouse (follow_pointer d' found) d'
        (follow_pointer-Quiet d' found v) v

  remove_seat-Quiet :
      (d : AppData) (sid : ObjectId) → Quiet before d → Quiet before (remove_seat d sid)
  unfolding remove_seat forget_seat
  remove_seat-Quiet d sid v =
      let ss = d.state.seats in
      send-Quiet before _ (forget_seat d sid)
        (All-append _ _ _ (retired_seat-Within ss sid)
          (dropped-Within (retain (λ s. s.proxy == sid) ss)))
        (send-Quiet before _ d
          (All-append _ _ _ (map-Within idle _ (retain (of_seat sid) d.bindings) (λ _. refl))
            (map-Within idle _ (retain (of_seat sid) d.pointer_bindings) (λ _. refl)))
          v)

  pub seat_event-Quiet :
      (d : AppData) (sid : ObjectId) (e : SeatEvent)
      → Quiet before d
      → IfDone (seat_event d sid e) (Quiet before)
  unfolding seat_event
  seat_event-Quiet d sid (op_delta dx dy) v = apply_pointer_delta-Quiet before d dx dy v
  seat_event-Quiet d sid op_release v = end_pointer_op-Quiet before d v
  seat_event-Quiet d sid (wl_seat name) v = bind_wl_seat-Quiet d sid name v
  seat_event-Quiet d sid (pointer_enter window) v =
      pointer_entered-Quiet d sid (find_window_by_proxy d.state window) v
  seat_event-Quiet d sid pointer_leave v = v
  seat_event-Quiet d sid (window_interaction window) v =
      interacted-Quiet d (find_window_by_proxy d.state window) v
  seat_event-Quiet d sid (pointer_position x y) v = pointer_moved-Quiet d sid x y v
  seat_event-Quiet d sid SeatEvent.removed v = remove_seat-Quiet d sid v
  seat_event-Quiet d sid SeatEvent.other_event v = v
