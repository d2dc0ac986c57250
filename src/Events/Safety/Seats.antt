-- ===== src/Events/Safety/Seats.antt =====
-- The events of seats (src/events.rs).
use streamwm.Base.{
  ℕ, ◌<◌, ◌≡◌, refl, subst, sym, Bool, true, false, Option, none, some, inl, inr, length, modify,
  length-modify, position, Bool-cases, Option-cases, done, Returns, Returns-bind, index-of_lt,
  All-find, find, ◌==◌, ◌&&◌,
}
use streamwm.Base.Int.{ℤ}
use streamwm.Protocol.{ObjectId}
use streamwm.App.{AppData, with_state, send}
use streamwm.App.Safe.{Safe, either-Safe, either-Returns, request_manage-Safe, edit_window-Safe}
use streamwm.State.{
  State, Output, num_tags, tag_owner, find_window, find_window_by_proxy, update_window,
}
use streamwm.State.Invariant.{
  WellFormed, modify_output-WellFormed, focus-WellFormed, seats-WellFormed,
}
use streamwm.State.Focus.{switch_active_tag}
use streamwm.State.Focus.Safety.{switch_active_tag-WellFormed}
use streamwm.State.Outputs.Ranges.{position-lt}
use streamwm.Bindings.Pointer.Safety.{apply_pointer_delta-Safe, end_pointer_op-Safe}
use streamwm.Events.Safety.{live_owner-lt}
use streamwm.Events.OnSeat.{
  SeatEvent, op_delta, op_release, wl_seat, pointer_enter, pointer_leave, window_interaction,
  pointer_position, removed, other_event, live_owner, has_focus, focus_unless, focus_on,
  focus_window_on_output, bind_wl_seat, enter_window, pointer_entered, interacted, contains_point,
  follow_pointer, pointer_moved, forget_seat, remove_seat, seat_event,
}

focus_unless-WellFormed :
    (b : Bool) (s : State) (wid tag idx : ℕ)
    → idx < length s.outputs
    → tag < num_tags
    → tag_owner s tag ≡ some idx
    → WellFormed s
    → Returns (focus_unless b s wid tag idx) (λ r. WellFormed r.0)
unfolding focus_unless tag_owner
focus_unless-WellFormed true s wid tag idx h k owns v = v
focus_unless-WellFormed false s wid tag idx h k owns v =
    let f : Output → Output = λ x. record x { focused_window = some wid } in
    let here : idx < length (modify s.outputs idx f) =
      subst (λ n. idx < n) (sym (length-modify s.outputs idx f)) h in
    Returns-bind
      (switch_active_tag (record s { focused_output = some idx; outputs = modify s.outputs idx f })
        idx tag)
      _ WellFormed (λ r. WellFormed r.0)
      (switch_active_tag-WellFormed _ idx tag here k owns (
        focus-WellFormed (record s { outputs = modify s.outputs idx f }) (some idx) here
          (modify_output-WellFormed s idx f (λ _ u. u) (λ _. refl) v)))
      (λ s' w. w)

focus_on-WellFormed :
    (s : State) (wid tag idx : ℕ)
    → idx < length s.outputs
    → tag < num_tags
    → tag_owner s tag ≡ some idx
    → WellFormed s
    → Returns (focus_on s wid tag idx) (λ r. WellFormed r.0)
unfolding focus_on
focus_on-WellFormed s wid tag idx h k owns v =
    let (o, _, e) = index-of_lt s.outputs idx h in
    rw e (focus_unless-WellFormed (has_focus s wid tag idx o) s wid tag idx h k owns v)

focus_window_on_output-WellFormed :
    (s : State) (wid : ℕ)
    → WellFormed s
    → Returns (focus_window_on_output s wid) (λ r. WellFormed r.0)
unfolding focus_window_on_output find_window
focus_window_on_output-WellFormed s wid v =
    elim (Option-cases (find (λ w. w.id == wid) s.windows)) [
      | inl e ↦ rw (e, focus_window_on_output) v
      | inr (w, e) ↦ elim (Option-cases (live_owner s w.tag)) [
        | inl gone ↦ rw (e, gone, focus_window_on_output) v
        | inr (i, live) ↦
            rw (e, live, focus_window_on_output)
              (focus_on-WellFormed s wid w.tag i (live_owner-lt s w.tag i live).0
                (All-find _ _ s.windows w e v.ranged.placed) (live_owner-lt s w.tag i live).1 v)
      ]
    ]

enter_window-Safe : (d : AppData) (wid : ℕ) → Safe d → Returns (enter_window d wid) Safe
unfolding enter_window
enter_window-Safe d wid v =
    either-Returns d.config.focus_follows_mouse _ (done d)
      (Returns-bind (focus_window_on_output d.state wid) _ (λ r. WellFormed r.0) Safe
        (focus_window_on_output-WellFormed d.state wid v.0)
        (λ r w.
          either-Safe r.1 _ (with_state d r.0) (request_manage-Safe (with_state d r.0) (w, v.1))
            (w, v.1)))
      v

interacted-Safe : (d : AppData) (found : Option ℕ) → Safe d → Returns (interacted d found) Safe
unfolding interacted
interacted-Safe d none v = v
interacted-Safe d (some wid) v =
    Returns-bind
      (focus_window_on_output (update_window d.state wid (λ w. record w { minimized = false })) wid)
      _ (λ r. WellFormed r.0) Safe
      (focus_window_on_output-WellFormed _ wid
        (edit_window-Safe d wid (λ w. record w { minimized = false }) (λ _ k. k) v).0)
      (λ r w. (w, v.1))

pointer_entered-Safe :
    (d : AppData) (sid : ObjectId) (found : Option ℕ)
    → Safe d
    → Returns (pointer_entered d sid found) Safe
unfolding pointer_entered
pointer_entered-Safe d sid none v = v
pointer_entered-Safe d sid (some wid) v =
    enter_window-Safe _ wid (seats-WellFormed d.state _ v.0, v.1)

follow_pointer-Safe :
    (d : AppData) (found : Option ℕ)
    → ((i : ℕ) → found ≡ some i → i < length d.state.outputs)
    → Safe d
    → Safe (follow_pointer d found)
unfolding follow_pointer
follow_pointer-Safe d none h v = v
follow_pointer-Safe d (some i) h v = either-Safe _ d _ v (
    request_manage-Safe (with_state d (record d.state { focused_output = some i }))
      (focus-WellFormed d.state (some i) (h i refl) v.0, v.1))

pointer_moved-Safe :
    (d : AppData) (sid : ObjectId) (x y : ℤ) → Safe d → Safe (pointer_moved d sid x y)
unfolding pointer_moved
pointer_moved-Safe d sid x y v =
    either-Safe d.config.focus_follows_mouse _ _
      (follow_pointer-Safe _ (position (contains_point x y) d.state.outputs)
        (λ i e. position-lt _ d.state.outputs i e) (seats-WellFormed d.state _ v.0, v.1))
      (seats-WellFormed d.state _ v.0, v.1)

bind_wl_seat-Safe :
    (d : AppData) (sid : ObjectId) (name : ℕ) → Safe d → Safe (bind_wl_seat d sid name)
unfolding bind_wl_seat send
bind_wl_seat-Safe d sid name v = elim (Bool-cases (d.registry && d.qh)) [
  | inl on ↦ elim (Option-cases d.cursor_shape) [
    | inl e ↦ rw (on, e, bind_wl_seat) (seats-WellFormed d.state _ v.0, v.1)
    | inr (manager, e) ↦ rw (on, e, bind_wl_seat) (seats-WellFormed d.state _ v.0, v.1)
  ]
  | inr off ↦ rw off v
]

remove_seat-Safe : (d : AppData) (sid : ObjectId) → Safe d → Safe (remove_seat d sid)
unfolding remove_seat forget_seat send
remove_seat-Safe d sid v = (seats-WellFormed d.state _ v.0, v.1)

-- Every event of a seat returns on data with a well-formed state and a queue handle, and leaves
-- such data.
pub seat_event-Safe :
    (d : AppData) (sid : ObjectId) (e : SeatEvent) → Safe d → Returns (seat_event d sid e) Safe
unfolding seat_event
seat_event-Safe d sid (op_delta dx dy) v = apply_pointer_delta-Safe d dx dy v
seat_event-Safe d sid op_release v = end_pointer_op-Safe d v
seat_event-Safe d sid (wl_seat name) v = bind_wl_seat-Safe d sid name v
seat_event-Safe d sid (pointer_enter window) v =
    pointer_entered-Safe d sid (find_window_by_proxy d.state window) v
seat_event-Safe d sid pointer_leave v = (seats-WellFormed d.state _ v.0, v.1)
seat_event-Safe d sid (window_interaction window) v =
    interacted-Safe d (find_window_by_proxy d.state window) v
seat_event-Safe d sid (pointer_position x y) v = pointer_moved-Safe d sid x y v
seat_event-Safe d sid removed v = remove_seat-Safe d sid v
seat_event-Safe d sid other_event v = v
