-- ===== src/Events/OnSeat.antt =====
-- src/events.rs: the events of `river_seat_v1`, and `focus_window_on_output`.
use streamwm.Base.{
  ℕ, Bool, true, false, Option, none, some, List, [], ◌∷◌, ◌++◌, map, if◌then◌else◌, ◌==◌, ◌&&◌,
  not, ltb, same_opt, and_then, is_some_and, length, find, position, retain, modify, Outcome, done,
  index, ◌>>=◌,
}
use streamwm.Base.Int.{ℤ, ltb_ℤ, to_i32, add_i32}
use streamwm.Protocol.{ObjectId, Request, destroy, bind, get_pointer, get_shape_device}
use streamwm.App.{Bound, AppData, with_state, send, request_manage}
use streamwm.State.{
  State, Output, Seat, find_window, update_window, find_window_by_proxy, tag_owner,
}
use streamwm.State.Focus.{switch_active_tag}
use streamwm.Bindings.Pointer.{apply_pointer_delta, end_pointer_op}

pub data SeatEvent : Type 0 where
  op_delta : ℤ → ℤ → SeatEvent
  op_release : SeatEvent
  wl_seat : ℕ → SeatEvent
  pointer_enter window_interaction : ObjectId → SeatEvent
  pointer_leave : SeatEvent
  pointer_position : ℤ → ℤ → SeatEvent
  removed other_event : SeatEvent

-- `tag_owner(tag).filter(|o| *o < outputs.len())`
unfoldable pub live_owner : State → ℕ → Option ℕ
unfolding tag_owner
live_owner s tag =
    and_then (tag_owner s tag) (λ o. if ltb o (length s.outputs) then some o else none)

-- Is the window in focus, on the active tag of the focused output, already?
unfoldable pub has_focus : State → ℕ → ℕ → ℕ → Output → Bool
has_focus s wid tag idx o =
    same_opt s.focused_output (some idx)
    && (o.active_tag == tag && same_opt o.focused_window (some wid))

unfoldable pub focus_unless : Bool → State → ℕ → ℕ → ℕ → Outcome (State × Bool)
focus_unless true s wid tag idx = done (s, false)
focus_unless false s wid tag idx = do
  s' ←
      switch_active_tag
        (record s {
          focused_output = some idx;
          outputs = modify s.outputs idx (λ x. record x { focused_window = some wid });
        })
        idx tag
  done (s', true)

unfoldable pub focus_on : State → ℕ → ℕ → ℕ → Outcome (State × Bool)
unfolding focus_unless has_focus
focus_on s wid tag idx = do
  o ← index s.outputs idx
  focus_unless (has_focus s wid tag idx o) s wid tag idx

-- The state, and whether it changed.
unfoldable pub focus_window_on_output : State → ℕ → Outcome (State × Bool)
unfolding find_window live_owner
focus_window_on_output s wid = elim (find_window s wid) [
  | none ↦ done (s, false)
  | some w ↦ elim (live_owner s w.tag) [
    | none ↦ done (s, false)
    | some idx ↦ focus_on s wid w.tag idx
  ]
]

-- The first seat with this object, changed.
unfoldable pub update_seat : ObjectId → (Seat → Seat) → List Seat → List Seat
update_seat sid f [] = []
update_seat sid f (s ∷ ss) = if s.proxy == sid then f s ∷ ss else s ∷ update_seat sid f ss

abbrev edit_seat : State → ObjectId → (Seat → Seat) → State
edit_seat s sid f = record s { seats = update_seat sid f s.seats }

unfoldable pub bind_wl_seat : AppData → ObjectId → ℕ → AppData
unfolding send update_seat
bind_wl_seat d sid name =
    if d.registry && d.qh
    then (let d1 = send (bind name ∷ []) d in
        let d2 = send (get_pointer (d.object d1.sent) ∷ []) d1 in
        let pointer = d.object d2.sent in
        elim d.cursor_shape [
          | none ↦ with_state d2 (
              edit_seat d.state sid (λ s. record s { pointer = some pointer; cursor_shape = none }))
          | some manager ↦
              let d3 = send (get_shape_device pointer ∷ []) d2 in
              with_state d3 (
                edit_seat d.state sid (λ s. record s {
                  pointer = some pointer;
                  cursor_shape = some (d.object d3.sent);
                }))
        ])
    else d

unfoldable pub enter_window : AppData → ℕ → Outcome AppData
unfolding request_manage
enter_window d wid =
    if d.config.focus_follows_mouse
    then (do
      r ← focus_window_on_output d.state wid
      done (if r.1 then request_manage (with_state d r.0) else with_state d r.0))
    else done d

unfoldable pub pointer_entered : AppData → ObjectId → Option ℕ → Outcome AppData
unfolding update_seat
pointer_entered d sid none = done d
pointer_entered d sid (some wid) =
    enter_window
      (with_state d (edit_seat d.state sid (λ s. record s { pointer_window = some wid }))) wid

unfoldable pub interacted : AppData → Option ℕ → Outcome AppData
unfolding update_window
interacted d none = done d
interacted d (some wid) = do
  r ← focus_window_on_output (update_window d.state wid (λ w. record w { minimized = false })) wid
  done (with_state d r.0)

unfoldable pub contains_point : ℤ → ℤ → Output → Bool
unfolding add_i32 to_i32
contains_point x y o =
    not (ltb_ℤ x o.x)
    && (ltb_ℤ x (add_i32 o.x (to_i32 o.width))
        && (not (ltb_ℤ y o.y) && ltb_ℤ y (add_i32 o.y (to_i32 o.height))))

unfoldable pub follow_pointer : AppData → Option ℕ → AppData
unfolding request_manage
follow_pointer d none = d
follow_pointer d (some idx) =
    if same_opt d.state.focused_output (some idx)
    then d
    else request_manage (with_state d (record d.state { focused_output = some idx }))

unfoldable pub pointer_moved : AppData → ObjectId → ℤ → ℤ → AppData
unfolding update_seat contains_point follow_pointer
pointer_moved d sid x y =
    let d' =
      with_state d (edit_seat d.state sid (λ s. record s { pointer_x = x; pointer_y = y })) in
    if d.config.focus_follows_mouse
    then follow_pointer d' (position (contains_point x y) d.state.outputs)
    else d'

unfoldable pub of_seat : ObjectId → Bound → Bool
of_seat sid b = b.owner == sid

abbrev destroyed : List Bound → List Request
destroyed bs = map (λ b. destroy b.proxy) bs

-- `Drop for Seat`, for each seat that is dropped.
unfoldable pub dropped : List Seat → List Request
dropped [] = []
dropped (s ∷ ss) =
    elim s.cursor_shape [ none ↦ [] | some c ↦ destroy c ∷ [] ]
    ++ (elim s.pointer [ none ↦ [] | some p ↦ Request.release p ∷ [] ] ++ dropped ss)

unfoldable pub retired_seat : List Seat → ObjectId → List Request
retired_seat ss sid = elim (find (λ s. s.proxy == sid) ss) [
  | none ↦ []
  | some s ↦ elim s.layer [ none ↦ [] | some l ↦ destroy l ∷ [] ] ++ destroy s.proxy ∷ []
]

-- The bindings and the pointer operations of a seat that is gone.
unfoldable pub forget_seat : AppData → ObjectId → AppData
unfolding of_seat send
forget_seat d sid =
    let keys = retain (of_seat sid) d.bindings in
    let buttons = retain (of_seat sid) d.pointer_bindings in
    let driven = is_some_and d.pointer_op (λ op. op.seat == sid) in
    let queued = is_some_and d.pending_op (λ op. op.seat == sid) in
    send (destroyed keys ++ destroyed buttons) (record d {
      bindings = retain (λ b. not (of_seat sid b)) d.bindings;
      pointer_bindings = retain (λ b. not (of_seat sid b)) d.pointer_bindings;
      pointer_op = if driven then none else d.pointer_op;
      op_end_requested = if driven then false else d.op_end_requested;
      pending_op = if queued then none else d.pending_op;
    })

unfoldable pub remove_seat : AppData → ObjectId → AppData
unfolding forget_seat send retired_seat dropped
remove_seat d sid =
    let d' = forget_seat d sid in
    let ss = d.state.seats in
    send (retired_seat ss sid ++ dropped (retain (λ s. s.proxy == sid) ss))
      (with_state d' (record d.state { seats = retain (λ s. not (s.proxy == sid)) ss }))

unfoldable pub seat_event : AppData → ObjectId → SeatEvent → Outcome AppData
unfolding apply_pointer_delta end_pointer_op bind_wl_seat pointer_moved remove_seat
    find_window_by_proxy update_seat
seat_event d sid (op_delta dx dy) = done (apply_pointer_delta d dx dy)
seat_event d sid op_release = done (end_pointer_op d)
seat_event d sid (wl_seat name) = done (bind_wl_seat d sid name)
seat_event d sid (pointer_enter window) =
    pointer_entered d sid (find_window_by_proxy d.state window)
seat_event d sid pointer_leave =
    done (with_state d (edit_seat d.state sid (λ s. record s { pointer_window = none })))
seat_event d sid (window_interaction window) = interacted d (find_window_by_proxy d.state window)
seat_event d sid (pointer_position x y) = done (pointer_moved d sid x y)
seat_event d sid removed = done (remove_seat d sid)
seat_event d sid other_event = done d
