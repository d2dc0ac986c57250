-- ===== src/Connection/Requests.antt =====
-- The requests of the events of the window manager (src/connection.rs).
use Prim.Native.String.{String}
use streamwm.Base.{
  refl, ℕ, List, [], ◌∷◌, ◌++◌, inl, inr, ◌&&◌, is_some, Option-cases, IfDone, IfDone-bind,
  IfDone-then, if-IfDone, done, panic, length, if◌then◌else◌,
}
use streamwm.Protocol.{ObjectId, Request}
use streamwm.App.{AppData, with_state}
use streamwm.App.Requests.{Quiet, send-Quiet, if-Quiet}
use streamwm.State.{new_seat}
use streamwm.State.Outputs.{assign_initial_tag}
use streamwm.Bindings.Keys.{Bind, parse_keysym, default_bindings}
use streamwm.Connection.{
  bind_key, bind_keys, bind_for_seat, btn_left, btn_right, bind_button, bind_pointer_for_seat,
  new_window_event, give_output_layer, new_output_event, give_seat_layer, new_seat_event,
}

module _ (before : List Request) where
  bind_key-Quiet :
      (sid : ObjectId) (d : AppData) (b : Bind) → Quiet before d → Quiet before (bind_key sid d b)
  unfolding bind_key
  bind_key-Quiet sid d b v = elim (Option-cases (parse_keysym b.keysym)) [
    | inl unknown ↦ rw (unknown, bind_key) v
    | inr (k, known) ↦ rw (known, bind_key) (send-Quiet before _ d (refl, tt) v)
  ]

  bind_keys-Quiet :
      (sid : ObjectId) (d : AppData) (bs : List Bind)
      → Quiet before d
      → Quiet before (bind_keys sid d bs)
  unfolding bind_keys
  bind_keys-Quiet sid d [] v = v
  bind_keys-Quiet sid d (b ∷ bs) v =
      bind_keys-Quiet sid (bind_key sid d b) bs (bind_key-Quiet sid d b v)

  bind_for_seat-Quiet :
      (d : AppData) (sid : ObjectId) → Quiet before d → IfDone (bind_for_seat d sid) (Quiet before)
  unfolding bind_for_seat
  bind_for_seat-Quiet d sid v =
      if-IfDone d.qh _ panic (Quiet before) (bind_keys-Quiet sid d (default_bindings d.config) v) tt

  bind_button-Quiet :
      (sid : ObjectId) (button : ℕ) (action : String) (d : AppData)
      → Quiet before d
      → Quiet before (bind_button sid button action d)
  unfolding bind_button
  bind_button-Quiet sid button action d v = send-Quiet before _ d (refl, tt) v

  bind_pointer_for_seat-Quiet :
      (d : AppData) (sid : ObjectId)
      → Quiet before d
      → IfDone (bind_pointer_for_seat d sid) (Quiet before)
  unfolding bind_pointer_for_seat
  bind_pointer_for_seat-Quiet d sid v =
      if-IfDone d.qh _ panic (Quiet before)
        (bind_button-Quiet sid btn_right "resize" (bind_button sid btn_left "move" d)
          (bind_button-Quiet sid btn_left "move" d v))
        tt

  pub new_window_event-Quiet :
      (d : AppData) (proxy : ObjectId) → Quiet before d → Quiet before (new_window_event d proxy)
  unfolding new_window_event
  new_window_event-Quiet d proxy v = v

  give_output_layer-Quiet :
      (d : AppData) (idx : ℕ) (proxy : ObjectId)
      → Quiet before d
      → Quiet before (give_output_layer d idx proxy)
  unfolding give_output_layer
  give_output_layer-Quiet d idx proxy v =
      if-Quiet before (is_some d.layer_shell && d.qh) _ d (send-Quiet before _ d (refl, tt) v) v

  pub new_output_event-Quiet :
      (d : AppData) (proxy : ObjectId)
      → Quiet before d
      → IfDone (new_output_event d proxy) (Quiet before)
  unfolding new_output_event
  new_output_event-Quiet d proxy v =
      IfDone-bind (assign_initial_tag _ (length d.state.outputs)) _ (Quiet before)
        (λ s. give_output_layer-Quiet (with_state d _) _ proxy v)

  give_seat_layer-Quiet :
      (d : AppData) (sid : ObjectId) → Quiet before d → Quiet before (give_seat_layer d sid)
  unfolding give_seat_layer
  give_seat_layer-Quiet d sid v =
      if-Quiet before (is_some d.layer_shell && d.qh) _ d (send-Quiet before _ d (refl, tt) v) v

  pub new_seat_event-Quiet :
      (d : AppData) (proxy : ObjectId)
      → Quiet before d
      → IfDone (new_seat_event d proxy) (Quiet before)
  unfolding new_seat_event
  new_seat_event-Quiet d proxy v =
      let d0 = with_state d (record d.state { seats = d.state.seats ++ new_seat proxy ∷ [] }) in
      IfDone-then (if is_some d.xkb then bind_for_seat d0 proxy else done d0) _ (Quiet before)
        (Quiet before)
        (if-IfDone (is_some d.xkb) _ _ (Quiet before) (bind_for_seat-Quiet d0 proxy v) v)
        λ d1 v1.
          IfDone-then (bind_pointer_for_seat d1 proxy) _ (Quiet before) (Quiet before)
            (bind_pointer_for_seat-Quiet d1 proxy v1) (λ d2 v2. give_seat_layer-Quiet d2 proxy v2)
