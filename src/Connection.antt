-- ===== src/Connection.antt =====
-- src/connection.rs: the events of `river_window_manager_v1`, and src/bindings.rs: binding the keys
-- and pointer buttons of a new seat.
pub mod Safety
pub mod Requests
use Prim.Native.String.{String}
use streamwm.Base.{
  ◌>>=◌, ℕ, ◌+◌, ◌-◌, ◌%◌, ◌^◌, Option, none, some, List, [], ◌∷◌, ◌++◌, if◌then◌else◌, is_some,
  ◌&&◌, map_opt, get_or_else, length, get_elem?, modify, Outcome, done, panic, true,
}
use streamwm.Protocol.{
  ObjectId, get_xkb_binding, get_pointer_binding, get_layer_output, get_layer_seat,
}
use streamwm.App.{AppData, with_state, send}
use streamwm.State.{new_window, new_output, new_seat, active_output}
use streamwm.State.Outputs.{assign_initial_tag}
use streamwm.Bindings.Keys.{Bind, parse_keysym, parse_modifiers, default_bindings}
use streamwm.Wm.Manage.{on_manage_start}
use streamwm.Wm.Render.{on_render_start}

pub data WmEvent : Type 0 where
  unavailable finished manage_start render_start session_locked session_unlocked : WmEvent
  window output seat : ObjectId → WmEvent

-- One new key binding for a seat. An unknown keysym costs that binding alone.
unfoldable pub bind_key : ObjectId → AppData → Bind → AppData
unfolding parse_keysym parse_modifiers send
bind_key sid d b = elim (parse_keysym b.keysym) [
  | none ↦ d
  | some keysym ↦
      let d' =
        send (get_xkb_binding sid keysym (parse_modifiers b.modifiers d.config.modifier) ∷ []) d in
      record d' {
        bindings =
            d.bindings ++ record { proxy = d.object d'.sent; action = b.action; owner = sid } ∷ [];
      }
]

unfoldable pub bind_keys : ObjectId → AppData → List Bind → AppData
unfolding bind_key
bind_keys sid d [] = d
bind_keys sid d (b ∷ bs) = bind_keys sid (bind_key sid d b) bs

-- `qh.expect("qh not set")`
unfoldable pub bind_for_seat : AppData → ObjectId → Outcome AppData
unfolding bind_keys default_bindings
bind_for_seat d sid = if d.qh then done (bind_keys sid d (default_bindings d.config)) else panic

abbrev pub btn_left : ℕ
btn_left = 0x110

abbrev pub btn_right : ℕ
btn_right = 0x111

unfoldable pub bind_button : ObjectId → ℕ → String → AppData → AppData
unfolding parse_modifiers send
bind_button sid button action d =
    let d' = send (get_pointer_binding sid button (parse_modifiers "" d.config.modifier) ∷ []) d in
    record d' {
      pointer_bindings =
          d.pointer_bindings
          ++ record { proxy = d.object d'.sent; action = action; owner = sid } ∷ [];
    }

unfoldable pub bind_pointer_for_seat : AppData → ObjectId → Outcome AppData
unfolding bind_button
bind_pointer_for_seat d sid =
    if d.qh
    then done (bind_button sid btn_right "resize" (bind_button sid btn_left "move" d))
    else panic

unfoldable pub new_window_event : AppData → ObjectId → AppData
unfolding new_window active_output
new_window_event d proxy =
    let s = d.state in
    let output = get_or_else (active_output s) 0 in
    let tag = get_or_else (map_opt (λ o. o.active_tag) (get_elem? s.outputs output)) 0 in
    let id = d.next_window_id in
    record d {
      next_window_id = (id + 1) % 2 ^ 32;
      state = record s {
        windows = s.windows ++ new_window proxy id tag ∷ [];
        outputs = modify s.outputs output (λ o. record o { focused_window = some id });
      };
    }

-- The layer-shell state of a new output, at the last index.
unfoldable pub give_output_layer : AppData → ℕ → ObjectId → AppData
unfolding send
give_output_layer d idx proxy =
    if is_some d.layer_shell && d.qh
    then (let d' = send (get_layer_output proxy ∷ []) d in
        with_state d' (record d.state {
          outputs = modify d.state.outputs idx (λ o. record o { layer = some (d.object d'.sent) });
        }))
    else d

abbrev pub focus_or : Option ℕ → ℕ → Option ℕ
focus_or none idx = some idx
focus_or (some o) idx = some o

unfoldable pub new_output_event : AppData → ObjectId → Outcome AppData
unfolding new_output give_output_layer
new_output_event d proxy = do
  let s = d.state
  let idx = length s.outputs
  s' ← assign_initial_tag (record s { outputs = s.outputs ++ new_output proxy ∷ [] }) idx
  done (
      give_output_layer
        (with_state d (record s' { focused_output = focus_or s'.focused_output idx })) idx proxy)

unfoldable pub give_seat_layer : AppData → ObjectId → AppData
unfolding send
give_seat_layer d sid =
    if is_some d.layer_shell && d.qh
    then (let d' = send (get_layer_seat sid ∷ []) d in
        let seats = d.state.seats in
        with_state d' (record d.state {
          seats =
              modify seats (length seats - 1) (λ s. record s { layer = some (d.object d'.sent) });
        }))
    else d

unfoldable pub new_seat_event : AppData → ObjectId → Outcome AppData
unfolding new_seat give_seat_layer
new_seat_event d proxy = do
  let d0 = with_state d (record d.state { seats = d.state.seats ++ new_seat proxy ∷ [] })
  d1 ← (if is_some d.xkb then bind_for_seat d0 proxy else done d0)
  d2 ← bind_pointer_for_seat d1 proxy
  done (give_seat_layer d2 proxy)

unfoldable pub wm_event : AppData → WmEvent → Outcome AppData
unfolding new_window_event
wm_event d unavailable = done (record d { quit = true })
wm_event d finished = done (record d { quit = true })
wm_event d (window proxy) = done (new_window_event d proxy)
wm_event d (output proxy) = new_output_event d proxy
wm_event d (seat proxy) = new_seat_event d proxy
wm_event d manage_start = on_manage_start d
wm_event d render_start = on_render_start d
wm_event d session_locked = done d
wm_event d session_unlocked = done d
