-- ===== src/Connection/Safety.antt =====
-- New windows, outputs and seats (src/connection.rs) keep the data safe, and the manage and render
-- sequences too.
use Prim.Native.String.{String}
use streamwm.Base.{
  panic, ◌&&◌, ℕ, suc, ◌<◌, ◌≡◌, refl, sym, subst, Option, none, some, List, [], ◌∷◌, ◌++◌, inl,
  inr, arith, length, get_elem?, map_opt, get_or_else, Option-cases, done, Returns, Returns-bind,
  All-get, All-append, All-imp, length-append, is_some, if◌then◌else◌,
}
use streamwm.Protocol.{ObjectId}
use streamwm.App.{AppData, with_state, send}
use streamwm.App.Safe.{Safe, either-Safe, either-Returns}
use streamwm.State.{State, Output, num_tags, new_window, new_output, new_seat, active_output}
use streamwm.State.Ranges.{Ranged, OutputFits, TagsFit, Below}
use streamwm.State.Invariant.{
  WellFormed, modify_output-WellFormed, windows-WellFormed, focus-WellFormed, seats-WellFormed,
}
use streamwm.State.Outputs.{assign_initial_tag}
use streamwm.State.Outputs.Settled.{IsNormal, new_output-IsNormal}
use streamwm.Wm.Safety.{on_manage_start-Safe}
use streamwm.Wm.Safety.Render.{on_render_start-Safe}
use streamwm.Bindings.Keys.{Bind, parse_keysym, default_bindings}
use streamwm.Connection.{
  WmEvent, unavailable, finished, window, output, seat, manage_start, render_start, session_locked,
  session_unlocked, bind_key, bind_keys, bind_for_seat, btn_left, btn_right, bind_button,
  bind_pointer_for_seat, new_window_event, give_output_layer, focus_or, new_output_event,
  give_seat_layer, new_seat_event, wm_event,
}

-- The tag of a new window: the active one of an output, or the first.
shown_tag-lt :
    (s : State) (idx : ℕ)
    → WellFormed s
    → get_or_else (map_opt (λ o. o.active_tag) (get_elem? s.outputs idx)) 0 < num_tags
shown_tag-lt s idx v = elim (Option-cases (get_elem? s.outputs idx)) [
  | inl e ↦ rw e (omega arith)
  | inr (o, e) ↦ rw e (All-get _ s.outputs idx o e v.ranged.shown).0
]

new_window_event-Safe : (d : AppData) (proxy : ObjectId) → Safe d → Safe (new_window_event d proxy)
unfolding new_window_event new_window
new_window_event-Safe d proxy v =
    let s = d.state in
    let idx = get_or_else (active_output s) 0 in
    let w =
      new_window proxy d.next_window_id
        (get_or_else (map_opt (λ o. o.active_tag) (get_elem? s.outputs idx)) 0) in
    (
      modify_output-WellFormed (record s { windows = s.windows ++ w ∷ [] }) idx _ (λ _ k. k)
          (λ _. refl)
          (windows-WellFormed s _
            (All-append _ s.windows (w ∷ []) v.0.ranged.placed (shown_tag-lt s idx v.0, tt)) v.0),
      v.1,
    )

Below-suc : (n : ℕ) (o : Option ℕ) → Below n o → Below (suc n) o
Below-suc n none h = tt
Below-suc n (some i) h = omega arith

new_output-OutputFits : (proxy : ObjectId) → OutputFits (new_output proxy)
unfolding new_output
new_output-OutputFits proxy = omega arith

length-push : (s : State) (o : Output) → length (s.outputs ++ o ∷ []) ≡ suc (length s.outputs)
length-push s o = omega (arith, length-append s.outputs (o ∷ []))

-- The state with one more output, which owns nothing yet.
pushed-Ranged :
    (s : State) (o : Output)
    → OutputFits o
    → Ranged s
    → Ranged (record s { outputs = s.outputs ++ o ∷ [] })
pushed-Ranged s o h v =
    let more = length-push s o in
    record {
      tag_count = v.tag_count;
      owned =
          subst (λ n. TagsFit n s.tags) (sym more)
            (All-imp s.tags (λ t k. Below-suc _ t.output k) v.owned);
      focus =
          subst (λ n. Below n s.focused_output) (sym more) (Below-suc _ s.focused_output v.focus);
      shown = All-append _ s.outputs (o ∷ []) v.shown (h, tt);
      placed = v.placed;
    }

give_output_layer-Safe :
    (d : AppData) (idx : ℕ) (proxy : ObjectId) → Safe d → Safe (give_output_layer d idx proxy)
unfolding give_output_layer send
give_output_layer-Safe d idx proxy v =
    either-Safe (is_some d.layer_shell && d.qh) _ d
      (modify_output-WellFormed d.state idx _ (λ _ k. k) (λ _. refl) v.0, v.1) v

focus_or-Below : (n : ℕ) (f : Option ℕ) (idx : ℕ) → idx < n → Below n f → Below n (focus_or f idx)
focus_or-Below n none idx h k = h
focus_or-Below n (some i) idx h k = k

new_output_event-Safe :
    (d : AppData) (proxy : ObjectId) → Safe d → Returns (new_output_event d proxy) Safe
unfolding new_output_event
new_output_event-Safe d proxy v =
    let s : State = record d.state { outputs = d.state.outputs ++ new_output proxy ∷ [] } in
    let idx = length d.state.outputs in
    let here : idx < length s.outputs = omega (arith, length-push d.state (new_output proxy)) in
    Returns-bind (assign_initial_tag s idx) _ (IsNormal (length s.outputs)) Safe
      (new_output-IsNormal s idx (length-push d.state (new_output proxy)) v.0.ranged.owned
        (pushed-Ranged d.state (new_output proxy) (new_output-OutputFits proxy) v.0.ranged))
      λ s' w.
        give_output_layer-Safe
          (with_state d (record s' { focused_output = focus_or s'.focused_output idx })) idx proxy
          (
            focus-WellFormed s' (focus_or s'.focused_output idx)
                (focus_or-Below _ s'.focused_output idx (omega (arith, w.1)) w.0.ranged.focus) w.0,
            v.1,
          )

bind_key-Safe : (sid : ObjectId) (d : AppData) (b : Bind) → Safe d → Safe (bind_key sid d b)
unfolding bind_key send
bind_key-Safe sid d b v = elim (Option-cases (parse_keysym b.keysym)) [
  | inl unknown ↦ rw (unknown, bind_key) v
  | inr (k, known) ↦ rw (known, bind_key) v
]

bind_keys-Safe :
    (sid : ObjectId) (d : AppData) (bs : List Bind) → Safe d → Safe (bind_keys sid d bs)
unfolding bind_keys
bind_keys-Safe sid d [] v = v
bind_keys-Safe sid d (b ∷ bs) v = bind_keys-Safe sid (bind_key sid d b) bs (bind_key-Safe sid d b v)

bind_for_seat-Safe : (d : AppData) (sid : ObjectId) → Safe d → Returns (bind_for_seat d sid) Safe
unfolding bind_for_seat
bind_for_seat-Safe d sid v =
    subst
      (λ b. Returns (if b then done (bind_keys sid d (default_bindings d.config)) else panic) Safe)
      (sym v.1) (bind_keys-Safe sid d (default_bindings d.config) v)

bind_button-Safe :
    (sid : ObjectId) (button : ℕ) (action : String) (d : AppData)
    → Safe d
    → Safe (bind_button sid button action d)
unfolding bind_button send
bind_button-Safe sid button action d v = v

bind_pointer_for_seat-Safe :
    (d : AppData) (sid : ObjectId) → Safe d → Returns (bind_pointer_for_seat d sid) Safe
unfolding bind_pointer_for_seat
bind_pointer_for_seat-Safe d sid v =
    let d' = bind_button sid btn_right "resize" (bind_button sid btn_left "move" d) in
    subst (λ b. Returns (if b then done d' else panic) Safe) (sym v.1)
      (bind_button-Safe sid btn_right "resize" (bind_button sid btn_left "move" d)
        (bind_button-Safe sid btn_left "move" d v))

give_seat_layer-Safe : (d : AppData) (sid : ObjectId) → Safe d → Safe (give_seat_layer d sid)
unfolding give_seat_layer send
give_seat_layer-Safe d sid v =
    either-Safe (is_some d.layer_shell && d.qh) _ d (seats-WellFormed d.state _ v.0, v.1) v

new_seat_event-Safe :
    (d : AppData) (proxy : ObjectId) → Safe d → Returns (new_seat_event d proxy) Safe
unfolding new_seat_event
new_seat_event-Safe d proxy v =
    let d0 = with_state d (record d.state { seats = d.state.seats ++ new_seat proxy ∷ [] }) in
    let v0 : Safe d0 = (seats-WellFormed d.state _ v.0, v.1) in
    Returns-bind (if is_some d.xkb then bind_for_seat d0 proxy else done d0) _ Safe Safe
      (either-Returns (is_some d.xkb) (bind_for_seat d0 proxy) (done d0)
        (bind_for_seat-Safe d0 proxy v0) v0)
      λ d1 v1.
        Returns-bind (bind_pointer_for_seat d1 proxy) _ Safe Safe
          (bind_pointer_for_seat-Safe d1 proxy v1) (λ d2 v2. give_seat_layer-Safe d2 proxy v2)

-- Every event of the window manager, a manage and a render sequence included, returns on data
-- with a well-formed state and a queue handle, and leaves such data.
pub wm_event-Safe : (d : AppData) (e : WmEvent) → Safe d → Returns (wm_event d e) Safe
unfolding wm_event
wm_event-Safe d unavailable v = v
wm_event-Safe d finished v = v
wm_event-Safe d (window proxy) v = new_window_event-Safe d proxy v
wm_event-Safe d (output proxy) v = new_output_event-Safe d proxy v
wm_event-Safe d (seat proxy) v = new_seat_event-Safe d proxy v
wm_event-Safe d manage_start v = on_manage_start-Safe d v
wm_event-Safe d render_start v = on_render_start-Safe d v
wm_event-Safe d session_locked v = v
wm_event-Safe d session_unlocked v = v
