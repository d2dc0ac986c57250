-- ===== src/Wm/Requests/Finish.antt =====
-- The requests of the last part of a manage sequence (src/wm/mod.rs): proposed dimensions, tiled
-- edges, bindings, and the warp of the pointer.
use streamwm.Base.{
  refl, ◌≡◌, ◌∙◌, ℕ, Bool, true, Option, none, some, List, [], ◌∷◌, inl, inr, not, ◌&&◌, ◌==◌, ◌||◌,
  ltb, and_then, get_elem?, All-append, Bool-cases, Option-cases, if◌then◌else◌,
}
use streamwm.Protocol.{Request, manage_finish}
use streamwm.Protocol.Sequence.{managing, allowed}
use streamwm.Base.Int.{pos, to_i32}
use streamwm.App.{AppData, Bound, send}
use streamwm.App.Requests.{
  Within, Answers, map-Within, if-Within, if-sent-Within, follow_all-append,
}
use streamwm.State.{State, Window, find_window}
use streamwm.Bindings.Action.Text.{is_resize_binding}
use streamwm.Wm.Layout.{Geometry, compute_all}
use streamwm.Wm.Manage.{
  propose_tile, propose_float, propose_all, concat_map, tell_tiled, tell_each, binding_request,
  enable_bindings, warp_requests, finish_manage, same_flag,
}

abbrev Managed : List Request → Type 0
Managed rs = Within managing rs

concat_map-Managed {ℓ} :
    {A : Type ℓ} (f : A → List Request) (xs : List A)
    → ((x : A) → Managed (f x))
    → Managed (concat_map f xs)
unfolding concat_map
concat_map-Managed f [] k = tt
concat_map-Managed f (x ∷ xs) k = All-append _ _ _ (k x) (concat_map-Managed f xs k)

propose_tile-Managed : (s : State) (p : ℕ × Geometry) → Managed (propose_tile s p)
unfolding propose_tile
propose_tile-Managed s (wid, g) =
    if-Within managing (g.width == 0 || g.height == 0) [] _ tt (found (find_window s wid))
  where
    found :
        (r : Option Window)
        → Managed (elim r [
          | none ↦ []
          | some w ↦
              if w.fullscreen
              then Request.set_dimension_bounds w.proxy (pos 0) (pos 0) ∷ []
              else Request.set_dimension_bounds w.proxy (to_i32 g.width) (to_i32 g.height)
                ∷ Request.propose_dimensions w.proxy (to_i32 g.width) (to_i32 g.height)
                ∷ []
        ])
    found none = tt
    found (some w) = if-Within managing w.fullscreen _ _ (refl, tt) (refl, (refl, tt))

propose_float-Managed : (w : Window) → Managed (propose_float w)
unfolding propose_float
propose_float-Managed w =
    if-Within managing (w.floating && (ltb 0 w.float_w && ltb 0 w.float_h)) _ [] (refl, tt) tt

tell_each-Managed : (ws : List Window) → Managed (tell_each ws).1
unfolding tell_each tell_tiled
tell_each-Managed [] = tt
tell_each-Managed (w ∷ ws) =
    All-append _ _ _
      (if-sent-Within managing (same_flag w.tiled_applied (not w.floating && not w.fullscreen)) _ _
        tt (refl, tt))
      (tell_each-Managed ws)

binding_request-Managed : (on : Bool) (b : Bound) → allowed managing (binding_request on b) ≡ true
unfolding binding_request
binding_request-Managed on b = elim (Bool-cases (is_resize_binding b.action)) [
  | inr plain ↦ rw (plain, binding_request) refl
  | inl resizes ↦ elim (Bool-cases on) [
    | inl e ↦ rw (resizes, e, binding_request) refl
    | inr e ↦ rw (resizes, e, binding_request) refl
  ]
]

warp_requests-Managed : (s : State) (target : Option ℕ) → Managed (warp_requests s target)
unfolding warp_requests
warp_requests-Managed s target = elim (Option-cases (and_then target (get_elem? s.outputs))) [
  | inl e ↦ rw (e, warp_requests) tt
  | inr (o, e) ↦ rw (e, warp_requests) (map-Within managing _ s.seats (λ _. refl))
]

-- The requests of the last part, up to `manage_finish`.
pub finish_manage-Answers : (d : AppData) → Answers managing d.sent (finish_manage d).sent
unfolding finish_manage propose_all enable_bindings send
finish_manage-Answers d = (
  _,
  refl,
  follow_all-append managing (propose_all d) _ (
        All-append _ _ _
          (concat_map-Managed _ (compute_all d.floats d.state d.config)
            (propose_tile-Managed d.state))
          (concat_map-Managed _ d.state.windows propose_float-Managed))
      ∙ (follow_all-append managing (tell_each d.state.windows).1 _
            (tell_each-Managed d.state.windows)
          ∙ (follow_all-append managing (enable_bindings d) _ (
                All-append _ _ _
                  (map-Within managing _ d.bindings (binding_request-Managed d.state.resize_mode))
                  (map-Within managing _ d.pointer_bindings (λ _. refl)))
              ∙ follow_all-append managing (warp_requests d.state d.pending_pointer_warp)
                  (manage_finish ∷ []) (warp_requests-Managed d.state d.pending_pointer_warp))),
)
