-- ===== src/Events/Safety/Floating.antt =====
-- Placing a floating window, and changing one window (src/events.rs), return.
use streamwm.Base.{
  ℕ, ◌<◌, ◌≡◌, refl, subst, Option, none, some, inl, inr, find, and_then, map_opt, get_elem?,
  Option-cases, Outcome, Returns, Returns-bind, All-find, All-get, ◌==◌,
}
use streamwm.State.{State, Window, Output, Area, num_tags, find_window, window_output, output_area}
use streamwm.State.Ranges.{OutputFits}
use streamwm.State.Invariant.{WellFormed, update_window-WellFormed}
use streamwm.State.Geometry.{fit_beside_parent, place_over_parent, centred}
use streamwm.State.Outputs.Clamping.{
  AreaFits, Inside, clamp_rect_to_area-Inside, output_area-AreaFits,
}
use streamwm.Events.OnWindow.{hints_of, float_over, shown_area, auto_float, change_window}

-- A step on one window, that returns and keeps its tag.
abbrev pub KeepsTag : (Window → Outcome Window) → Type 0
KeepsTag f = (w : Window) → w.tag < num_tags → Returns (f w) (λ w'. w'.tag < num_tags)

-- A dialog of any size that is placed over its parent lies in the area, at the area's own
-- position in a direction in which it is too large, for an area whose edges are coordinates.
place_over_parent-Inside :
    (width height : ℕ) (over area : Area)
    → AreaFits area
    → Returns
        (place_over_parent width height over area)
        (λ p. Inside area.x area.width p.0 width × Inside area.y area.height p.1 height)
unfolding place_over_parent
place_over_parent-Inside width height over area fits =
    clamp_rect_to_area-Inside (centred over.x over.width width) (centred over.y over.height height)
      width height area fits

pub float_over-Returns :
    (over area : Area) (w : Window)
    → AreaFits area
    → w.tag < num_tags
    → Returns (float_over over area w) (λ w'. w'.tag < num_tags)
unfolding float_over
float_over-Returns over area w fits h =
    let size = fit_beside_parent (over.width, over.height) (w.float_w, w.float_h) (hints_of w) in
    Returns-bind (place_over_parent size.0 size.1 over area) _
      (λ p. Inside area.x area.width p.0 size.0 × Inside area.y area.height p.1 size.1)
      (λ (w' : Window). w'.tag < num_tags) (place_over_parent-Inside size.0 size.1 over area fits)
      (λ p q. h)

pub auto_float-Returns :
    (found : Option Area) (w : Window)
    → ((a : Area) → found ≡ some a → AreaFits a)
    → w.tag < num_tags
    → Returns (auto_float found w) (λ w'. w'.tag < num_tags)
unfolding auto_float
auto_float-Returns none w fits h = h
auto_float-Returns (some a) w fits h = float_over-Returns a a w (fits a refl) h

area_of-AreaFits :
    (found : Option Output) (a : Area)
    → ((o : Output) → found ≡ some o → OutputFits o)
    → map_opt output_area found ≡ some a
    → AreaFits a
area_of-AreaFits none a k e = cc
area_of-AreaFits (some o) a k e =
    let same : output_area o ≡ a = cc in subst AreaFits same (output_area-AreaFits o (k o refl))

output_of-OutputFits :
    (s : State) (idx : Option ℕ) (o : Output)
    → WellFormed s
    → and_then idx (get_elem? s.outputs) ≡ some o
    → OutputFits o
output_of-OutputFits s none o v e = cc
output_of-OutputFits s (some i) o v e = All-get _ s.outputs i o e v.ranged.shown

pub shown_area-AreaFits :
    (s : State) (w : Window) (a : Area) → WellFormed s → shown_area s w ≡ some a → AreaFits a
unfolding shown_area
shown_area-AreaFits s w a v e =
    area_of-AreaFits (and_then (window_output s w) (get_elem? s.outputs)) a
      (λ o f. output_of-OutputFits s (window_output s w) o v f) e

pub change_window-WellFormed :
    (s : State) (id : ℕ) (f : Window → Outcome Window)
    → KeepsTag f
    → WellFormed s
    → Returns (change_window s id f) WellFormed
unfolding change_window find_window
change_window-WellFormed s id f k v = elim (Option-cases (find (λ w. w.id == id) s.windows)) [
  | inl e ↦ rw (e, change_window) v
  | inr (w, e) ↦
      rw (e, change_window)
        (Returns-bind (f w) _ (λ w'. w'.tag < num_tags) WellFormed
          (k w (All-find _ _ s.windows w e v.ranged.placed))
          (λ w' h. update_window-WellFormed s id _ (λ _ _. h) v))
]
