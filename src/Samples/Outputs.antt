-- ===== src/Samples/Outputs.antt =====
-- The theorems on outputs and tags (src/state.rs), applied to two screens.
use streamwm.Base.{◌≡◌, refl, none, some, List, [], ◌∷◌, arith, Returns, get_elem?}
use streamwm.Base.Int.{pos}
use streamwm.State.{tag_owner, Area, State, Tag, new_window, new_output, new_state}
use streamwm.State.Ranges.{Ranged}
use streamwm.State.Invariant.{WellFormed}
use streamwm.State.Focus.{refocus_output, refocused, switch_active_tag, focus_tag, on_active}
use streamwm.State.Focus.Safety.{switch_active_tag-WellFormed, focus_tag-WellFormed}
use streamwm.State.Focus.Effects.{IsShown, Chosen, focus_tag-IsShown, refocus_output-Chosen}
use streamwm.State.Geometry.{Hints, clamp_rect_to_area, fit_beside_parent, place_over_parent}
use streamwm.State.Outputs.{normalize_outputs, repair_outputs, remove_output, retire}
use streamwm.State.Outputs.Settled.{normalize_outputs-WellFormed}
use streamwm.State.Outputs.Clamping.{Inside, clamp_rect_to_area-Inside}
use streamwm.State.Outputs.Dialogs.{
  DialogFits, Centred, Sized, place_over_parent-Centred, fit_beside_parent-Sized,
}
use streamwm.State.Outputs.Removal.{IsRepaired, repair_outputs-IsRepaired, remove_output-IsRepaired}
use streamwm.Samples.{
  two_screens, two_screens-Ranged, two_screens-WellFormed, left_screen, right_screen, tag_of,
  screen_area, screen_area-AreaFits,
}

switch_active_tag-WellFormed_example : Returns (switch_active_tag two_screens 1 1) WellFormed
unfolding tag_owner
switch_active_tag-WellFormed_example =
    switch_active_tag-WellFormed two_screens 1 1 (omega arith) (omega arith) refl
      two_screens-WellFormed

focus_tag-WellFormed_example : Returns (focus_tag two_screens 0 1) WellFormed
focus_tag-WellFormed_example = focus_tag-WellFormed two_screens 0 1 two_screens-WellFormed

focus_tag-IsShown_example : Returns (focus_tag two_screens 0 2) (λ s. IsShown s 2)
focus_tag-IsShown_example =
    focus_tag-IsShown two_screens 0 2 (omega arith) (omega arith) two_screens-Ranged

refocus_output-Chosen_example : Returns (refocus_output two_screens 1) (λ s.
    (get_elem? s.outputs 1
      ≡ some (record right_screen { focused_window = refocused two_screens 1 right_screen }))
    × Chosen
        (on_active two_screens 1 right_screen)
        two_screens.windows
        (refocused two_screens 1 right_screen))
refocus_output-Chosen_example = refocus_output-Chosen two_screens 1 right_screen refl

abbrev rest_of : List Tag → List Tag
rest_of (a ∷ b ∷ ts) = ts
rest_of ts = ts

-- The second screen owns nothing, and shows the first one's tag.
abbrev pub unsettled : State
unsettled = record two_screens {
  outputs = left_screen ∷ record right_screen { active_tag = 0 } ∷ [];
  tags = tag_of (some 0) ∷ tag_of none ∷ rest_of two_screens.tags;
}

unsettled-Ranged : Ranged unsettled
unfolding new_state new_window new_output
unsettled-Ranged = record {
  tag_count = refl;
  owned = omega arith;
  focus = omega arith;
  shown = omega arith;
  placed = omega arith;
}

normalize_outputs-WellFormed_example : Returns (normalize_outputs unsettled) WellFormed
normalize_outputs-WellFormed_example = normalize_outputs-WellFormed unsettled unsettled-Ranged

repair_outputs-IsRepaired_example : Returns (repair_outputs unsettled) IsRepaired
repair_outputs-IsRepaired_example = repair_outputs-IsRepaired unsettled unsettled-Ranged

remove_output-IsRepaired_example :
    Returns (remove_output two_screens 1) (λ r. IsRepaired r.0 × (r.1 ≡ retire right_screen))
remove_output-IsRepaired_example =
    remove_output-IsRepaired two_screens 1 right_screen refl two_screens-Ranged

clamp_rect_to_area-Inside_example :
    Returns
      (clamp_rect_to_area (pos 3000) (pos 0) 300 200 screen_area)
      (λ p. Inside (pos 1920) 1280 p.0 300 × Inside (pos 0) 1024 p.1 200)
clamp_rect_to_area-Inside_example =
    clamp_rect_to_area-Inside (pos 3000) (pos 0) 300 200 screen_area screen_area-AreaFits

-- A window at the right edge of the screen, whose dialog is wider than itself.
abbrev small_parent : Area
small_parent = record { x = pos 2920; y = pos 100; width = 280; height = 401 }

small_parent-DialogFits : DialogFits small_parent 500 300
small_parent-DialogFits = record {
  over_fits = record {
    fits_x = omega arith;
    fits_y = omega arith;
    right = omega arith;
    bottom = omega arith;
  };
  left = omega arith;
  top = omega arith;
  small_width = omega arith;
  small_height = omega arith;
}

place_over_parent-Centred_example :
    Returns (place_over_parent 500 300 small_parent screen_area) (λ p.
      Centred (pos 2920) 280 (pos 1920) 1280 p.0 500 × Centred (pos 100) 401 (pos 0) 1024 p.1 300)
place_over_parent-Centred_example =
    place_over_parent-Centred 500 300 small_parent screen_area small_parent-DialogFits
      screen_area-AreaFits (omega arith) (omega arith)

-- The least width is more than three fifths of the parent's, the greatest height less.
abbrev dialog_hints : Hints
dialog_hints = record { min_w = 900; min_h = 0; max_w = 0; max_h = 500 }

fit_beside_parent-Sized_example :
    Sized 1280 1280 900 0 (fit_beside_parent (1280, 1024) (1280, 1024) dialog_hints).0
    × Sized 1024 1024 0 500 (fit_beside_parent (1280, 1024) (1280, 1024) dialog_hints).1
fit_beside_parent-Sized_example =
    fit_beside_parent-Sized (1280, 1024) (1280, 1024) dialog_hints (omega arith) (omega arith)
