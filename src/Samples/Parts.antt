-- ===== src/Samples/Parts.antt =====
-- The theorems on the layout, on drags and on the registry of subscribers, applied.
use streamwm.Base.{◌≡◌, ◌≢◌, true, some, [], ◌∷◌, arith, map, All, length}
use streamwm.Base.Int.{pos}
use streamwm.Base.Int.{clip_u32}
use streamwm.Config.{default_config}
use streamwm.State.{State, Window, new_window, new_output, new_state, output_area, tag_owner}
use streamwm.State.Fraction.{active_master_fraction, master_fraction}
use streamwm.Wm.Apart.{Pairwise, Apart}
use streamwm.Wm.Apart.Column.{WithinArea}
use streamwm.Wm.Apart.Outputs.{Spacious, tile_output-Apart}
use streamwm.Wm.Layout.{
  compute_tiling, placements, tile_output, visible_windows, is_tiled_on, master_width,
}
use streamwm.Wm.Tiling.{occurrences, compute_tiling-ids, placements-occurrences}
use streamwm.App.{move}
use streamwm.Bindings.Pointer.{anchored_op, apply_kind, apply_pointer_delta}
use streamwm.Bindings.Pointer.Drag.{apply_pointer_delta-last, anchored_op-jumps}
use streamwm.Status.Subscribers.{no_subscribers, register, publish, take_latest}
use streamwm.Status.Converge.{publish-publish, publish-take_latest}
use streamwm.Samples.{
  config, dragging, hundredths, no_edges_held, screen_area, two_screens, left_screen,
}

compute_tiling-ids_example :
    map (λ g. g.0) (compute_tiling hundredths (1 ∷ 2 ∷ 3 ∷ []) screen_area (pos 1024) (pos 8) 50)
    ≡ 1 ∷ 2 ∷ 3 ∷ []
compute_tiling-ids_example =
    compute_tiling-ids hundredths (1 ∷ 2 ∷ 3 ∷ []) screen_area (pos 1024) (pos 8) 50

abbrev three_tiles : State
three_tiles = record two_screens {
  windows = new_window 21 1 0 ∷ new_window 22 2 0 ∷ new_window 23 3 0 ∷ [];
}

left_screen-Spacious :
    Spacious hundredths
      (output_area left_screen)
      config.gap
      (active_master_fraction three_tiles 0)
      (length (visible_windows three_tiles 0 left_screen))
unfolding output_area new_output default_config new_state new_window active_master_fraction
    master_fraction visible_windows is_tiled_on tag_owner master_width clip_u32
left_screen-Spacious = record {
  right = omega arith;
  left = omega arith;
  low = omega arith;
  high = omega arith;
  columns = omega arith;
  lines = omega arith;
  few = omega arith;
}

tile_output-Apart_example :
    Pairwise Apart (tile_output hundredths three_tiles config 0 left_screen)
    × All
        (WithinArea (output_area left_screen))
        (tile_output hundredths three_tiles config 0 left_screen)
unfolding default_config
tile_output-Apart_example =
    tile_output-Apart hundredths three_tiles config 0 left_screen (omega arith) left_screen-Spacious

placements-occurrences_example :
    occurrences 2 (map (λ p. p.0) (placements hundredths two_screens config))
    ≡ occurrences 2 (map (λ w. w.id) two_screens.windows)
placements-occurrences_example = placements-occurrences hundredths two_screens config 2

apply_pointer_delta-last_example :
    apply_pointer_delta (apply_pointer_delta dragging (pos 1) (pos 2)) (pos 30) (pos 40)
    ≡ apply_pointer_delta dragging (pos 30) (pos 40)
apply_pointer_delta-last_example =
    apply_pointer_delta-last dragging (pos 1) (pos 2) (pos 30) (pos 40)

abbrev dragged : Window
dragged = record (new_window 22 2 0) { floating = true; float_x = pos 3000 }

anchored_op-jumps_example :
    (apply_kind move
      (anchored_op 2 move no_edges_held 30 (pos 100, pos 100) dragged)
      (pos 0)
      (pos 0)
      dragged).float_x
    ≢ pos 3000
anchored_op-jumps_example =
    anchored_op-jumps 2 no_edges_held 30 (pos 100) (pos 100) dragged (omega arith) (omega arith)
      (omega arith) (omega arith) (λ e. cc)

publish-publish_example :
    publish "b" (publish "a" (register no_subscribers).0) ≡ publish "b" (register no_subscribers).0
publish-publish_example = publish-publish "a" "b" (register no_subscribers).0

publish-take_latest_example :
    All
      (λ c. (c.alive ≡ true) × ((take_latest c).1 ≡ some "a"))
      (publish "a" (register no_subscribers).0).clients
publish-take_latest_example = publish-take_latest "a" (register no_subscribers).0
