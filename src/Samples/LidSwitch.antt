-- ===== src/Samples/LidSwitch.antt =====
-- The theorems on the lid (src/lid.rs), applied to a laptop, with the tests of the source.
use streamwm.Base.{ℕ, ◌*◌, ◌^◌, ◌≡◌, refl, Bool, true, false, none, some, List, [], ◌∷◌, arith}
use streamwm.Config.{Lid}
use streamwm.Lid.Topology.{Entry, drm_output_name, display_topology}
use streamwm.Lid.Profiles.{Call, Log, profile_candidates, recover_undocked}
use streamwm.Lid.Ticks.{
  LidState, Tick, LidEvent, closed_event, new_lid_state, lid_closed, tick_once, run,
}
use streamwm.Lid.Clamshell.{Extends, Justified, tick_once-Justified}
use streamwm.Lid.Retries.{Quiet, RecoveryFails, waiting, undocked, run-retries, run-never_retried}

abbrev laptop : Lid
laptop = record {
  enable = true;
  close_profile = "docked, office";
  open_profile = "office";
  undocked_profile = "mobile";
  internal_output = "eDP-1";
}

-- The panel alone, and the panel with a monitor.
abbrev panel : List Entry
panel = record { file_name = some "card1-eDP-1"; status = some "connected\n" } ∷ []

abbrev monitor : Entry
monitor = record { file_name = some "card1-DP-2"; status = some "connected\n" }

-- A round at a time, for these events and entries.
abbrev tick_at : ℕ → List LidEvent → List Entry → Tick
tick_at now events entries = record {
  events = events;
  entries = some entries;
  debounced = some entries;
  delayed = some entries;
  undocked_checked_at = now;
  recovery_checked_at = now;
  recovered_at = now;
}

abbrev never : Log → Call → Bool
never log call = false

abbrev opened : LidState
opened = waiting none 0 []

abbrev closing : Tick
closing = tick_at 0 (closed_event true ∷ []) (monitor ∷ panel)

tick_once-Justified_example :
    Extends
      (Justified laptop (lid_closed opened closing) (display_topology "eDP-1" closing.entries))
      []
      (tick_once never laptop closing opened).log
tick_once-Justified_example = tick_once-Justified never laptop closing opened

-- Nothing changes in a round, with the panel alone.
panel-Quiet : (now : ℕ) → Quiet laptop undocked (tick_at now [] panel)
unfolding display_topology
panel-Quiet now = (refl, refl)

never-RecoveryFails : RecoveryFails never laptop
unfolding recover_undocked
never-RecoveryFails log = refl

run-retries_example :
    let before = run never laptop (tick_at 1 [] panel ∷ []) (waiting none 0 []) in
    (tick_once never laptop (tick_at (40 * 10 ^ 9) [] panel) before).log
    ≡ (recover_undocked never laptop before.log).1
run-retries_example =
    run-retries never laptop none 0 [] (tick_at 1 [] panel ∷ []) (tick_at (40 * 10 ^ 9) [] panel)
      never-RecoveryFails (omega arith) ((panel-Quiet 1, omega arith), tt)
      (panel-Quiet (40 * 10 ^ 9))

run-never_retried_example :
    (run never laptop (tick_at 0 [] panel ∷ tick_at 1 [] panel ∷ []) new_lid_state).log
    ≡ (tick_once never laptop (tick_at 0 [] panel) new_lid_state).log
run-never_retried_example =
    run-never_retried never laptop (tick_at 0 [] panel) (tick_at 1 [] panel ∷ []) ((refl, refl), tt)

-- The tests of src/lid.rs.
drm_output_name_test : drm_output_name "card1-eDP-1" ≡ some "eDP-1"
unfolding drm_output_name
drm_output_name_test = refl

profile_candidates_test : profile_candidates "office, home ,," ≡ "office" ∷ "home" ∷ []
unfolding profile_candidates
profile_candidates_test = refl
