-- ===== src/Lid/Profiles.antt =====
-- src/lid.rs: the commands that switch outputs. Whether a command succeeds is a parameter, which may
-- depend on the commands that were run before it; a log lists these, the latest first.
use Prim.Native.Char.{code}
use Prim.Native.String.{String}
use streamwm.Base.{
  Bool, true, false, List, [], ◌∷◌, if◌then◌else◌, ◌==◌, ◌&&◌, ◌||◌, not, map, retain,
}
use streamwm.Config.{Lid}
use streamwm.Status.Client.{trim, is_blank}
use streamwm.Lid.Topology.{DisplayTopology}

-- A program with its arguments.
pub record Call : Type 0 where
  pub program : String
  pub args : List String

abbrev pub Log : Type 0
Log = List Call

-- `split(',')`
abbrev prepend : Prim.Native.Char.Char → List String → List String
prepend c [] = String.◌∷◌ c "" ∷ []
prepend c (s ∷ rest) = String.◌∷◌ c s ∷ rest

unfoldable pub split_comma : String → List String
split_comma String.[] = "" ∷ []
split_comma (String.◌∷◌ c s) =
    let rest = split_comma s in if code c == b',' then "" ∷ rest else prepend c rest

unfoldable pub profile_candidates : String → List String
unfolding split_comma
profile_candidates profile = retain (λ s. not (is_blank s)) (map trim (split_comma profile))

unfoldable pub clamshell_available : DisplayTopology → Bool
clamshell_available t = t.external_connected

unfoldable pub should_recover_undocked : Bool → DisplayTopology → Bool → Bool → Bool
should_recover_undocked closed t topology_changed retry_due =
    not closed
    && (t.internal_connected && (not t.external_connected && (topology_changed || retry_due)))

abbrev pub panel_on : Lid → Call
panel_on lid = record {
  program = "wlr-randr";
  args = "--output" ∷ lid.internal_output ∷ "--on" ∷ "--preferred" ∷ [];
}

abbrev pub switch_to : String → Call
switch_to profile = record { program = "kanshictl"; args = "switch" ∷ profile ∷ [] }

module _ (succeeds : Log → Call → Bool) where
  unfoldable pub run_command : Call → Log → Bool × Log
  run_command call log = (succeeds log call, call ∷ log)

  -- The loop over the candidates, until one succeeds.
  unfoldable pub try_candidates : List String → Log → Bool × Log
  unfolding run_command
  try_candidates [] log = (false, log)
  try_candidates (profile ∷ profiles) log =
      let ran = run_command (switch_to profile) log in
      let rest = try_candidates profiles ran.1 in if ran.0 then (true, ran.1) else rest

  -- Without candidates nothing is run.
  unfoldable pub switch_kanshi_profile : String → Log → Bool × Log
  unfolding try_candidates profile_candidates
  switch_kanshi_profile profile log = try_candidates (profile_candidates profile) log

  -- A reason, which the source passes on, is only logged.
  unfoldable pub apply_profile : String → Log → Bool × Log
  unfolding switch_kanshi_profile
  apply_profile profile log = switch_kanshi_profile profile log

  unfoldable pub recover_undocked : Lid → Log → Bool × Log
  unfolding run_command switch_kanshi_profile
  recover_undocked lid log =
      let output = run_command (panel_on lid) log in
      let profile = switch_kanshi_profile lid.undocked_profile output.1 in
      (output.0 && profile.0, profile.1)

  unfoldable pub apply_closed_profile : Lid → DisplayTopology → Log → Bool × Log
  unfolding clamshell_available apply_profile recover_undocked
  apply_closed_profile lid t log =
      if clamshell_available t
      then apply_profile lid.close_profile log
      else recover_undocked lid log

  unfoldable pub recover_open_outputs : Lid → DisplayTopology → Log → Bool × Log
  unfolding apply_profile recover_undocked
  recover_open_outputs lid t log =
      if t.internal_connected && not t.external_connected
      then recover_undocked lid log
      else apply_profile lid.open_profile log

  unfoldable pub apply_current_profile : Lid → Bool → DisplayTopology → Log → Bool × Log
  unfolding apply_closed_profile apply_profile recover_undocked
  apply_current_profile lid closed t log =
      if closed
      then apply_closed_profile lid t log
      else if t.internal_connected && not t.external_connected
      then recover_undocked lid log
      else apply_profile lid.open_profile log
