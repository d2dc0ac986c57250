-- ===== src/Status/Safety.antt =====
-- Every command of the control socket (src/status.rs) returns on safe data, and keeps it safe.
use Prim.Native.String.{String}
use streamwm.Base.{
  ℕ, ◌<◌, ◌≡◌, refl, false, Option, none, some, [], ◌∷◌, inl, inr, arith, length, ltb, ◌&&◌, find,
  All-find, Bool-cases, Option-cases, Returns, Returns-bind,
}
use streamwm.Protocol.{spawn}
use streamwm.App.{AppData, with_state}
use streamwm.App.Safe.{Safe, either-Safe, send-Safe, request_manage-Safe, with_state-Safe}
use streamwm.State.{State, num_tags, tag_owner, active_output, find_output_by_name}
use streamwm.State.Ranges.{Ranged}
use streamwm.State.Invariant.{WellFormed, modify_output-WellFormed, focus-WellFormed}
use streamwm.State.Focus.{send_focused_to_tag, switch_active_tag}
use streamwm.State.Focus.Safety.{
  focus_tag-WellFormed, send_focused_to_tag-WellFormed, switch_active_tag-WellFormed,
}
use streamwm.State.Outputs.Ranges.{position-lt}
use streamwm.Events.OnSeat.{live_owner}
use streamwm.Events.Safety.{live_owner-lt}
use streamwm.Status.Command.{
  Command, focus_tag_command, send_to_tag, focus_output, focus_window, spawn_command, quit, refresh,
  command_output, focus_tag_on, matches_window, show_and_focus, focus_matching, run_command,
  apply_command, flush_pending,
}

focus_tag_on-WellFormed :
    (s : State) (o : Option ℕ) (tag : ℕ) → WellFormed s → Returns (focus_tag_on s o tag) WellFormed
unfolding focus_tag_on
focus_tag_on-WellFormed s none tag v = v
focus_tag_on-WellFormed s (some o) tag v =
    elim (Bool-cases (ltb tag (length s.tags) && ltb o (length s.outputs))) [
      | inl known ↦ rw known (focus_tag-WellFormed s o tag v)
      | inr other ↦ rw other v
    ]

show_and_focus-WellFormed :
    (s : State) (o : Option ℕ) (wid tag : ℕ)
    → ((i : ℕ) → o ≡ some i → (i < length s.outputs) × (tag_owner s tag ≡ some i))
    → tag < num_tags
    → WellFormed s
    → Returns (show_and_focus s o wid tag) WellFormed
unfolding show_and_focus tag_owner
show_and_focus-WellFormed s none wid tag h k v = v
show_and_focus-WellFormed s (some o) wid tag h k v =
    Returns-bind (switch_active_tag (record s { focused_output = some o }) o tag) _ WellFormed
      WellFormed
      (switch_active_tag-WellFormed _ o tag (h o refl).0 k (h o refl).1
        (focus-WellFormed s (some o) (h o refl).0 v))
      (λ s' v'. modify_output-WellFormed s' o _ (λ _ u. u) (λ _. refl) v')

focus_matching-WellFormed :
    (s : State) (app_id : String) (title : Option String)
    → WellFormed s
    → Returns (focus_matching s app_id title) WellFormed
unfolding focus_matching
focus_matching-WellFormed s app_id title v =
    elim (Option-cases (find (matches_window app_id title) s.windows)) [
      | inl e ↦ rw (e, focus_matching) v
      | inr (w, e) ↦
          rw (e, focus_matching)
            (show_and_focus-WellFormed s (live_owner s w.tag) w.id w.tag (live_owner-lt s w.tag)
              (All-find _ _ s.windows w e v.ranged.placed) v)
    ]

find_output_by_name-lt :
    (s : State) (name : String) (i : ℕ) → find_output_by_name s name ≡ some i → i < length s.outputs
unfolding find_output_by_name
find_output_by_name-lt s name i e = position-lt _ s.outputs i e

run_command-Safe : (c : Command) (d : AppData) → Safe d → Returns (run_command c d) Safe
unfolding run_command
run_command-Safe (focus_tag_command tag output) d v =
    with_state-Safe d (focus_tag_on d.state (command_output d.state output) tag)
      (focus_tag_on-WellFormed d.state _ tag v.0) v
run_command-Safe (send_to_tag tag) d v = elim (Option-cases (active_output d.state)) [
  | inl e ↦ rw (e, run_command) v
  | inr (o, e) ↦
      rw (e, run_command)
        (with_state-Safe d (send_focused_to_tag d.state o tag)
          (send_focused_to_tag-WellFormed d.state o tag v.0) v)
]
run_command-Safe (focus_output name) d v = elim (Option-cases (find_output_by_name d.state name)) [
  | inl e ↦ rw (e, run_command) v
  | inr (i, e) ↦
      rw (e, run_command)
        (focus-WellFormed d.state (some i) (find_output_by_name-lt d.state name i e) v.0, v.1)
]
run_command-Safe (focus_window app_id title) d v =
    with_state-Safe d (focus_matching d.state app_id title)
      (focus_matching-WellFormed d.state app_id title v.0) v
run_command-Safe (spawn_command command) d v =
    either-Safe d.config.allow_spawn _ d (send-Safe (spawn command ∷ []) d v) v
run_command-Safe quit d v = v
run_command-Safe refresh d v = v

-- Every command of the control socket returns on data with a well-formed state and a queue
-- handle, and leaves such data.
pub apply_command-Safe : (d : AppData) (c : Command) → Safe d → Returns (apply_command d c) Safe
unfolding apply_command
apply_command-Safe d c v =
    Returns-bind (run_command c d) _ Safe Safe (run_command-Safe c d v)
      (λ d' v'. request_manage-Safe d' v')

flushed-Ranged : (s : State) → Ranged s → Ranged (record s { pending_apply = false })
flushed-Ranged s v = ground arith

flushed-WellFormed : (s : State) → WellFormed s → WellFormed (record s { pending_apply = false })
flushed-WellFormed s v = record { ranged = flushed-Ranged s v.ranged; settled = v.settled }

pub flush_pending-Safe : (d : AppData) → Safe d → Safe (flush_pending d)
unfolding flush_pending
flush_pending-Safe d v =
    either-Safe d.state.pending_apply _ d
      (request_manage-Safe (with_state d (record d.state { pending_apply = false }))
        (flushed-WellFormed d.state v.0, v.1))
      v
