-- ===== src/State/Focus/Safety.antt =====
-- The focus operations of src/state.rs return on every well-formed state, and keep it well-formed.
use streamwm.Base.{
  ℕ, ◌<◌, ◌≡◌, refl, sym, subst, Option, none, some, inl, inr, arith, length, ltb, ◌==◌, ◌&&◌,
  Bool-cases, Option-cases, Returns, Returns-bind, Returns-mono, Returns-and, index-of_lt, Outcome,
  ap, ◌∙◌,
}
use streamwm.State.{State, num_tags, tag_owner, mark_dirty, update_window}
use streamwm.State.Ranges.{Ranged, tag_owner-lt}
use streamwm.State.Owners.{
  owner, SettledIn, Settled, shown-modify, set_active-Settled, own_tag-Settled, owner-own_tag,
}
use streamwm.State.Invariant.{WellFormed}
use streamwm.State.Focus.{
  refocus_output, clear_fullscreen_on_tag, set_active, activate_tag, switch_active_tag,
  focus_tag_by, focus_tag, sendable, claim_tag, send_to, send_focused_to_tag,
}
use streamwm.State.Focus.Ranges.{
  refocus_output-Ranged, clear_fullscreen_on_tag-Ranged, length-set_active,
  switch_active_tag-Ranged, focus_tag-Ranged, send_focused_to_tag-Ranged, mark_dirty-Ranged,
  claim_tag-outputs,
}

-- Every output is settled.
abbrev AllSettled : State → Type 0
AllSettled s = (j : ℕ) → Settled s j

pub Returns-WellFormed :
    (r : Outcome State)
    → Returns r Ranged
    → Returns r (λ s. (j : ℕ) → Settled s j)
    → Returns r WellFormed
Returns-WellFormed r h k =
    Returns-mono r (λ s. Ranged s × AllSettled s) WellFormed (Returns-and r Ranged AllSettled h k)
      (λ s v. record { ranged = v.0; settled = v.1 })

-- Refocusing an output changes neither the tags nor what is shown.
pub refocus_output-Settled :
    (s : State) (idx : ℕ)
    → idx < length s.outputs
    → Returns (refocus_output s idx) (λ s'. (j : ℕ) → Settled s j → Settled s' j)
unfolding refocus_output
refocus_output-Settled s idx h =
    let (o, _, there) = index-of_lt s.outputs idx h in
    rw there (λ j v. subst (SettledIn s.tags j) (sym (shown-modify s idx _ (λ _. refl) j)) v)

pub refocus_output-WellFormed :
    (s : State) (idx : ℕ)
    → idx < length s.outputs
    → WellFormed s
    → Returns (refocus_output s idx) WellFormed
refocus_output-WellFormed s idx h v =
    Returns-WellFormed (refocus_output s idx) (refocus_output-Ranged s idx h v.ranged) (
      Returns-mono (refocus_output s idx) _ AllSettled (refocus_output-Settled s idx h)
        (λ s' k j. k j (v.settled j)))

-- Refocusing an output of a settled state.
refocus_output-AllSettled :
    (s : State) (idx : ℕ)
    → idx < length s.outputs
    → AllSettled s
    → Returns (refocus_output s idx) AllSettled
refocus_output-AllSettled s idx h v =
    Returns-mono (refocus_output s idx) _ AllSettled (refocus_output-Settled s idx h)
      (λ s' k j. k j (v j))

pub clear_fullscreen_on_tag-WellFormed :
    (s : State) (tag : ℕ) → WellFormed s → WellFormed (clear_fullscreen_on_tag s tag)
unfolding clear_fullscreen_on_tag
clear_fullscreen_on_tag-WellFormed s tag v = record {
  ranged = clear_fullscreen_on_tag-Ranged s tag v.ranged;
  settled = v.settled;
}

activate_tag-AllSettled :
    (s : State) (idx tag : ℕ)
    → idx < length s.outputs
    → owner s.tags tag ≡ some idx
    → AllSettled s
    → Returns (activate_tag s idx tag) AllSettled
unfolding activate_tag clear_fullscreen_on_tag
activate_tag-AllSettled s idx tag h owns v =
    let (o, _, e) = index-of_lt s.outputs idx h in
    rw e (
      refocus_output-AllSettled _ idx (omega (arith, length-set_active idx tag s.outputs))
        (set_active-Settled s idx tag h owns v))

switch_active_tag-AllSettled :
    (s : State) (idx tag : ℕ)
    → idx < length s.outputs
    → owner s.tags tag ≡ some idx
    → AllSettled s
    → Returns (switch_active_tag s idx tag) AllSettled
unfolding switch_active_tag clear_fullscreen_on_tag
switch_active_tag-AllSettled s idx tag h owns v =
    let (o, e, _) = index-of_lt s.outputs idx h in
    let lt : idx < length (set_active idx tag s.outputs) =
      omega (arith, length-set_active idx tag s.outputs) in
    let shown = set_active-Settled s idx tag h owns v in
    elim (Bool-cases (o.active_tag == tag)) [
      | inl same ↦ rw (e, switch_active_tag, same) (refocus_output-AllSettled _ idx lt shown)
      | inr other ↦ rw (e, switch_active_tag, other) (refocus_output-AllSettled _ idx lt shown)
    ]

-- Switching an output in range to a tag that it owns returns a well-formed state when the state
-- was well-formed.
pub switch_active_tag-WellFormed :
    (s : State) (idx tag : ℕ)
    → idx < length s.outputs
    → tag < num_tags
    → tag_owner s tag ≡ some idx
    → WellFormed s
    → Returns (switch_active_tag s idx tag) WellFormed
unfolding tag_owner
switch_active_tag-WellFormed s idx tag h k owns v =
    Returns-WellFormed (switch_active_tag s idx tag)
      (switch_active_tag-Ranged s idx tag h k v.ranged)
      (switch_active_tag-AllSettled s idx tag h owns v.settled)

focus_tag_by-AllSettled :
    (by : Option ℕ) (s : State) (idx tag : ℕ)
    → tag_owner s tag ≡ by
    → idx < length s.outputs
    → tag < length s.tags
    → WellFormed s
    → Returns (focus_tag_by by s idx tag) AllSettled
unfolding focus_tag_by tag_owner
focus_tag_by-AllSettled none s idx tag e h k v =
    activate_tag-AllSettled _ idx tag h (owner-own_tag s.tags tag idx k)
      (own_tag-Settled s tag idx k e v.settled)
focus_tag_by-AllSettled (some by) s idx tag e h k v = elim (Bool-cases (by == idx)) [
  | inl same ↦
      let at : by ≡ idx = ground arith in
      rw same (activate_tag-AllSettled s idx tag h (e ∙ ap some at) v.settled)
  | inr other ↦
      rw other (activate_tag-AllSettled _ by tag (tag_owner-lt s tag by v.ranged e) e v.settled)
]

pub mark_dirty-WellFormed : (s : State) → WellFormed s → WellFormed (mark_dirty s)
unfolding mark_dirty
mark_dirty-WellFormed s v = record { ranged = mark_dirty-Ranged s v.ranged; settled = v.settled }

mark_dirty-AllSettled : (s : State) → AllSettled s → AllSettled (mark_dirty s)
unfolding mark_dirty
mark_dirty-AllSettled s v = v

focus_tag-AllSettled :
    (s : State) (idx tag : ℕ) → WellFormed s → Returns (focus_tag s idx tag) AllSettled
unfolding focus_tag
focus_tag-AllSettled s idx tag v =
    elim (Bool-cases (ltb tag (length s.tags) && ltb idx (length s.outputs))) [
      | inr no_such ↦ rw no_such v.settled
      | inl there ↦ rw there (
          Returns-bind (focus_tag_by (tag_owner s tag) s idx tag) _ AllSettled AllSettled
            (focus_tag_by-AllSettled _ s idx tag refl (ground arith) (ground arith) v)
            mark_dirty-AllSettled)
    ]

-- Focusing any tag from any output, in range or not, returns a well-formed state when the state
-- was well-formed.
pub focus_tag-WellFormed :
    (s : State) (idx tag : ℕ) → WellFormed s → Returns (focus_tag s idx tag) WellFormed
focus_tag-WellFormed s idx tag v =
    Returns-WellFormed (focus_tag s idx tag) (focus_tag-Ranged s idx tag v.ranged)
      (focus_tag-AllSettled s idx tag v)

claim_tag-AllSettled :
    (s : State) (idx tag : ℕ)
    → tag < length s.tags
    → AllSettled s
    → AllSettled (claim_tag s idx tag)
unfolding claim_tag tag_owner
claim_tag-AllSettled s idx tag h v = elim (Option-cases (tag_owner s tag)) [
  | inl e ↦ rw (e, claim_tag) (own_tag-Settled s tag idx h e v)
  | inr (o, e) ↦ rw (e, claim_tag) v
]

send_to-AllSettled :
    (focus : Option ℕ) (s : State) (idx tag : ℕ)
    → idx < length s.outputs
    → tag < length s.tags
    → AllSettled s
    → Returns (send_to focus s idx tag) AllSettled
unfolding send_to update_window
send_to-AllSettled none s idx tag h k v = v
send_to-AllSettled (some fid) s idx tag h k v =
    Returns-bind (refocus_output _ idx) _ AllSettled AllSettled
      (refocus_output-AllSettled _ idx (rw (claim_tag-outputs s idx tag) h)
        (claim_tag-AllSettled s idx tag k v))
      mark_dirty-AllSettled

send_focused_to_tag-AllSettled :
    (s : State) (idx tag : ℕ) → AllSettled s → Returns (send_focused_to_tag s idx tag) AllSettled
unfolding send_focused_to_tag
send_focused_to_tag-AllSettled s idx tag v =
    elim (Bool-cases (ltb tag (length s.tags) && ltb idx (length s.outputs))) [
      | inr no_such ↦ rw no_such v
      | inl there ↦
          let h : idx < length s.outputs = ground arith in
          let (o, _, e) = index-of_lt s.outputs idx h in
          rw (there, e) (send_to-AllSettled (sendable s o tag) s idx tag h (ground arith) v)
    ]

-- Sending the focused window of any output to any tag, in range or not, returns a well-formed
-- state when the state was well-formed.
pub send_focused_to_tag-WellFormed :
    (s : State) (idx tag : ℕ) → WellFormed s → Returns (send_focused_to_tag s idx tag) WellFormed
send_focused_to_tag-WellFormed s idx tag v =
    Returns-WellFormed (send_focused_to_tag s idx tag)
      (send_focused_to_tag-Ranged s idx tag v.ranged)
      (send_focused_to_tag-AllSettled s idx tag v.settled)
