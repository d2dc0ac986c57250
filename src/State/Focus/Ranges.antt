-- ===== src/State/Focus/Ranges.antt =====
-- The focus operations of src/state.rs return on every state in range, and keep it in range.
use streamwm.Base.{
  ℕ, ◌<◌, ◌≡◌, refl, Option, none, some, List, [], ◌∷◌, inl, inr, arith, length, ltb, ◌==◌, ◌&&◌,
  Bool-cases, Option-cases, Returns, Returns-bind, index-of_lt, length-modify,
}
use streamwm.State.{State, Window, Output, num_tags, tag_owner, mark_dirty, update_window}
use streamwm.State.Ranges.{
  Ranged, WindowsFit, modify_output-Ranged, windows-Ranged, own_tag-Ranged, focus-Ranged,
  tag_owner-lt, update_window-Ranged,
}
use streamwm.State.Focus.{
  refocus_output, clear_fullscreen, clear_fullscreen_on_tag, set_active, activate_tag,
  switch_active_tag, focus_tag_by, focus_tag, sendable, claim_tag, send_to, send_focused_to_tag,
}

pub refocus_output-Ranged :
    (s : State) (idx : ℕ)
    → idx < length s.outputs
    → Ranged s
    → Returns (refocus_output s idx) Ranged
unfolding refocus_output
refocus_output-Ranged s idx h v =
    let (o, _, e) = index-of_lt s.outputs idx h in rw e (modify_output-Ranged s idx _ (λ _ k. k) v)

clear_fullscreen-WindowsFit :
    (tag : ℕ) (ws : List Window) → WindowsFit ws → WindowsFit (clear_fullscreen tag ws)
unfolding clear_fullscreen
clear_fullscreen-WindowsFit tag [] h = tt
clear_fullscreen-WindowsFit tag (w ∷ ws) h =
    (ground (arith, h.0), clear_fullscreen-WindowsFit tag ws h.1)

pub clear_fullscreen_on_tag-Ranged :
    (s : State) (tag : ℕ) → Ranged s → Ranged (clear_fullscreen_on_tag s tag)
unfolding clear_fullscreen_on_tag
clear_fullscreen_on_tag-Ranged s tag v =
    windows-Ranged s _ (clear_fullscreen-WindowsFit tag s.windows v.placed) v

pub set_active-Ranged :
    (s : State) (idx tag : ℕ)
    → tag < num_tags
    → Ranged s
    → Ranged (record s { outputs = set_active idx tag s.outputs })
unfolding set_active
set_active-Ranged s idx tag h v = modify_output-Ranged s idx _ (λ _ k. (h, k.1, k.2)) v

pub length-set_active :
    (idx tag : ℕ) (os : List Output) → length (set_active idx tag os) ≡ length os
unfolding set_active
length-set_active idx tag os = length-modify os idx _

module _ (s : State) (idx tag : ℕ) (h : idx < length s.outputs) (k : tag < num_tags)
    (v : Ranged s) where
  pub activate_tag-Ranged : Returns (activate_tag s idx tag) Ranged
  unfolding activate_tag clear_fullscreen_on_tag
  activate_tag-Ranged =
      let (o, _, e) = index-of_lt s.outputs idx h in
      rw e (
        refocus_output-Ranged _ idx (omega (arith, length-set_active idx tag s.outputs))
          (clear_fullscreen_on_tag-Ranged _ o.active_tag (set_active-Ranged s idx tag k v)))

  -- Switching an output in range to a tag in range returns a state in range when the state was
  -- in range.
  pub switch_active_tag-Ranged : Returns (switch_active_tag s idx tag) Ranged
  unfolding switch_active_tag clear_fullscreen_on_tag
  switch_active_tag-Ranged =
      let (o, e, _) = index-of_lt s.outputs idx h in
      let shown = set_active-Ranged s idx tag k v in
      elim (Bool-cases (o.active_tag == tag)) [
        | inl same ↦
            rw (e, switch_active_tag, same)
              (refocus_output-Ranged _ idx (omega (arith, length-set_active idx tag s.outputs))
                shown)
        | inr other ↦
            rw (e, switch_active_tag, other)
              (refocus_output-Ranged _ idx (omega (arith, length-set_active idx tag s.outputs))
                (clear_fullscreen_on_tag-Ranged _ o.active_tag shown))
      ]

focus_tag_by-Ranged :
    (owner : Option ℕ) (s : State) (idx tag : ℕ)
    → tag_owner s tag ≡ owner
    → idx < length s.outputs
    → tag < num_tags
    → Ranged s
    → Returns (focus_tag_by owner s idx tag) Ranged
unfolding focus_tag_by
focus_tag_by-Ranged none s idx tag e h k v =
    activate_tag-Ranged _ idx tag h k (own_tag-Ranged s tag idx h v)
focus_tag_by-Ranged (some owner) s idx tag e h k v = elim (Bool-cases (owner == idx)) [
  | inl same ↦ rw same (activate_tag-Ranged s idx tag h k v)
  | inr other ↦
      let lt = tag_owner-lt s tag owner v e in
      rw other (activate_tag-Ranged _ owner tag lt k (focus-Ranged s (some owner) lt v))
]

pub mark_dirty-Ranged : (s : State) → Ranged s → Ranged (mark_dirty s)
unfolding mark_dirty
mark_dirty-Ranged s v = ground arith

-- Focusing any tag from any output, in range or not, returns a state in range when the state
-- was in range.
pub focus_tag-Ranged : (s : State) (idx tag : ℕ) → Ranged s → Returns (focus_tag s idx tag) Ranged
unfolding focus_tag
focus_tag-Ranged s idx tag v =
    elim (Bool-cases (ltb tag (length s.tags) && ltb idx (length s.outputs))) [
      | inr no_such ↦ rw no_such v
      | inl there ↦ rw there (
          Returns-bind (focus_tag_by (tag_owner s tag) s idx tag) _ Ranged Ranged
            (focus_tag_by-Ranged _ s idx tag refl (ground arith) (ground (arith, v.tag_count)) v)
            mark_dirty-Ranged)
    ]

claim_tag-Ranged :
    (s : State) (idx tag : ℕ) → idx < length s.outputs → Ranged s → Ranged (claim_tag s idx tag)
unfolding claim_tag
claim_tag-Ranged s idx tag h v = elim (Option-cases (tag_owner s tag)) [
  | inl e ↦ rw (e, claim_tag) (own_tag-Ranged s tag idx h v)
  | inr (o, e) ↦ rw (e, claim_tag) v
]

pub claim_tag-outputs : (s : State) (idx tag : ℕ) → (claim_tag s idx tag).outputs ≡ s.outputs
unfolding claim_tag
claim_tag-outputs s idx tag = ground arith

send_to-Ranged :
    (focus : Option ℕ) (s : State) (idx tag : ℕ)
    → idx < length s.outputs
    → tag < num_tags
    → Ranged s
    → Returns (send_to focus s idx tag) Ranged
unfolding send_to update_window
send_to-Ranged none s idx tag h k v = v
send_to-Ranged (some fid) s idx tag h k v =
    Returns-bind (refocus_output _ idx) _ Ranged Ranged
      (refocus_output-Ranged _ idx (rw (claim_tag-outputs s idx tag) h)
        (update_window-Ranged _ fid _ (λ _ _. k) (claim_tag-Ranged s idx tag h v)))
      mark_dirty-Ranged

-- Sending the focused window of any output to any tag, in range or not, returns a
-- state in range when the state was in range.
pub send_focused_to_tag-Ranged :
    (s : State) (idx tag : ℕ) → Ranged s → Returns (send_focused_to_tag s idx tag) Ranged
unfolding send_focused_to_tag
send_focused_to_tag-Ranged s idx tag v =
    elim (Bool-cases (ltb tag (length s.tags) && ltb idx (length s.outputs))) [
      | inr no_such ↦ rw no_such v
      | inl there ↦
          let h : idx < length s.outputs = ground arith in
          let (o, _, e) = index-of_lt s.outputs idx h in
          rw (there, e)
            (send_to-Ranged (sendable s o tag) s idx tag h (ground (arith, v.tag_count)) v)
    ]
