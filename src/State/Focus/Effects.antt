-- ===== src/State/Focus/Effects.antt =====
-- What the focus operations of src/state.rs achieve: the focused window is on the tag that is shown,
-- and a focused tag is shown by its owner.
use streamwm.Base.{
  ℕ, ◌<◌, ◌≡◌, refl, sym, ap, ◌∙◌, Bool, true, false, Option, none, some, List, [], ◌∷◌, inl, inr,
  arith, length, ltb, ◌==◌, ◌&&◌, any, find, map_opt, and_then, is_some_and, get_elem?, Bool-cases,
  Option-cases, Returns, Returns-bind, Returns-mono, index-of_lt, length-modify, All, index,
  if◌then◌else◌, get_elem?-of_lt, get_elem?-modify_self,
}
use streamwm.State.{State, Window, Output, num_tags, tag_owner, own_tag, mark_dirty, find_window}
use streamwm.State.Ranges.{Ranged, tag_owner-lt}
use streamwm.State.Focus.{
  on_active, keeps_focus, refocused, refocus_output, clear_fullscreen_on_tag, set_active,
  activate_tag, focus_tag_by, focus_tag,
}

-- A window with this id, that the test accepts; or no window that it accepts.
abbrev pub Chosen : (Window → Bool) → List Window → Option ℕ → Type 0
Chosen p ws none = All (λ w. p w ≡ false) ws
Chosen p ws (some id) = any (λ w. w.id == id && p w) ws ≡ true

module _ (p : Window → Bool) where
  kept-Chosen :
      (ws : List Window) (id : ℕ) (w : Window)
      → find (λ v. v.id == id) ws ≡ some w
      → p w ≡ true
      → Chosen p ws (some id)
  kept-Chosen [] id w e h = cc
  kept-Chosen (v ∷ ws) id w e h = ground (arith, kept-Chosen ws id w)

  found-Chosen : (ws : List Window) (w : Window) → find p ws ≡ some w → Chosen p ws (some w.id)
  found-Chosen [] w e = cc
  found-Chosen (v ∷ ws) w e = ground (arith, found-Chosen ws w)

  missing-Chosen : (ws : List Window) → find p ws ≡ none → Chosen p ws none
  missing-Chosen [] e = tt
  missing-Chosen (v ∷ ws) e = ground (arith, missing-Chosen ws)

  first-Chosen : (ws : List Window) → Chosen p ws (map_opt (λ w. w.id) (find p ws))
  first-Chosen ws = elim (Option-cases (find p ws)) [
    | inl e ↦ rw e (missing-Chosen ws e)
    | inr (w, e) ↦ rw e (found-Chosen ws w e)
  ]

  choice-Chosen :
      (ws : List Window) (f : Option ℕ)
      → Chosen p ws (
          if is_some_and (and_then f (λ id. find (λ v. v.id == id) ws)) p
          then f
          else map_opt (λ w. w.id) (find p ws))
  choice-Chosen ws none = first-Chosen ws
  choice-Chosen ws (some id) = elim (Option-cases (find (λ v. v.id == id) ws)) [
    | inl gone ↦ rw gone (first-Chosen ws)
    | inr (w, e) ↦ elim (Bool-cases (p w)) [
      | inl on ↦ rw (e, on) (kept-Chosen ws id w e on)
      | inr off ↦ rw (e, off) (first-Chosen ws)
    ]
  ]

pub refocused-Chosen :
    (s : State) (idx : ℕ) (o : Output) → Chosen (on_active s idx o) s.windows (refocused s idx o)
unfolding refocused keeps_focus find_window
refocused-Chosen s idx o = choice-Chosen (on_active s idx o) s.windows o.focused_window

-- After an output is refocused, its focused window is on the tag that it shows and owns, and it
-- has none only when no window is there; nothing else of the output changes.
pub refocus_output-Chosen :
    (s : State) (idx : ℕ) (o : Output)
    → get_elem? s.outputs idx ≡ some o
    → Returns (refocus_output s idx) (λ s'.
      (get_elem? s'.outputs idx ≡ some (record o { focused_window = refocused s idx o }))
      × Chosen (on_active s idx o) s.windows (refocused s idx o))
unfolding refocus_output
refocus_output-Chosen s idx o e =
    rw (e, index) (get_elem?-modify_self s.outputs idx _ o e, refocused-Chosen s idx o)

-- The output shows the tag.
abbrev pub Shows : State → ℕ → ℕ → Type 0
Shows s idx tag = map_opt (λ o. o.active_tag) (get_elem? s.outputs idx) ≡ some tag

refocus_output-Shows :
    (s : State) (idx tag : ℕ)
    → idx < length s.outputs
    → Shows s idx tag
    → Returns (refocus_output s idx) (λ s'. Shows s' idx tag × (s'.tags ≡ s.tags))
unfolding refocus_output
refocus_output-Shows s idx tag h shows =
    let (o, e, i) = index-of_lt s.outputs idx h in
    rw i (
      rw (get_elem?-modify_self s.outputs idx _ o e)
        (ap (map_opt (λ o. o.active_tag)) (sym e) ∙ shows, refl))

activate_tag-Shows :
    (s : State) (idx tag : ℕ)
    → idx < length s.outputs
    → Returns (activate_tag s idx tag) (λ s'. Shows s' idx tag × (s'.tags ≡ s.tags))
unfolding activate_tag set_active clear_fullscreen_on_tag
activate_tag-Shows s idx tag h =
    let (o, e, i) = index-of_lt s.outputs idx h in
    rw i (
      refocus_output-Shows _ idx tag
        (rw (length-modify s.outputs idx (λ out. record out { active_tag = tag })) h)
        (rw (get_elem?-modify_self s.outputs idx (λ out. record out { active_tag = tag }) o e)
          refl))

get_elem?-own_tag :
    (s : State) (idx tag : ℕ)
    → tag < length s.tags
    → and_then (get_elem? (own_tag tag idx s.tags) tag) (λ t. t.output) ≡ some idx
unfolding own_tag
get_elem?-own_tag s idx tag h =
    let (t, e) = get_elem?-of_lt s.tags tag h in
    rw (get_elem?-modify_self s.tags tag (λ t. record t { output = some idx }) t e) refl

-- The owner of the tag, which shows it.
abbrev pub IsShown : State → ℕ → Type 0
IsShown s tag = (o : ℕ) × (tag_owner s tag ≡ some o) × Shows s o tag

focus_tag_by-IsShown :
    (owner : Option ℕ) (s : State) (idx tag : ℕ)
    → tag_owner s tag ≡ owner
    → idx < length s.outputs
    → tag < length s.tags
    → Ranged s
    → Returns (focus_tag_by owner s idx tag) (λ s'. IsShown s' tag)
unfolding focus_tag_by tag_owner
focus_tag_by-IsShown none s idx tag e h k v =
    Returns-mono _ _ (λ s'. IsShown s' tag)
      (activate_tag-Shows (record s { tags = own_tag tag idx s.tags }) idx tag h)
      (λ s' w. (idx, rw w.1 (get_elem?-own_tag s idx tag k), w.0))
focus_tag_by-IsShown (some owner) s idx tag e h k v = elim (Bool-cases (owner == idx)) [
  | inl same ↦ rw same (
      Returns-mono _ _ (λ s'. IsShown s' tag) (activate_tag-Shows s idx tag h)
        (λ s' w. (idx, rw w.1 (e ∙ ap some (ground arith)), w.0)))
  | inr other ↦ rw other (
      Returns-mono _ _ (λ s'. IsShown s' tag)
        (activate_tag-Shows (record s { focused_output = some owner }) owner tag
          (tag_owner-lt s tag owner v e))
        (λ s' w. (owner, rw w.1 e, w.0)))
]

-- Focusing a tag from any output shows it on the output that owns it, which is some output from
-- then on, for a tag and an output in range and a state whose indices, tags and geometry are in
-- range.
pub focus_tag-IsShown :
    (s : State) (idx tag : ℕ)
    → idx < length s.outputs
    → tag < num_tags
    → Ranged s
    → Returns (focus_tag s idx tag) (λ s'. IsShown s' tag)
unfolding focus_tag mark_dirty tag_owner
focus_tag-IsShown s idx tag h k v =
    let known : ltb tag (length s.tags) ≡ true = ground (arith, v.tag_count) in
    let there : ltb idx (length s.outputs) ≡ true = ground arith in
    rw (known, there)
      (Returns-bind (focus_tag_by (tag_owner s tag) s idx tag) _ (λ s'. IsShown s' tag) _
        (focus_tag_by-IsShown (tag_owner s tag) s idx tag refl h (omega (arith, v.tag_count)) v)
        (λ s' w. w))
