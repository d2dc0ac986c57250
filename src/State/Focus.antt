-- ===== src/State/Focus.antt =====
-- src/state.rs: the focused window of an output, the active tag, and what the two changes do to
-- the windows. Each early return of the source is a branch that returns the state unchanged.
pub mod Ranges
pub mod Safety
pub mod Effects
use streamwm.Base.{
  ◌>>=◌, ℕ, Bool, false, Option, none, some, List, [], ◌∷◌, if◌then◌else◌, ◌==◌, ◌&&◌, ltb, not,
  same_opt, and_then, map_opt, is_some_and, length, get_elem?, find, any, modify, map, Outcome,
  done, index,
}
use streamwm.Protocol.{Request, destroy}
use streamwm.State.{
  State, Window, Output, find_window, update_window, tag_owner, own_tag, mark_dirty,
}

-- The window is on the active tag of this output, and the output owns that tag.
unfoldable pub on_active : State → ℕ → Output → Window → Bool
unfolding tag_owner
on_active s idx o w = same_opt (tag_owner s w.tag) (some idx) && w.tag == o.active_tag

unfoldable pub keeps_focus : State → ℕ → Output → Bool
unfolding on_active find_window
keeps_focus s idx o =
    is_some_and (and_then o.focused_window (find_window s)) (λ w. on_active s idx o w)

unfoldable pub refocused : State → ℕ → Output → Option ℕ
unfolding keeps_focus on_active
refocused s idx o =
    if keeps_focus s idx o
    then o.focused_window
    else map_opt (λ w. w.id) (find (on_active s idx o) s.windows)

unfoldable pub refocus_output : State → ℕ → Outcome State
unfolding refocused
refocus_output s idx = do
  o ← index s.outputs idx
  let focus = refocused s idx o
  done (record s { outputs = modify s.outputs idx (λ out. record out { focused_window = focus }) })

unfoldable pub clear_fullscreen : ℕ → List Window → List Window
clear_fullscreen tag ws = map (λ w. if w.tag == tag then record w { fullscreen = false } else w) ws

unfoldable pub clear_fullscreen_on_tag : State → ℕ → State
unfolding clear_fullscreen
clear_fullscreen_on_tag s tag = record s { windows = clear_fullscreen tag s.windows }

unfoldable pub set_active : ℕ → ℕ → List Output → List Output
set_active idx tag os = modify os idx (λ out. record out { active_tag = tag })

unfoldable pub activate_tag : State → ℕ → ℕ → Outcome State
unfolding set_active clear_fullscreen_on_tag refocus_output
activate_tag s idx tag = do
  o ← index s.outputs idx
  let shown = record s { outputs = set_active idx tag s.outputs }
  refocus_output (clear_fullscreen_on_tag shown o.active_tag) idx

unfoldable pub switch_active_tag : State → ℕ → ℕ → Outcome State
unfolding set_active clear_fullscreen_on_tag refocus_output
switch_active_tag s idx tag = elim (get_elem? s.outputs idx) [
  | none ↦ done s
  | some o ↦
      let shown = record s { outputs = set_active idx tag s.outputs } in
      refocus_output
        (if o.active_tag == tag then shown else clear_fullscreen_on_tag shown o.active_tag) idx
]

-- The three cases of `focus_tag`, by the owner of the tag.
unfoldable pub focus_tag_by : Option ℕ → State → ℕ → ℕ → Outcome State
unfolding activate_tag own_tag
focus_tag_by none s idx tag = activate_tag (record s { tags = own_tag tag idx s.tags }) idx tag
focus_tag_by (some owner) s idx tag =
    if owner == idx
    then activate_tag s idx tag
    else activate_tag (record s { focused_output = some owner }) owner tag

unfoldable pub focus_tag : State → ℕ → ℕ → Outcome State
unfolding focus_tag_by tag_owner mark_dirty
focus_tag s idx tag =
    if ltb tag (length s.tags) && ltb idx (length s.outputs)
    then (do s' ← focus_tag_by (tag_owner s tag) s idx tag; done (mark_dirty s'))
    else done s

-- The focused window, if it is on another tag.
unfoldable pub sendable : State → Output → ℕ → Option ℕ
unfolding find_window
sendable s o tag =
    and_then o.focused_window
      λ fid. if is_some_and (find_window s fid) (λ w. not (w.tag == tag)) then some fid else none

unfoldable pub claim_tag : State → ℕ → ℕ → State
unfolding tag_owner own_tag
claim_tag s idx tag = elim (tag_owner s tag) [
  | none ↦ record s { tags = own_tag tag idx s.tags }
  | some o ↦ s
]

unfoldable pub send_to : Option ℕ → State → ℕ → ℕ → Outcome State
unfolding claim_tag update_window refocus_output mark_dirty
send_to none s idx tag = done s
send_to (some fid) s idx tag = do
  let moved = update_window (claim_tag s idx tag) fid (λ w. record w { tag = tag })
  s' ← refocus_output moved idx
  done (mark_dirty s')

unfoldable pub send_focused_to_tag : State → ℕ → ℕ → Outcome State
unfolding sendable send_to
send_focused_to_tag s idx tag =
    if ltb tag (length s.tags) && ltb idx (length s.outputs)
    then (do o ← index s.outputs idx; send_to (sendable s o tag) s idx tag)
    else done s

-- `release_hidden_nodes`: the windows, and the destroyed nodes.
unfoldable pub release_nodes : List ℕ → List Window → List Window × List Request
release_nodes active [] = ([], [])
release_nodes active (w ∷ ws) =
    let (rest, sent) = release_nodes active ws in
    if any (λ t. t == w.tag) active then (w ∷ rest, sent) else elim w.node [
      | none ↦ (w ∷ rest, sent)
      | some node ↦ (record w { node = none } ∷ rest, destroy node ∷ sent)
    ]

unfoldable pub release_hidden_nodes : State → State × List Request
unfolding release_nodes
release_hidden_nodes s =
    let (ws, sent) = release_nodes (map (λ o. o.active_tag) s.outputs) s.windows in
    (record s { windows = ws }, sent)
