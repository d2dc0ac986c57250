-- ===== src/State/Outputs.antt =====
-- src/state.rs: giving tags to outputs, removing an output, and repairing active tags, focus and
-- floating positions afterwards.
pub mod Ranges
pub mod Clamping
pub mod Dialogs
pub mod Dropping
pub mod Removal
pub mod Best
pub mod Settled
use Prim.Native.Nat.{bit_and, bit_or}
use streamwm.Base.{
  ◌>>=◌, ℕ, zero, suc, ◌-◌, ◌^◌, ◌%◌, Option, none, some, List, [], ◌∷◌, ◌++◌, map, if◌then◌else◌,
  ◌==◌, ◌&&◌, ◌||◌, ltb, not, same_opt, and_then, or_else, get_or_else, is_some_and, length,
  get_elem?, position, any, erase_idx, Outcome, done, index,
}
use streamwm.Protocol.{Request, destroy, release}
use streamwm.State.{State, Window, Output, Tag, Area, tag_owner, own_tag, free_tag, output_area}
use streamwm.State.Focus.{set_active, refocus_output}
use streamwm.State.Geometry.{clamp_rect_to_area}

-- `1u32 << tag`: a release build takes the shift modulo 32.
unfoldable pub tag_bit : ℕ → ℕ
tag_bit tag = 2 ^ (tag % 32)

unfoldable pub occupied_from : ℕ → List Window → ℕ
unfolding tag_bit
occupied_from acc [] = acc
occupied_from acc (w ∷ ws) = occupied_from (bit_or acc (tag_bit w.tag)) ws

unfoldable pub occupied_mask : List Window → ℕ
unfolding occupied_from
occupied_mask ws = occupied_from 0 ws

-- The first tag, counted from `t`, that the output owns and whose bit is set.
unfoldable pub occupied_tag_from : ℕ → ℕ → ℕ → List Tag → Option ℕ
unfolding tag_bit
occupied_tag_from t mask idx [] = none
occupied_tag_from t mask idx (tag ∷ tags) =
    if same_opt tag.output (some idx) && not (bit_and mask (tag_bit t) == 0)
    then some t
    else occupied_tag_from (suc t) mask idx tags

unfoldable pub owned_tag : State → ℕ → Option ℕ
owned_tag s idx = position (λ t. same_opt t.output (some idx)) s.tags

unfoldable pub best_tag_for_output : State → ℕ → Option ℕ
unfolding tag_owner occupied_mask occupied_tag_from owned_tag
best_tag_for_output s idx = and_then (get_elem? s.outputs idx) λ o.
    if same_opt (tag_owner s o.active_tag) (some idx)
    then some o.active_tag
    else or_else (occupied_tag_from 0 (occupied_mask s.windows) idx s.tags) (owned_tag s idx)

-- The new active tag of an output that does not own the one it shows: the best tag, else a free
-- tag, which it then owns, else no change.
unfoldable pub retag : Option ℕ → Option ℕ → State → ℕ → State
unfolding set_active own_tag
retag (some tag) free s idx = record s { outputs = set_active idx tag s.outputs }
retag none (some tag) s idx = record s {
  tags = own_tag tag idx s.tags;
  outputs = set_active idx tag s.outputs;
}
retag none none s idx = s

unfoldable pub normalize_output : State → ℕ → Outcome State
unfolding tag_owner
normalize_output s idx = do
  o ← index s.outputs idx
  refocus_output
      (if same_opt (tag_owner s o.active_tag) (some idx)
        then s
        else retag (best_tag_for_output s idx) (free_tag s) s idx)
      idx

-- The loop over `idx, idx + 1, …`, with the rounds left.
unfoldable pub normalize_from : ℕ → ℕ → State → Outcome State
normalize_from zero idx s = done s
normalize_from (suc left) idx s = do s' ← normalize_output s idx; normalize_from left (suc idx) s'

unfoldable pub focus_in_range : State → State
focus_in_range s =
    if is_some_and s.focused_output (λ f. ltb f (length s.outputs))
    then s
    else record s { focused_output = some 0 }

unfoldable pub normalize_by : List Output → State → Outcome State
normalize_by [] s = done (record s { focused_output = none })
normalize_by (o ∷ os) s = normalize_from (length s.outputs) 0 (focus_in_range s)

unfoldable pub normalize_outputs : State → Outcome State
normalize_outputs s = normalize_by s.outputs s

-- The area that a floating window is clamped to.
unfoldable pub float_area : State → Window → Option Area
unfolding tag_owner output_area
float_area s w =
    get_elem? (map output_area s.outputs)
      (get_or_else (or_else (tag_owner s w.tag) s.focused_output) 0)

unfoldable pub clamp_to : Option Area → Window → Outcome Window
clamp_to none w = done w
clamp_to (some a) w = if a.width == 0 || a.height == 0 then done w else (do
  p ← clamp_rect_to_area w.float_x w.float_y w.float_w w.float_h a
  done (record w { float_x = p.0; float_y = p.1 }))

unfoldable pub clamp_window : State → Window → Outcome Window
clamp_window s w = if w.floating then clamp_to (float_area s w) w else done w

unfoldable pub clamp_each : State → List Window → Outcome (List Window)
clamp_each s [] = done []
clamp_each s (w ∷ ws) = do w' ← clamp_window s w; ws' ← clamp_each s ws; done (w' ∷ ws')

unfoldable pub clamp_by : List Output → State → Outcome State
clamp_by [] s = done s
clamp_by (o ∷ os) s = do ws ← clamp_each s s.windows; done (record s { windows = ws })

unfoldable pub clamp_floating_windows : State → Outcome State
clamp_floating_windows s = clamp_by s.outputs s

unfoldable pub repair_outputs : State → Outcome State
repair_outputs s = do s' ← normalize_outputs s; clamp_floating_windows s'

unfoldable pub initial_tag : Option ℕ → State → ℕ → State
unfolding set_active own_tag
initial_tag none s idx = s
initial_tag (some tag) s idx = record s {
  tags = own_tag tag idx s.tags;
  outputs = set_active idx tag s.outputs;
}

unfoldable pub assign_initial_tag : State → ℕ → Outcome State
assign_initial_tag s idx =
    if any (λ t. same_opt t.output (some idx)) s.tags
    then done s
    else normalize_outputs (initial_tag (free_tag s) s idx)

-- One owner under `remap_tag_owners`.
unfoldable pub remap_owner : ℕ → ℕ → Option ℕ → Option ℕ
remap_owner removed remaining none = none
remap_owner removed remaining (some o) =
    if remaining == 0
    then none
    else if o == removed
    then some 0
    else if ltb removed o
    then some (o - 1)
    else some o

unfoldable pub remap_tag_owners : ℕ → ℕ → List (Option ℕ) → List (Option ℕ)
unfolding remap_owner
remap_tag_owners removed remaining owners = map (remap_owner removed remaining) owners

abbrev pub with_output : Option ℕ → Tag → Tag
with_output o t = record t { output = o }

-- `for (tag, owner) in tags.zip(owners)`
unfoldable pub write_owners : List Tag → List (Option ℕ) → List Tag
write_owners [] owners = []
write_owners (t ∷ ts) [] = t ∷ ts
write_owners (t ∷ ts) (o ∷ os) = with_output o t ∷ write_owners ts os

unfoldable pub refocus_after_removal : ℕ → ℕ → Option ℕ → Option ℕ
refocus_after_removal removed remaining focused =
    if same_opt focused (some removed)
    then if remaining == 0 then none else some 0
    else if is_some_and focused (ltb removed)
    then elim focused [ none ↦ none | some f ↦ some (f - 1) ]
    else focused

unfoldable pub drop_output : State → ℕ → State
unfolding remap_tag_owners write_owners refocus_after_removal
drop_output s idx =
    let outputs = erase_idx s.outputs idx in
    record s {
      outputs = outputs;
      tags =
          write_owners s.tags (remap_tag_owners idx (length outputs) (map (λ t. t.output) s.tags));
      focused_output = refocus_after_removal idx (length outputs) s.focused_output;
    }

-- The requests for the removed output: its layer state, its `wl_output`, itself.
unfoldable pub retire : Output → List Request
retire o =
    elim o.layer [ none ↦ [] | some l ↦ destroy l ∷ [] ]
    ++ (elim o.wl_output [ none ↦ [] | some p ↦ release p ∷ [] ] ++ destroy o.proxy ∷ [])

unfoldable pub remove_found : Option Output → State → ℕ → Outcome (State × List Request)
remove_found none s idx = done (s, [])
remove_found (some removed) s idx = do
  s' ← normalize_outputs (drop_output s idx)
  s'' ← clamp_floating_windows s'
  done (s'', retire removed)

unfoldable pub remove_output : State → ℕ → Outcome (State × List Request)
remove_output s idx = remove_found (get_elem? s.outputs idx) s idx
