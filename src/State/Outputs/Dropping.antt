-- ===== src/State/Outputs/Dropping.antt =====
-- Dropping an output (src/state.rs): the owners of the tags afterwards, and the invariant.
use streamwm.Base.{
  ℕ, suc, ◌<◌, ◌≤◌, ◌≡◌, refl, sym, ◌∙◌, subst, Option, none, some, List, [], ◌∷◌, arith, length,
  map, length-map, All-erase_idx, length-erase_idx, erase_idx,
}
use streamwm.State.{State, Tag}
use streamwm.State.Ranges.{Below, TagsFit, Ranged}
use streamwm.State.Outputs.{
  remap_owner, remap_tag_owners, write_owners, with_output, refocus_after_removal, drop_output,
}

-- The owners after a removal are in range of the outputs that remain.
pub remap_owner-Below :
    (n removed : ℕ) (owner : Option ℕ)
    → removed ≤ n
    → Below (suc n) owner
    → Below n (remap_owner removed n owner)
unfolding remap_owner
remap_owner-Below n removed none h b = tt
remap_owner-Below n removed (some o) h b = ground arith

refocus_after_removal-Below :
    (n removed : ℕ) (focused : Option ℕ)
    → removed ≤ n
    → Below (suc n) focused
    → Below n (refocus_after_removal removed n focused)
unfolding refocus_after_removal
refocus_after_removal-Below n removed none h b = tt
refocus_after_removal-Below n removed (some o) h b = ground arith

-- Reading the owners, remapping each and writing them back is one pass over the tags.
pub write_owners-map :
    (f : Option ℕ → Option ℕ) (ts : List Tag)
    → write_owners ts (map f (map (λ t. t.output) ts)) ≡ map (λ t. with_output (f t.output) t) ts
unfolding write_owners
write_owners-map f [] = refl
write_owners-map f (t ∷ ts) = rw (write_owners-map f ts)

module _ (n removed : ℕ) (h : removed ≤ n) where
  remapped-TagsFit :
      (ts : List Tag)
      → TagsFit (suc n) ts
      → TagsFit n (map (λ t. with_output (remap_owner removed n t.output) t) ts)
  remapped-TagsFit [] b = tt
  remapped-TagsFit (t ∷ ts) b =
      (remap_owner-Below n removed t.output h b.0, remapped-TagsFit ts b.1)

pub drop_output-Ranged :
    (s : State) (idx : ℕ) → idx < length s.outputs → Ranged s → Ranged (drop_output s idx)
unfolding drop_output remap_tag_owners
drop_output-Ranged s idx h v =
    let n = length (erase_idx s.outputs idx) in
    let e = length-erase_idx s.outputs idx h in
    let le : idx ≤ n = omega arith in
    let pass = write_owners-map (remap_owner idx n) s.tags in
    record {
      tag_count = rw pass (length-map s.tags _ ∙ v.tag_count);
      owned =
          rw pass
            (remapped-TagsFit n idx le s.tags (subst (λ m. TagsFit m s.tags) (sym e) v.owned));
      focus =
          refocus_after_removal-Below n idx s.focused_output le
            (subst (λ m. Below m s.focused_output) (sym e) v.focus);
      shown = All-erase_idx _ s.outputs idx v.shown;
      placed = v.placed;
    }
