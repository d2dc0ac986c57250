-- ===== src/State/Outputs/Best.antt =====
-- What the choice of a tag for an output finds (src/state.rs, `best_tag_for_output`).
use Prim.Native.Nat.{bit_and}
use streamwm.Base.{
  ℕ, suc, ◌+◌, ◌≡◌, ◌≢◌, refl, sym, ap, ◌∙◌, Bool, true, false, Option, none, some, List, [], ◌∷◌,
  ◌⊎◌, inl, inr, arith, get_elem?, and_then, or_else, ◌==◌, Bool-cases, Option-cases, same_opt, not,
  ◌&&◌,
}
use streamwm.State.{State, Output, Tag, tag_owner}
use streamwm.State.Owners.{owner, same_opt-eq, same_opt-ne, position_from-none, position_from-some}
use streamwm.State.Outputs.{
  tag_bit, best_tag_for_output, occupied_tag_from, occupied_mask, owned_tag,
}

and_true : (a b : Bool) → (a && b) ≡ true → a ≡ true
and_true true b e = refl
and_true false b e = cc

occupied_tag_from-owner :
    (t mask idx : ℕ) (tags : List Tag) (j : ℕ)
    → occupied_tag_from t mask idx tags ≡ some j
    → (k : ℕ) × (j ≡ t + k) × (owner tags k ≡ some idx)
unfolding occupied_tag_from
occupied_tag_from-owner t mask idx [] j e = cc
occupied_tag_from-owner t mask idx (x ∷ tags) j e =
    elim (Bool-cases (same_opt x.output (some idx) && not (bit_and mask (tag_bit t) == 0))) [
      | inl here ↦ (
        0,
        ground arith,
        same_opt-eq x.output idx (and_true (same_opt x.output (some idx)) _ here),
      )
      | inr on ↦
          let (k, at, found) = occupied_tag_from-owner (suc t) mask idx tags j (ground arith) in
          (suc k, omega (arith, at), found)
    ]

owned_tag-owner : (s : State) (idx j : ℕ) → owned_tag s idx ≡ some j → owner s.tags j ≡ some idx
unfolding owned_tag
owned_tag-owner s idx j e =
    let (k, x, at, found, good) = position_from-some _ 0 s.tags j e in
    let same : j ≡ k = omega (arith, at) in rw (same, found) (same_opt-eq x.output idx good)

owned_tag-none :
    (s : State) (idx : ℕ) → owned_tag s idx ≡ none → (t : ℕ) → owner s.tags t ≢ some idx
unfolding owned_tag
owned_tag-none s idx e t h = elim (Option-cases (get_elem? s.tags t)) [
  | inl missing ↦ let gone : owner s.tags t ≡ none = rw missing refl in cc
  | inr (x, found) ↦
      same_opt-ne x.output idx (position_from-none _ 0 s.tags t x e found)
        (sym (ap (λ o. and_then o λ tag. tag.output) found) ∙ h)
]

or_else-some : (a b : Option ℕ) (j : ℕ) → or_else a b ≡ some j → (a ≡ some j) ⊎ (b ≡ some j)
or_else-some none b j e = inr e
or_else-some (some a) b j e = inl e

or_else-none : (a b : Option ℕ) → or_else a b ≡ none → b ≡ none
or_else-none none b e = e
or_else-none (some a) b e = cc

-- The output does not own the tag that it shows.
module _ (s : State) (idx : ℕ) (o : Output) (found : get_elem? s.outputs idx ≡ some o)
    (bad : same_opt (tag_owner s o.active_tag) (some idx) ≡ false) where
  best-bad :
      best_tag_for_output s idx
      ≡ or_else (occupied_tag_from 0 (occupied_mask s.windows) idx s.tags) (owned_tag s idx)
  unfolding best_tag_for_output
  best-bad = rw (found, bad) refl

  pub best-owner : (j : ℕ) → best_tag_for_output s idx ≡ some j → owner s.tags j ≡ some idx
  best-owner j e =
      elim (or_else-some (occupied_tag_from 0 (occupied_mask s.windows) idx s.tags)
        (owned_tag s idx) j (sym best-bad ∙ e)) [
          | inl occupied ↦
              let (k, at, owns) =
                occupied_tag_from-owner 0 (occupied_mask s.windows) idx s.tags j occupied in
              let same : j ≡ k = omega (arith, at) in rw same owns
          | inr owned ↦ owned_tag-owner s idx j owned
        ]

  pub best-none : best_tag_for_output s idx ≡ none → (t : ℕ) → owner s.tags t ≢ some idx
  best-none e = owned_tag-none s idx (
      or_else-none (occupied_tag_from 0 (occupied_mask s.windows) idx s.tags) (owned_tag s idx)
        (sym best-bad ∙ e))
