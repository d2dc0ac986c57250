-- ===== src/State/Outputs/Ranges.antt =====
-- Normalizing outputs, and giving one its first tag (src/state.rs), returns on
-- every state in range, and keeps it in range.
use streamwm.Base.{
  ℕ, zero, suc, ◌+◌, ◌<◌, ◌≤◌, ◌≡◌, refl, ap, ◌∙◌, subst, Bool, Option, none, some, List, [], ◌∷◌,
  inl, inr, arith, length, get_elem?, Bool-cases, Option-cases, Returns, Returns-mono, Returns-bind,
  index-of_lt, All-get, length-modify, position_from, position, any, same_opt,
}
use streamwm.State.{State, Output, Tag, num_tags, tag_owner, free_tag}
use streamwm.State.Ranges.{Ranged, modify_output-Ranged, own_tag-Ranged, focus-Ranged}
use streamwm.State.Focus.{refocus_output}
use streamwm.State.Focus.Ranges.{set_active-Ranged, length-set_active}
use streamwm.State.Outputs.{
  best_tag_for_output, occupied_tag_from, occupied_mask, owned_tag, retag, normalize_output,
  normalize_from, focus_in_range, normalize_outputs, initial_tag, assign_initial_tag, normalize_by,
}

pub position_from-lt {ℓ} :
    {A : Type ℓ} (i : ℕ) (p : A → Bool) (xs : List A) (j : ℕ)
    → position_from i p xs ≡ some j
    → j < i + length xs
position_from-lt i p [] j e = cc
position_from-lt i p (x ∷ xs) j e = ground (arith, position_from-lt (suc i) p xs j)

pub position-lt {ℓ} :
    {A : Type ℓ} (p : A → Bool) (xs : List A) (i : ℕ) → position p xs ≡ some i → i < length xs
position-lt p xs i e = omega (arith, position_from-lt 0 p xs i e)

occupied_tag_from-lt :
    (t mask idx : ℕ) (tags : List Tag) (j : ℕ)
    → occupied_tag_from t mask idx tags ≡ some j
    → j < t + length tags
unfolding occupied_tag_from
occupied_tag_from-lt t mask idx [] j e = cc
occupied_tag_from-lt t mask idx (x ∷ tags) j e =
    ground (arith, occupied_tag_from-lt (suc t) mask idx tags j)

module _ (s : State) (idx : ℕ) (v : Ranged s) where
  owned_tag-lt : (j : ℕ) → owned_tag s idx ≡ some j → j < num_tags
  unfolding owned_tag
  owned_tag-lt j e = omega (arith, position_from-lt 0 _ s.tags j e, v.tag_count)

  pub free_tag-lt : (j : ℕ) → free_tag s ≡ some j → j < num_tags
  unfolding free_tag
  free_tag-lt j e = omega (arith, position_from-lt 0 _ s.tags j e, v.tag_count)

  best_tag_for_output-lt : (j : ℕ) → best_tag_for_output s idx ≡ some j → j < num_tags
  unfolding best_tag_for_output
  best_tag_for_output-lt j e = elim (Option-cases (get_elem? s.outputs idx)) [
    | inl missing ↦ ground arith
    | inr (o, found) ↦
        let shown = All-get _ s.outputs idx o found v.shown in
        ground (
          arith,
          occupied_tag_from-lt 0 (occupied_mask s.windows) idx s.tags j,
          owned_tag-lt j,
          v.tag_count,
        )
  ]

retag-Ranged :
    (best free : Option ℕ) (s : State) (idx : ℕ)
    → idx < length s.outputs
    → ((j : ℕ) → best ≡ some j → j < num_tags)
    → ((j : ℕ) → free ≡ some j → j < num_tags)
    → Ranged s
    → Ranged (retag best free s idx)
unfolding retag
retag-Ranged (some tag) free s idx h kb kf v = set_active-Ranged s idx tag (kb tag refl) v
retag-Ranged none (some tag) s idx h kb kf v =
    set_active-Ranged _ idx tag (kf tag refl) (own_tag-Ranged s tag idx h v)
retag-Ranged none none s idx h kb kf v = v

pub length-retag :
    (best free : Option ℕ) (s : State) (idx : ℕ)
    → length (retag best free s idx).outputs ≡ length s.outputs
unfolding retag
length-retag (some tag) free s idx = length-set_active idx tag s.outputs
length-retag none (some tag) s idx = length-set_active idx tag s.outputs
length-retag none none s idx = refl

-- What the loop keeps: the state is in range and has `n` outputs.
abbrev pub Sized : ℕ → State → Type 0
Sized n s = Ranged s × (length s.outputs ≡ n)

pub refocus_output-Sized :
    (n : ℕ) (s : State) (idx : ℕ) → idx < n → Sized n s → Returns (refocus_output s idx) (Sized n)
unfolding refocus_output
refocus_output-Sized n s idx h (v, e) =
    let (o, _, found) = index-of_lt s.outputs idx (omega arith) in
    rw found (modify_output-Ranged s idx _ (λ _ k. k) v, length-modify s.outputs idx _ ∙ e)

pub normalize_output-Sized :
    (n : ℕ) (s : State) (idx : ℕ) → idx < n → Sized n s → Returns (normalize_output s idx) (Sized n)
unfolding normalize_output
normalize_output-Sized n s idx h (v, same) =
    let lt : idx < length s.outputs = omega arith in
    let (o, _, e) = index-of_lt s.outputs idx lt in
    let best = best_tag_for_output s idx in
    let free = free_tag s in
    elim (Bool-cases (same_opt (tag_owner s o.active_tag) (some idx))) [
      | inl good ↦ rw (e, good) (refocus_output-Sized n s idx h (v, same))
      | inr bad ↦
          rw (e, bad)
            (refocus_output-Sized n (retag best free s idx) idx h (
              retag-Ranged best free s idx lt (best_tag_for_output-lt s idx v) (free_tag-lt s idx v)
                  v,
              length-retag best free s idx ∙ same,
            ))
    ]

normalize_from-Sized :
    (n left idx : ℕ) (s : State)
    → idx + left ≤ n
    → Sized n s
    → Returns (normalize_from left idx s) (Sized n)
unfolding normalize_from
normalize_from-Sized n zero idx s h v = v
normalize_from-Sized n (suc left) idx s h v =
    Returns-bind (normalize_output s idx) (normalize_from left (suc idx)) (Sized n) (Sized n)
      (normalize_output-Sized n s idx (omega arith) v)
      (λ s' v'. normalize_from-Sized n left (suc idx) s' (omega arith) v')

pub focus_in_range-Ranged :
    (s : State) → 0 < length s.outputs → Ranged s → Ranged (focus_in_range s)
unfolding focus_in_range
focus_in_range-Ranged s h v = ground (arith, focus-Ranged s (some 0) h v)

pub focus_in_range-outputs : (s : State) → (focus_in_range s).outputs ≡ s.outputs
unfolding focus_in_range
focus_in_range-outputs s = ground arith

normalize_by-Sized :
    (os : List Output) (s : State)
    → s.outputs ≡ os
    → Ranged s
    → Returns (normalize_by os s) (Sized (length s.outputs))
unfolding normalize_by
normalize_by-Sized [] s e v = (focus-Ranged s none tt v, refl)
normalize_by-Sized (o ∷ os) s e v =
    normalize_from-Sized (length s.outputs) (length s.outputs) 0 (focus_in_range s) (omega arith)
      (focus_in_range-Ranged s (omega (arith, ap length e)) v, ap length (focus_in_range-outputs s))

normalize_outputs-Sized :
    (s : State) → Ranged s → Returns (normalize_outputs s) (Sized (length s.outputs))
unfolding normalize_outputs
normalize_outputs-Sized s v = normalize_by-Sized s.outputs s refl v

-- Normalizing the outputs of a state in range returns a state in range: every active tag,
-- tag owner and focused output stays in range.
normalize_outputs-Ranged : (s : State) → Ranged s → Returns (normalize_outputs s) Ranged
normalize_outputs-Ranged s v =
    Returns-mono (normalize_outputs s) (Sized (length s.outputs)) Ranged
      (normalize_outputs-Sized s v) (λ s' w. w.0)

pub length-initial_tag :
    (free : Option ℕ) (s : State) (idx : ℕ)
    → length (initial_tag free s idx).outputs ≡ length s.outputs
unfolding initial_tag
length-initial_tag none s idx = refl
length-initial_tag (some tag) s idx = length-set_active idx tag s.outputs

pub initial_tag-Ranged :
    (free : Option ℕ) (s : State) (idx : ℕ)
    → idx < length s.outputs
    → ((j : ℕ) → free ≡ some j → j < num_tags)
    → Ranged s
    → Ranged (initial_tag free s idx)
unfolding initial_tag
initial_tag-Ranged none s idx h k v = v
initial_tag-Ranged (some tag) s idx h k v =
    set_active-Ranged _ idx tag (k tag refl) (own_tag-Ranged s tag idx h v)

pub assign_initial_tag-Sized :
    (s : State) (idx : ℕ)
    → idx < length s.outputs
    → Ranged s
    → Returns (assign_initial_tag s idx) (Sized (length s.outputs))
unfolding assign_initial_tag
assign_initial_tag-Sized s idx h v =
    elim (Bool-cases (any (λ t. same_opt t.output (some idx)) s.tags)) [
      | inl owns ↦ rw owns (v, refl)
      | inr owns_none ↦ rw owns_none (
          subst (λ n. Returns (normalize_outputs (initial_tag (free_tag s) s idx)) (Sized n))
            (length-initial_tag (free_tag s) s idx)
            (normalize_outputs-Sized _
              (initial_tag-Ranged (free_tag s) s idx h (free_tag-lt s idx v) v)))
    ]

-- Giving an output in range its first tag returns a state in range when the state was
-- in range.
pub assign_initial_tag-Ranged :
    (s : State) (idx : ℕ)
    → idx < length s.outputs
    → Ranged s
    → Returns (assign_initial_tag s idx) Ranged
assign_initial_tag-Ranged s idx h v =
    Returns-mono (assign_initial_tag s idx) (Sized (length s.outputs)) Ranged
      (assign_initial_tag-Sized s idx h v) (λ s' w. w.0)
