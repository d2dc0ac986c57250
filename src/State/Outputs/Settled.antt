-- ===== src/State/Outputs/Settled.antt =====
-- Normalizing the outputs (src/state.rs, `normalize_outputs`), and giving one its first tag, settles
-- every output on a tag.
use streamwm.Base.{
  ℕ, zero, suc, ◌+◌, ◌<◌, ◌≡◌, ◌≢◌, refl, sym, ap, subst, Option, none, some, List, [], ◌∷◌, inl,
  inr, arith, get_elem?-lt, Option-cases, any, false, length, get_elem?, ◌==◌, Bool-cases, Returns,
  Returns-mono, Returns-and, Returns-bind, index-of_lt, position, same_opt,
}
use streamwm.State.{State, Output, Tag, tag_owner, own_tag, free_tag}
use streamwm.State.Ranges.{Ranged, Below, TagsFit, focus-Ranged}
use streamwm.State.Invariant.{WellFormed}
use streamwm.State.Focus.Safety.{refocus_output-Settled}
use streamwm.State.Focus.{refocus_output}
use streamwm.State.Outputs.{
  best_tag_for_output, retag, normalize_output, normalize_from, focus_in_range, normalize_outputs,
  normalize_by, assign_initial_tag, initial_tag,
}
use streamwm.State.Outputs.Best.{best-owner, best-none}
use streamwm.State.Owners.{
  owner, unowned, Stuck, SettledIn, shown, Settled, same_opt-eq, set_active-shown,
  set_active-others, owner-own_tag, SettledIn-own_tag, free_tag-unowned,
}
use streamwm.State.Outputs.Ranges.{
  Sized, refocus_output-Sized, length-retag, normalize_output-Sized, focus_in_range-Ranged,
  focus_in_range-outputs, initial_tag-Ranged, length-initial_tag, free_tag-lt,
}

Stuck-SettledIn : (tags : List Tag) (j : ℕ) (x : Option ℕ) → Stuck tags j → SettledIn tags j x
Stuck-SettledIn tags j none h = tt
Stuck-SettledIn tags j (some tag) h = inr h

retag-Settled :
    (best free : Option ℕ) (s : State) (idx : ℕ)
    → idx < length s.outputs
    → ((j : ℕ) → best ≡ some j → owner s.tags j ≡ some idx)
    → (best ≡ none → (t : ℕ) → owner s.tags t ≢ some idx)
    → position unowned s.tags ≡ free
    → Settled (retag best free s idx) idx
unfolding retag
retag-Settled (some tag) free s idx h owns no_tag first =
    rw (set_active-shown s idx tag s.tags h) (inl (owns tag refl))
retag-Settled none (some tag) s idx h owns no_tag first =
    rw (set_active-shown s idx tag (own_tag tag idx s.tags) h)
      (inl (owner-own_tag s.tags tag idx (free_tag-unowned s.tags tag first).0))
retag-Settled none none s idx h owns no_tag first =
    Stuck-SettledIn s.tags idx (shown s idx) (no_tag refl, first)

retag-others :
    (best free : Option ℕ) (s : State) (idx j : ℕ)
    → idx ≢ j
    → position unowned s.tags ≡ free
    → Settled s j
    → Settled (retag best free s idx) j
unfolding retag
retag-others (some tag) free s idx j h first v =
    subst (SettledIn s.tags j) (sym (set_active-others s idx tag j s.tags h)) v
retag-others none (some tag) s idx j h first v =
    subst (SettledIn (own_tag tag idx s.tags) j)
      (sym (set_active-others s idx tag j (own_tag tag idx s.tags) h))
      (let (lt, free) = free_tag-unowned s.tags tag first in
        SettledIn-own_tag s.tags tag idx j (shown s j) lt free v)
retag-others none none s idx j h first v = v

-- The output is settled, and the others stay so.
abbrev Settles : State → ℕ → State → Type 0
Settles s idx s' = Settled s' idx × ((j : ℕ) → idx ≢ j → Settled s j → Settled s' j)

normalize_output-Settled :
    (s : State) (idx : ℕ)
    → idx < length s.outputs
    → Returns (normalize_output s idx) (Settles s idx)
unfolding normalize_output tag_owner free_tag
normalize_output-Settled s idx h =
    let (o, found, there) = index-of_lt s.outputs idx h in
    elim (Bool-cases (same_opt (tag_owner s o.active_tag) (some idx))) [
      | inl good ↦
          rw (there, good)
            (Returns-mono (refocus_output s idx) _ (Settles s idx) (refocus_output-Settled s idx h)
              λ s' k. (k idx (rw found (inl (same_opt-eq _ idx good))), λ j other v. k j v))
      | inr bad ↦
          let s1 = retag (best_tag_for_output s idx) (free_tag s) s idx in
          rw (there, bad)
            (Returns-mono (refocus_output s1 idx) _ (Settles s idx)
              (refocus_output-Settled s1 idx
                (subst (λ n. idx < n) (sym (length-retag _ _ s idx)) h))
              λ s' k. (
                k idx (
                    retag-Settled (best_tag_for_output s idx) (free_tag s) s idx h
                      (best-owner s idx o found bad) (best-none s idx o found bad) refl),
                λ j other v.
                    k j
                      (retag-others (best_tag_for_output s idx) (free_tag s) s idx j other refl v),
              ))
    ]

-- The loop's state, with all outputs below `k` settled.
abbrev SettledBelow : ℕ → ℕ → State → Type 0
SettledBelow n k s = Sized n s × ((j : ℕ) → j < k → Settled s j)

normalize_output-SettledBelow :
    (n idx : ℕ) (s : State)
    → idx < n
    → SettledBelow n idx s
    → Returns (normalize_output s idx) (SettledBelow n (suc idx))
normalize_output-SettledBelow n idx s h (sized, v) =
    Returns-mono (normalize_output s idx) (λ s'. Sized n s' × Settles s idx s')
      (SettledBelow n (suc idx))
      (Returns-and (normalize_output s idx) (Sized n) (Settles s idx)
        (normalize_output-Sized n s idx h sized)
        (normalize_output-Settled s idx (omega (arith, sized.1))))
      λ s' w. (
        w.0,
        λ j below. elim (Bool-cases (idx == j)) [
          | inl same ↦ let e : idx ≡ j = ground arith in subst (Settled s') e w.1.0
          | inr other ↦ w.1.1 j (λ e. ground arith) (v j (ground arith))
        ],
      )

normalize_from-Settled :
    (n left idx : ℕ) (s : State)
    → idx + left ≡ n
    → SettledBelow n idx s
    → Returns (normalize_from left idx s) (SettledBelow n n)
unfolding normalize_from
normalize_from-Settled n zero idx s e v =
    let all : idx ≡ n = omega (arith, e) in subst (λ k. SettledBelow n k s) all v
normalize_from-Settled n (suc left) idx s e v =
    Returns-bind (normalize_output s idx) (normalize_from left (suc idx)) (SettledBelow n (suc idx))
      (SettledBelow n n) (normalize_output-SettledBelow n idx s (omega (arith, e)) v)
      (λ s' v'. normalize_from-Settled n left (suc idx) s' (omega (arith, e)) v')

-- The state is well-formed, and has `n` outputs.
abbrev pub IsNormal : ℕ → State → Type 0
IsNormal n s = WellFormed s × (length s.outputs ≡ n)

pub refocus_output-IsNormal :
    (n : ℕ) (s : State) (idx : ℕ)
    → idx < n
    → IsNormal n s
    → Returns (refocus_output s idx) (IsNormal n)
refocus_output-IsNormal n s idx h (v, e) =
    Returns-mono (refocus_output s idx) (λ s'. Sized n s' × ((j : ℕ) → Settled s j → Settled s' j))
      (IsNormal n)
      (Returns-and (refocus_output s idx) (Sized n) _ (refocus_output-Sized n s idx h (v.ranged, e))
        (refocus_output-Settled s idx (omega (arith, e))))
      λ s' w. (record { ranged = w.0.0; settled = λ j. w.1 j (v.settled j) }, w.0.1)

-- Outputs that there are none of show no tag.
SettledBelow-Settled : (n : ℕ) (s : State) → SettledBelow n n s → (j : ℕ) → Settled s j
SettledBelow-Settled n s (sized, v) j = elim (Option-cases (get_elem? s.outputs j)) [
  | inl none_there ↦ rw none_there tt
  | inr (o, there) ↦ v j (omega (arith, get_elem?-lt s.outputs j o there, sized.1))
]

normalize_by-IsNormal :
    (os : List Output) (s : State)
    → s.outputs ≡ os
    → Ranged s
    → Returns (normalize_by os s) (IsNormal (length s.outputs))
unfolding normalize_by
normalize_by-IsNormal [] s e v =
    (record { ranged = focus-Ranged s none tt v; settled = λ j. rw e tt }, refl)
normalize_by-IsNormal (o ∷ os) s e v =
    let n = length s.outputs in
    Returns-mono (normalize_from n 0 (focus_in_range s)) (SettledBelow n n) (IsNormal n)
      (normalize_from-Settled n n 0 (focus_in_range s) (omega arith) (
        (
          focus_in_range-Ranged s (omega (arith, ap length e)) v,
          ap length (focus_in_range-outputs s),
        ),
        λ j h. absurd (omega arith),
      ))
      λ s' w. (record { ranged = w.0.0; settled = SettledBelow-Settled n s' w }, w.0.1)

pub normalize_outputs-IsNormal :
    (s : State) → Ranged s → Returns (normalize_outputs s) (IsNormal (length s.outputs))
unfolding normalize_outputs
normalize_outputs-IsNormal s v = normalize_by-IsNormal s.outputs s refl v

-- Normalizing the outputs of a state whose indices, tags and geometry are in range, whatever its
-- outputs show, returns a well-formed state: every output shows a tag that it owns, unless it
-- owns none and no tag is free.
pub normalize_outputs-WellFormed : (s : State) → Ranged s → Returns (normalize_outputs s) WellFormed
normalize_outputs-WellFormed s v =
    Returns-mono (normalize_outputs s) (IsNormal (length s.outputs)) WellFormed
      (normalize_outputs-IsNormal s v) (λ s' w. w.0)

pub assign_initial_tag-IsNormal :
    (s : State) (idx : ℕ)
    → idx < length s.outputs
    → any (λ t. same_opt t.output (some idx)) s.tags ≡ false
    → Ranged s
    → Returns (assign_initial_tag s idx) (IsNormal (length s.outputs))
unfolding assign_initial_tag
assign_initial_tag-IsNormal s idx h owns_none v = rw owns_none (
    subst (λ n. Returns (normalize_outputs (initial_tag (free_tag s) s idx)) (IsNormal n))
      (length-initial_tag (free_tag s) s idx)
      (normalize_outputs-IsNormal _
        (initial_tag-Ranged (free_tag s) s idx h (free_tag-lt s idx v) v)))

-- An owner below an output's index is another output.
Below-other : (n : ℕ) (o : Option ℕ) → Below n o → same_opt o (some n) ≡ false
Below-other n none h = refl
Below-other n (some i) h = ground arith

TagsFit-owns_none :
    (n : ℕ) (tags : List Tag) → TagsFit n tags → any (λ t. same_opt t.output (some n)) tags ≡ false
TagsFit-owns_none n [] h = refl
TagsFit-owns_none n (t ∷ tags) (h, hs) =
    ground (arith, Below-other n t.output h, TagsFit-owns_none n tags hs)

-- Giving the output after the first `n`, which own all the owned tags, its first tag returns a
-- well-formed state.
pub new_output-IsNormal :
    (s : State) (n : ℕ)
    → length s.outputs ≡ suc n
    → TagsFit n s.tags
    → Ranged s
    → Returns (assign_initial_tag s n) (IsNormal (length s.outputs))
new_output-IsNormal s n e fit v =
    assign_initial_tag-IsNormal s n (omega (arith, e)) (TagsFit-owns_none n s.tags fit) v
