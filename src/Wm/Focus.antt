-- ===== src/Wm/Focus.antt =====
-- The focus of the outputs after a manage sequence (src/wm/mod.rs, `on_manage_start`).
pub mod Kept
use streamwm.Base.{
  ℕ, zero, suc, ◌+◌, ◌<◌, ◌≡◌, ◌≢◌, refl, sym, ◌∙◌, subst, Option, none, some, inl, inr, arith,
  length, get_elem?, ◌==◌, Bool-cases, Option-cases, Returns, Returns-mono, Returns-bind,
  index-of_lt, get_elem?-lt, get_elem?-modify_self, get_elem?-modify_ne, length-modify,
}
use streamwm.State.{State, Output}
use streamwm.State.Focus.{on_active, refocused, refocus_output}
use streamwm.State.Focus.Effects.{Chosen, refocused-Chosen}
use streamwm.Wm.Manage.{refocus_from}

abbrev pub FocusedIn : State → ℕ → Option Output → Type 0
FocusedIn s j none = Unit
FocusedIn s j (some o) = Chosen (on_active s j o) s.windows o.focused_window

-- The focused window of the output is on the tag that it shows and owns, and it has none only when no
-- window is there.
abbrev pub Focused : State → ℕ → Type 0
Focused s j = FocusedIn s j (get_elem? s.outputs j)

-- The output is focused, the others keep their focus, and there are as many.
abbrev Focuses : State → ℕ → State → Type 0
Focuses s idx s' =
    Focused s' idx
    × ((j : ℕ) → idx ≢ j → Focused s j → Focused s' j)
    × (length s'.outputs ≡ length s.outputs)

refocus_output-Focuses :
    (s : State) (idx : ℕ) → idx < length s.outputs → Returns (refocus_output s idx) (Focuses s idx)
unfolding refocus_output on_active
refocus_output-Focuses s idx h =
    let (o, found, there) = index-of_lt s.outputs idx h in
    let f : Output → Output = λ out. record out { focused_window = refocused s idx o } in
    rw there (
      subst (FocusedIn s idx) (sym (get_elem?-modify_self s.outputs idx f o found))
          (refocused-Chosen s idx o),
      λ j other v. subst (FocusedIn s j) (sym (get_elem?-modify_ne s.outputs idx j f other)) v,
      length-modify s.outputs idx f,
    )

-- The loop's state, with all outputs below `k` focused.
abbrev FocusedBelow : ℕ → ℕ → State → Type 0
FocusedBelow n k s = (length s.outputs ≡ n) × ((j : ℕ) → j < k → Focused s j)

refocus_output-FocusedBelow :
    (n idx : ℕ) (s : State)
    → idx < n
    → FocusedBelow n idx s
    → Returns (refocus_output s idx) (FocusedBelow n (suc idx))
refocus_output-FocusedBelow n idx s h (same, v) =
    Returns-mono (refocus_output s idx) (Focuses s idx) (FocusedBelow n (suc idx))
      (refocus_output-Focuses s idx (omega (arith, same)))
      λ s' (here, others, kept). (
        kept ∙ same,
        λ j below. elim (Bool-cases (idx == j)) [
          | inl e ↦ let at : idx ≡ j = ground arith in subst (Focused s') at here
          | inr e ↦ others j (λ at. ground arith) (v j (ground arith))
        ],
      )

refocus_from-FocusedBelow :
    (n left idx : ℕ) (s : State)
    → idx + left ≡ n
    → FocusedBelow n idx s
    → Returns (refocus_from left idx s) (FocusedBelow n n)
unfolding refocus_from
refocus_from-FocusedBelow n zero idx s e v =
    let all : idx ≡ n = omega (arith, e) in subst (λ k. FocusedBelow n k s) all v
refocus_from-FocusedBelow n (suc left) idx s e v =
    Returns-bind (refocus_output s idx) _ (FocusedBelow n (suc idx)) (FocusedBelow n n)
      (refocus_output-FocusedBelow n idx s (omega (arith, e)) v)
      (λ s' v'. refocus_from-FocusedBelow n left (suc idx) s' (omega (arith, e)) v')

-- The loop over the outputs at the start of a manage sequence.
pub refocus_from-Focused :
    (s : State) → Returns (refocus_from (length s.outputs) 0 s) (λ s'. (j : ℕ) → Focused s' j)
refocus_from-Focused s =
    let n = length s.outputs in
    Returns-mono (refocus_from n 0 s) (FocusedBelow n n) (λ s'. (j : ℕ) → Focused s' j)
      (refocus_from-FocusedBelow n n 0 s (omega arith) (refl, λ j h. absurd (omega arith)))
      λ s' (same, v) j. elim (Option-cases (get_elem? s'.outputs j)) [
        | inl none_there ↦ rw none_there tt
        | inr (o, there) ↦ v j (omega (arith, get_elem?-lt s'.outputs j o there, same))
      ]
