-- ===== src/State/Outputs/Removal.antt =====
-- Removing an output and repairing the outputs (src/state.rs), as whole operations.
use streamwm.Base.{
  ℕ, ◌≡◌, refl, sym, subst, some, map_opt, Returns-mono, get_elem?, Returns, Returns-bind, All,
  get_elem?-lt,
}
use streamwm.State.{State, Output}
use streamwm.State.Ranges.{Ranged}
use streamwm.State.Outputs.{
  normalize_outputs, clamp_floating_windows, repair_outputs, drop_output, retire, remove_found,
  remove_output,
}
use streamwm.State.Outputs.Dropping.{drop_output-Ranged}
use streamwm.State.Owners.{SettledIn, Settled, shown}
use streamwm.State.Invariant.{WellFormed}
use streamwm.State.Outputs.Settled.{normalize_outputs-WellFormed}
use streamwm.State.Outputs.Clamping.{IsPlaced, IsClamped, clamp_floating_windows-IsPlaced}

-- A state that an event may leave: well-formed, with every floating window placed.
abbrev pub IsRepaired : State → Type 0
IsRepaired s = WellFormed s × All (IsPlaced s) s.windows

IsClamped-Settled : (s s' : State) (j : ℕ) → IsClamped s s' → Settled s j → Settled s' j
IsClamped-Settled s s' j c v =
    subst (λ ts. SettledIn ts j (shown s' j)) (sym c.2)
      (subst (λ os. SettledIn s.tags j (map_opt (λ o. o.active_tag) (get_elem? os j))) (sym c.3) v)

IsClamped-IsRepaired : (s s' : State) → WellFormed s → IsClamped s s' → IsRepaired s'
IsClamped-IsRepaired s s' v c =
    (record { ranged = c.0; settled = λ j. IsClamped-Settled s s' j c (v.settled j) }, c.1)

clamp_normal-IsRepaired : (s : State) → WellFormed s → Returns (clamp_floating_windows s) IsRepaired
clamp_normal-IsRepaired s v =
    Returns-mono (clamp_floating_windows s) (IsClamped s) IsRepaired
      (clamp_floating_windows-IsPlaced s v.ranged) (λ s' c. IsClamped-IsRepaired s s' v c)

-- Repairing the outputs of a state whose indices, tags and geometry are in range, whatever its
-- outputs show, returns a well-formed state: every output shows a tag that it owns, unless it
-- owns none and no tag is free. While there is an output, every floating window then lies in the
-- area of the output that owns its tag; if its tag has no owner, of the focused output, or of the
-- first if none is focused. In a direction in which the window is larger than that area, it
-- begins at the area's own edge; an area without a width or without a height, as before the
-- dimensions are known, does not bound a window.
pub repair_outputs-IsRepaired : (s : State) → Ranged s → Returns (repair_outputs s) IsRepaired
unfolding repair_outputs
repair_outputs-IsRepaired s v =
    Returns-bind (normalize_outputs s) clamp_floating_windows WellFormed IsRepaired
      (normalize_outputs-WellFormed s v) clamp_normal-IsRepaired

-- Removing any output of a state whose indices, tags and geometry are in range, the last output
-- too, returns: the requests are those that retire the removed output's objects, and the state is
-- then well-formed: every output shows a tag that it owns, unless it owns none and no tag is
-- free. While an output is left, every floating window then lies in the area of the output that
-- owns its tag; if its tag has no owner, of the focused output, or of the first if none is
-- focused. In a direction in which the window is larger than that area, it begins at the area's
-- own edge; an area without a width or without a height, as before the dimensions are known, does
-- not bound a window.
pub remove_output-IsRepaired :
    (s : State) (idx : ℕ) (o : Output)
    → get_elem? s.outputs idx ≡ some o
    → Ranged s
    → Returns (remove_output s idx) (λ r. IsRepaired r.0 × (r.1 ≡ retire o))
unfolding remove_output remove_found
remove_output-IsRepaired s idx o e v =
    subst (λ r. Returns (remove_found r s idx) (λ r. IsRepaired r.0 × (r.1 ≡ retire o))) (sym e)
      (Returns-bind (normalize_outputs (drop_output s idx)) _ WellFormed _
        (normalize_outputs-WellFormed _
          (drop_output-Ranged s idx (get_elem?-lt s.outputs idx o e) v))
        λ s' v'.
          Returns-bind (clamp_floating_windows s') _ IsRepaired _ (clamp_normal-IsRepaired s' v')
            (λ s'' r. (r, refl)))
