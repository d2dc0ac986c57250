-- ===== src/State/Fraction.antt =====
-- src/state.rs: the master fraction, kept for each tag.
use streamwm.Base.{ℕ, get_or_else, map_opt, get_elem?, modify}
use streamwm.Protocol.{F64, FloatOps}
use streamwm.State.{State}

unfoldable pub master_fraction : State → ℕ → F64
master_fraction s tag =
    get_or_else (map_opt (λ t. t.master_fraction) (get_elem? s.tags tag)) s.default_master_fraction

unfoldable pub set_master_fraction : FloatOps → State → ℕ → F64 → State
set_master_fraction F s tag fraction = record s {
  tags =
      modify s.tags tag
        (λ t. record t { master_fraction = F.clamp fraction F.one_tenth F.nine_tenths });
}

unfoldable pub active_master_fraction : State → ℕ → F64
unfolding master_fraction
active_master_fraction s idx =
    get_or_else (map_opt (λ o. master_fraction s o.active_tag) (get_elem? s.outputs idx))
      s.default_master_fraction
