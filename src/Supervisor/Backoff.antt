-- ===== src/Supervisor/Backoff.antt =====
-- The delay before a restart (src/main.rs, `restart_delay`).
use Prim.Native.Nat.{min}
use native.Mathlib.Numerals.{unary_clauses}
use streamwm.Base.{ℕ, zero, suc, ◌-◌, ◌*◌, ◌^◌, ◌≤◌, ◌<◌, ◌≡◌, refl, arith}
use streamwm.Supervisor.{initial_restart_delay, max_restart_delay, restart_delay}

pow_pos : (k : ℕ) → 1 ≤ 2 ^ k
pow_pos zero = omega arith
pow_pos (suc k) = simp unary_clauses (omega (arith, pow_pos k))

-- The delay after the n-th recent failure, for n above 0, is 250 ms doubled n - 1 times and at
-- most 4 s; it is between these two.
restart_delay-bounds :
    (n : ℕ)
    → 0 < n
    → (restart_delay n ≡ min (initial_restart_delay * 2 ^ (n - 1)) max_restart_delay)
      × (initial_restart_delay ≤ restart_delay n)
      × (restart_delay n ≤ max_restart_delay)
unfolding restart_delay
restart_delay-bounds zero h = absurd (omega arith)
restart_delay-bounds (suc zero) h = (refl, omega arith, omega arith)
restart_delay-bounds (suc (suc zero)) h = (refl, omega arith, omega arith)
restart_delay-bounds (suc (suc (suc zero))) h = (refl, omega arith, omega arith)
restart_delay-bounds (suc (suc (suc (suc zero)))) h = (refl, omega arith, omega arith)
restart_delay-bounds (suc (suc (suc (suc (suc k))))) h =
    let n : ℕ = suc (suc (suc (suc (suc k)))) in
    let capped : min (n - 1) 4 ≡ 4 = omega arith in
    let exponent : n - 1 ≡ suc (suc (suc (suc k))) = omega arith in
    let large : 16 ≤ 2 ^ (suc (suc (suc (suc k)))) =
      simp unary_clauses (omega (arith, pow_pos k)) in
    rw (capped, exponent) (omega (arith, large), omega arith, omega arith)
