-- ===== src/Supervisor/Ends.antt =====
-- A worker that keeps failing (src/main.rs), and the end of the supervisor.
use streamwm.Base.{
  ℕ, suc, ◌+◌, ◌-◌, ◌≤◌, ◌<◌, ◌≡◌, ◌≢◌, refl, ap, ◌∙◌, true, List, [], ◌∷◌, ◌++◌, if◌then◌else◌,
  ltb, leb, length, arith, All, Bool-cases, inl, inr,
}
use streamwm.Supervisor.{
  restart_window, max_restarts_in_window, expire, record_failure, after_failure, Attempt, succeeded,
  failed, not_started, Verdict, exit_failure, supervise_from, supervise,
}

-- How many of the times are not before `first`.
abbrev since : ℕ → List ℕ → ℕ
since first [] = 0
since first (t ∷ ts) = if leb first t then suc (since first ts) else since first ts

since-le : (first : ℕ) (ts : List ℕ) → since first ts ≤ length ts
since-le first [] = omega arith
since-le first (t ∷ ts) = ground (arith, since-le first ts)

since-snoc :
    (first now : ℕ) (ts : List ℕ)
    → first ≤ now
    → since first (ts ++ now ∷ []) ≡ suc (since first ts)
since-snoc first now [] h = ground arith
since-snoc first now (t ∷ ts) h = ground (arith, since-snoc first now ts h)

since-expire :
    (first now : ℕ) (ts : List ℕ)
    → now - first < restart_window
    → since first (expire now ts) ≡ since first ts
unfolding expire
since-expire first now [] h = refl
since-expire first now (t ∷ ts) h = ground (arith, since-expire first now ts h)

since-record_failure :
    (first now : ℕ) (ts : List ℕ)
    → first ≤ now
    → now - first < restart_window
    → since first (record_failure now ts) ≡ suc (since first ts)
unfolding record_failure
since-record_failure first now ts h k =
    since-snoc first now (expire now ts) h ∙ ap suc (since-expire first now ts k)

-- An attempt that failed within the window from `first` on.
abbrev pub FailsWithin : ℕ → Attempt × ℕ → Type 0
FailsWithin first a = (a.0 ≢ succeeded) × (first ≤ a.1) × (a.1 - first < restart_window)

-- A supervisor that would give up later gives up.
after_failure-gives_up :
    (recent : ℕ) (rest : List ℕ × Verdict)
    → (recent ≤ max_restarts_in_window → rest.1 ≡ exit_failure)
    → (after_failure recent rest).1 ≡ exit_failure
unfolding after_failure
after_failure-gives_up recent rest k = elim (Bool-cases (ltb max_restarts_in_window recent)) [
  | inl over ↦ rw over refl
  | inr under ↦ rw under (k (ground arith))
]

gives_up :
    (first : ℕ) (failures : List ℕ) (attempts : List (Attempt × ℕ))
    → max_restarts_in_window < since first failures + length attempts
    → since first failures ≤ max_restarts_in_window
    → All (FailsWithin first) attempts
    → (supervise_from failures attempts).1 ≡ exit_failure
unfolding supervise_from
gives_up first failures [] many few h = absurd (omega arith)
gives_up first failures ((succeeded, now) ∷ attempts) many few h = absurd (h.0.0 refl)
gives_up first failures ((failed, now) ∷ attempts) many few h =
    let more = since-record_failure first now failures h.0.1 h.0.2 in
    after_failure-gives_up _ _ λ few'.
      gives_up first (record_failure now failures) attempts (omega (arith, more))
        (omega (arith, since-le first (record_failure now failures))) h.1
gives_up first failures ((not_started, now) ∷ attempts) many few h =
    let more = since-record_failure first now failures h.0.1 h.0.2 in
    after_failure-gives_up _ _ λ few'.
      gives_up first (record_failure now failures) attempts (omega (arith, more))
        (omega (arith, since-le first (record_failure now failures))) h.1

-- When more than five attempts all fail, each less than a minute after some time, the supervisor
-- gives up, with the exit code of a failure.
pub supervise-gives_up :
    (first : ℕ) (attempts : List (Attempt × ℕ))
    → max_restarts_in_window < length attempts
    → All (FailsWithin first) attempts
    → (supervise true attempts).1 ≡ exit_failure
unfolding supervise
supervise-gives_up first attempts many h = gives_up first [] attempts (omega arith) (omega arith) h
