-- ===== src/Supervisor/Recent.antt =====
-- The queue of failures of the supervisor (src/main.rs), against all failures so far.
use streamwm.Base.{
  ℕ, ◌-◌, ◌≤◌, ◌≡◌, refl, sym, ap, ◌∙◌, Bool, true, false, List, [], ◌∷◌, ◌++◌, ltb, leb, length,
  arith, retain, map, All, All-append, All-imp, Bool-cases, inl, inr,
}
use streamwm.Supervisor.{
  restart_window, expire, record_failure, after_failure, Attempt, succeeded, failed, not_started,
  Verdict, exit_success, running, supervise_from, supervise,
}

-- Times that do not decrease, from `lo` on.
abbrev pub Ascending : ℕ → List ℕ → Type 0
Ascending lo [] = Unit
Ascending lo (t ∷ ts) = (lo ≤ t) × Ascending t ts

abbrev pub is_recent : ℕ → ℕ → Bool
is_recent now t = ltb (now - t) restart_window

all_recent :
    (now t : ℕ) (ts : List ℕ)
    → is_recent now t ≡ true
    → Ascending t ts
    → retain (is_recent now) ts ≡ ts
all_recent now t [] e h = refl
all_recent now t (u ∷ ts) e h =
    let recent : is_recent now u ≡ true = ground arith in
    rw recent (ap (λ us. u ∷ us) (all_recent now u ts recent h.1))

-- Popping off the front is as good as filtering.
expire-retain :
    (now lo : ℕ) (ts : List ℕ) → Ascending lo ts → expire now ts ≡ retain (is_recent now) ts
unfolding expire
expire-retain now lo [] h = refl
expire-retain now lo (t ∷ ts) h = elim (Bool-cases (is_recent now t)) [
  | inl recent ↦
      let young : leb restart_window (now - t) ≡ false = ground arith in
      rw (young, recent) (ap (λ us. t ∷ us) (sym (all_recent now t ts recent h.1)))
  | inr old ↦
      let aged : leb restart_window (now - t) ≡ true = ground arith in
      rw (aged, old) (expire-retain now t ts h.1)
]

Ascending-lower : (lo lo' : ℕ) (ts : List ℕ) → lo ≤ lo' → Ascending lo' ts → Ascending lo ts
Ascending-lower lo lo' [] e h = tt
Ascending-lower lo lo' (t ∷ ts) e h = (omega (arith, h.0), h.1)

Ascending-retain :
    (p : ℕ → Bool) (lo : ℕ) (ts : List ℕ) → Ascending lo ts → Ascending lo (retain p ts)
Ascending-retain p lo [] h = tt
Ascending-retain p lo (t ∷ ts) h = elim (Bool-cases (p t)) [
  | inl kept ↦ rw kept (h.0, Ascending-retain p t ts h.1)
  | inr dropped ↦ rw dropped (Ascending-lower lo t (retain p ts) h.0 (Ascending-retain p t ts h.1))
]

-- What is recent later was recent before.
retain-retain :
    (m now : ℕ) (ts : List ℕ)
    → m ≤ now
    → retain (is_recent now) (retain (is_recent m) ts) ≡ retain (is_recent now) ts
retain-retain m now [] h = refl
retain-retain m now (t ∷ ts) h = elim (Bool-cases (is_recent m t)) [
  | inl recent ↦ elim (Bool-cases (is_recent now t)) [
    | inl still ↦ rw (recent, still) (ap (λ us. t ∷ us) (retain-retain m now ts h))
    | inr old ↦ rw (recent, old) (retain-retain m now ts h)
  ]
  | inr old ↦
      let older : is_recent now t ≡ false = ground arith in
      rw (old, older) (retain-retain m now ts h)
]

retain-snoc :
    (now : ℕ) (ts : List ℕ)
    → retain (is_recent now) (ts ++ now ∷ []) ≡ retain (is_recent now) ts ++ now ∷ []
retain-snoc now [] = let recent : is_recent now now ≡ true = ground arith in rw recent refl
retain-snoc now (t ∷ ts) = elim (Bool-cases (is_recent now t)) [
  | inl recent ↦ rw recent (ap (λ us. t ∷ us) (retain-snoc now ts))
  | inr old ↦ rw old (retain-snoc now ts)
]

-- One failure more: the queue holds the recent ones of the whole history.
pub record_failure-recent :
    (m now : ℕ) (history : List ℕ)
    → Ascending 0 history
    → m ≤ now
    → record_failure now (retain (is_recent m) history)
      ≡ retain (is_recent now) (history ++ now ∷ [])
unfolding record_failure
record_failure-recent m now history h later =
    ap (λ ts. ts ++ now ∷ [])
      (expire-retain now 0 _ (Ascending-retain (is_recent m) 0 history h)
        ∙ retain-retain m now history later)
    ∙ sym (retain-snoc now history)

-- The supervisor as it is meant: a failure counts the recent ones among all failures so far.
unfoldable pub reference : List ℕ → List (Attempt × ℕ) → List ℕ × Verdict
unfolding after_failure
reference history [] = ([], running)
reference history ((succeeded, now) ∷ attempts) = ([], exit_success)
reference history ((failed, now) ∷ attempts) =
    let all = history ++ now ∷ [] in
    after_failure (length (retain (is_recent now) all)) (reference all attempts)
reference history ((not_started, now) ∷ attempts) =
    let all = history ++ now ∷ [] in
    after_failure (length (retain (is_recent now) all)) (reference all attempts)

Ascending-snoc :
    (lo now : ℕ) (ts : List ℕ)
    → Ascending lo ts
    → All (λ t. t ≤ now) ts
    → lo ≤ now
    → Ascending lo (ts ++ now ∷ [])
Ascending-snoc lo now [] h k l = (l, tt)
Ascending-snoc lo now (t ∷ ts) h k l = (h.0, Ascending-snoc t now ts h.1 k.1 k.0)

-- The attempts are over at times that do not decrease, from `m` on.
abbrev pub InOrder : ℕ → List (Attempt × ℕ) → Type 0
InOrder m attempts = Ascending m (map (λ a. a.1) attempts)

-- Times up to `m`, in order, and one more.
unfoldable History : ℕ → List ℕ → Type 0
History m history = Ascending 0 history × All (λ t. t ≤ m) history

History-snoc :
    (m now : ℕ) (history : List ℕ) → m ≤ now → History m history → History now (history ++ now ∷ [])
unfolding History
History-snoc m now history later (up, below) =
    let before : All (λ t. t ≤ now) history = All-imp history (λ t k. omega (arith, later)) below in
    (
      Ascending-snoc 0 now history up before (omega arith),
      All-append _ history (now ∷ []) before (omega arith, tt),
    )

-- A failure, when what follows it agrees.
after_failure-reference :
    (m now : ℕ) (history : List ℕ) (attempts : List (Attempt × ℕ))
    → Ascending 0 history
    → m ≤ now
    → supervise_from (retain (is_recent now) (history ++ now ∷ [])) attempts
      ≡ reference (history ++ now ∷ []) attempts
    → let recorded = record_failure now (retain (is_recent m) history) in
      let all = history ++ now ∷ [] in
      after_failure (length recorded) (supervise_from recorded attempts)
      ≡ after_failure (length (retain (is_recent now) all)) (reference all attempts)
after_failure-reference m now history attempts up later agree =
    ap (λ ts. after_failure (length ts) (supervise_from ts attempts))
      (record_failure-recent m now history up later)
    ∙ ap (after_failure (length (retain (is_recent now) (history ++ now ∷ [])))) agree

supervise_from-reference :
    (m : ℕ) (history : List ℕ) (attempts : List (Attempt × ℕ))
    → History m history
    → InOrder m attempts
    → supervise_from (retain (is_recent m) history) attempts ≡ reference history attempts
unfolding supervise_from reference History
supervise_from-reference m history [] past h = refl
supervise_from-reference m history ((succeeded, now) ∷ attempts) past h = refl
supervise_from-reference m history ((failed, now) ∷ attempts) past h =
    after_failure-reference m now history attempts past.0 h.0 (
      supervise_from-reference now (history ++ now ∷ []) attempts
        (History-snoc m now history h.0 past) h.1)
supervise_from-reference m history ((not_started, now) ∷ attempts) past h =
    after_failure-reference m now history attempts past.0 h.0 (
      supervise_from-reference now (history ++ now ∷ []) attempts
        (History-snoc m now history h.0 past) h.1)

-- The supervisor, which drops failures from the front of its queue, sleeps and gives up exactly
-- like one that keeps all failures and counts those of the last 60 seconds, for attempts that are
-- over at times that do not decrease.
pub supervise-reference :
    (attempts : List (Attempt × ℕ))
    → InOrder 0 attempts
    → supervise true attempts ≡ reference [] attempts
unfolding supervise History
supervise-reference attempts h = supervise_from-reference 0 [] attempts (tt, tt) h
