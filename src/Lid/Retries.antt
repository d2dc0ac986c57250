-- ===== src/Lid/Retries.antt =====
-- When a switch of the outputs that failed is tried again (src/lid.rs).
use streamwm.Base.{
  ℕ, ◌+◌, ◌≤◌, ◌≡◌, refl, sym, ap, ◌∙◌, subst, Bool, true, false, Option, none, some, List, [], ◌∷◌,
  inl, inr, All, Bool-cases, if◌then◌else◌, arith,
}
use streamwm.Config.{Lid}
use streamwm.Lid.Topology.{DisplayTopology, display_topology}
use streamwm.Lid.Profiles.{Call, Log, recover_undocked, should_recover_undocked}
use streamwm.Lid.Ticks.{
  LidState, Tick, new_lid_state, recovery_retry_interval, latest_lid_event, lid_closed, on_lid,
  retry_recovery, retry_due, next_undocked_retry, follow_open, follow_outputs, round, tick_once,
  run, topology_changed,
}

-- Nothing is heard about the lid, and the outputs are these.
abbrev pub Quiet : Lid → DisplayTopology → Tick → Type 0
Quiet lid t tick = (tick.events ≡ []) × (display_topology lid.internal_output tick.entries ≡ t)

-- No retry is planned.
abbrev idle : Bool → DisplayTopology → Log → LidState
idle closed t log = record {
  prev_lid_closed = some closed;
  prev_topology = some t;
  undocked_retry = none;
  recovery_retry = none;
  log = log;
}

-- Only the panel is connected.
abbrev pub undocked : DisplayTopology
undocked = record { internal_connected = true; external_connected = false }

-- The lid is open over the panel alone, and a recovery that failed is due again.
abbrev pub waiting : Option (ℕ × ℕ) → ℕ → Log → LidState
waiting retry due log = record {
  prev_lid_closed = some false;
  prev_topology = some undocked;
  undocked_retry = retry;
  recovery_retry = some due;
  log = log;
}

module _ (succeeds : Log → Call → Bool) (lid : Lid) where
  round-idle :
      (closed internal external : Bool) (tick : Tick) (log : Log)
      → let t : DisplayTopology = record {
        internal_connected = internal;
        external_connected = external;
      } in
        round succeeds lid closed t tick (idle closed t log) ≡ idle closed t log
  unfolding round on_lid follow_outputs follow_open topology_changed should_recover_undocked
      retry_due
  round-idle true true true tick log = refl
  round-idle true true false tick log = refl
  round-idle true false true tick log = refl
  round-idle true false false tick log = refl
  round-idle false true true tick log = refl
  round-idle false true false tick log = refl
  round-idle false false true tick log = refl
  round-idle false false false tick log = refl

  -- A round in which nothing is heard, for a state with these readings.
  tick_once-Quiet :
      (closed : Bool) (t : DisplayTopology) (tick : Tick) (s : LidState)
      → Quiet lid t tick
      → s.prev_lid_closed ≡ some closed
      → tick_once succeeds lid tick s ≡ round succeeds lid closed t tick s
  unfolding tick_once lid_closed latest_lid_event
  tick_once-Quiet closed t tick s h e = rw (h.0, h.1, e) refl

  run-idle :
      (closed : Bool) (t : DisplayTopology) (ticks : List Tick) (log : Log)
      → All (Quiet lid t) ticks
      → run succeeds lid ticks (idle closed t log) ≡ idle closed t log
  unfolding run
  run-idle closed t [] log h = refl
  run-idle closed t (tick ∷ ticks) log h =
      ap (run succeeds lid ticks) (
        tick_once-Quiet closed t tick (idle closed t log) h.0 refl
        ∙ round-idle closed t.internal_connected t.external_connected tick log)
      ∙ run-idle closed t ticks log h.1

  first-idle :
      (closed : Bool) (t : DisplayTopology) (tick : Tick)
      → (log : Log) × (round succeeds lid closed t tick new_lid_state ≡ idle closed t log)
  unfolding round follow_outputs
  first-idle true t tick = (_, refl)
  first-idle false t tick = (_, refl)

  round-waiting :
      (tick : Tick) (retry : Option (ℕ × ℕ)) (due : ℕ) (log : Log)
      → let s = waiting retry due log in
        round succeeds lid false undocked tick s
        ≡ (if retry_due s tick then retry_recovery succeeds lid false tick.recovered_at s else s)
  unfolding round on_lid follow_outputs follow_open topology_changed should_recover_undocked
      retry_recovery
  round-waiting tick retry due log = elim (Bool-cases (retry_due (waiting retry due log) tick)) [
    | inl now ↦ rw now refl
    | inr later ↦ rw later refl
  ]

  -- Every attempt to recover the panel fails.
  abbrev pub RecoveryFails : Type 0
  RecoveryFails = (log : Log) → (recover_undocked succeeds lid log).0 ≡ false

  -- The state waits, for a time that is at most `limit`.
  abbrev WaitsUntil : ℕ → LidState → Type 0
  WaitsUntil limit s =
      (retry : Option (ℕ × ℕ)) × (due : ℕ) × (log : Log) × (s ≡ waiting retry due log)
      × (due ≤ limit)

  retry_recovery-WaitsUntil :
      (limit at : ℕ) (retry : Option (ℕ × ℕ)) (due : ℕ) (log : Log)
      → RecoveryFails
      → at + recovery_retry_interval ≤ limit
      → WaitsUntil limit (retry_recovery succeeds lid false at (waiting retry due log))
  unfolding retry_recovery
  retry_recovery-WaitsUntil limit at retry due log h k = (
    next_undocked_retry false at retry,
    at + recovery_retry_interval,
    (recover_undocked succeeds lid log).1,
    rw (h log) refl,
    k,
  )

  tick_once-WaitsUntil :
      (limit : ℕ) (tick : Tick) (s : LidState)
      → RecoveryFails
      → Quiet lid undocked tick
      → tick.recovered_at + recovery_retry_interval ≤ limit
      → WaitsUntil limit s
      → WaitsUntil limit (tick_once succeeds lid tick s)
  tick_once-WaitsUntil limit tick s h quiet k (retry, due, log, e, soon) =
      let waits = waiting retry due log in
      subst (WaitsUntil limit)
        (sym (
          ap (tick_once succeeds lid tick) e
          ∙ tick_once-Quiet false undocked tick waits quiet refl
          ∙ round-waiting tick retry due log))
        (elim (Bool-cases (retry_due waits tick)) [
          | inl now ↦ rw now (retry_recovery-WaitsUntil limit tick.recovered_at retry due log h k)
          | inr later ↦ rw later (retry, due, log, refl, soon)
        ])

  run-WaitsUntil :
      (limit : ℕ) (ticks : List Tick) (s : LidState)
      → RecoveryFails
      → All
          (λ tick. Quiet lid undocked tick × (tick.recovered_at + recovery_retry_interval ≤ limit))
          ticks
      → WaitsUntil limit s
      → WaitsUntil limit (run succeeds lid ticks s)
  unfolding run
  run-WaitsUntil limit [] s h quiet waits = waits
  run-WaitsUntil limit (tick ∷ ticks) s h quiet waits =
      run-WaitsUntil limit ticks (tick_once succeeds lid tick s) h quiet.1
        (tick_once-WaitsUntil limit tick s h quiet.0.0 quiet.0.1 waits)

  retry_due-later :
      (tick : Tick) (retry : Option (ℕ × ℕ)) (due : ℕ) (log : Log)
      → due ≤ tick.recovery_checked_at
      → retry_due (waiting retry due log) tick ≡ true
  unfolding retry_due
  retry_due-later tick none due log h = ground arith
  retry_due-later tick (some r) due log h = ground arith

  tick_once-retries :
      (tick : Tick) (s : LidState)
      → Quiet lid undocked tick
      → WaitsUntil tick.recovery_checked_at s
      → (tick_once succeeds lid tick s).log ≡ (recover_undocked succeeds lid s.log).1
  unfolding retry_recovery
  tick_once-retries tick s quiet (retry, due, log, e, soon) =
      let waits = waiting retry due log in
      let retried = retry_recovery succeeds lid false tick.recovered_at waits in
      rw e (
        ap (λ u. u.log)
          (tick_once-Quiet false undocked tick waits quiet refl
            ∙ round-waiting tick retry due log
            ∙ ap (λ b. if b then retried else waits) (retry_due-later tick retry due log soon)))

  -- A recovery of the panel that failed is tried again: with the lid open and only the panel
  -- connected, after any rounds in which nothing changes and every recovery fails, a round runs
  -- the recovery again when the first retry was due by then and the recoveries since were at
  -- least 30 seconds before.
  pub run-retries :
      (retry : Option (ℕ × ℕ)) (due : ℕ) (log : Log) (ticks : List Tick) (tick : Tick)
      → RecoveryFails
      → due ≤ tick.recovery_checked_at
      → All
          (λ t.
            Quiet lid undocked t
            × (t.recovered_at + recovery_retry_interval ≤ tick.recovery_checked_at))
          ticks
      → Quiet lid undocked tick
      → let before = run succeeds lid ticks (waiting retry due log) in
        (tick_once succeeds lid tick before).log ≡ (recover_undocked succeeds lid before.log).1
  run-retries retry due log ticks tick h soon quiet last = tick_once-retries tick _ last (
      run-WaitsUntil tick.recovery_checked_at ticks (waiting retry due log) h quiet
        (retry, due, log, refl, soon))

  -- What the first round ran is not run again while nothing is heard of the lid and the outputs
  -- stay the same, even when it failed.
  pub run-never_retried :
      (first : Tick) (ticks : List Tick)
      → All (Quiet lid (display_topology lid.internal_output first.entries)) ticks
      → (run succeeds lid (first ∷ ticks) new_lid_state).log
        ≡ (tick_once succeeds lid first new_lid_state).log
  unfolding run tick_once
  run-never_retried first ticks h =
      let closed = lid_closed new_lid_state first in
      let t = display_topology lid.internal_output first.entries in
      let started = first-idle closed t first in
      ap (λ s. s.log)
        (ap (run succeeds lid ticks) started.1
          ∙ run-idle closed t ticks started.0 h
          ∙ sym started.1)
