-- ===== src/Lid/Ticks.antt =====
-- src/lid.rs: the loop of `run`, one round at a time, and the choice of the retries. Times are in
-- nanoseconds, as `Instant` and `Duration` measure them.
use streamwm.Base.{
  same_bool, ℕ, suc, ◌+◌, ◌*◌, ◌^◌, Bool, true, false, Option, none, some, List, [], ◌∷◌,
  if◌then◌else◌, leb, not, ◌&&◌, ◌||◌, is_some, is_some_and, get_or_else, map_opt, get_elem?,
}
use streamwm.Config.{Lid}
use streamwm.Lid.Topology.{Entry, DisplayTopology, display_topology}
use streamwm.Lid.Profiles.{
  Call, Log, should_recover_undocked, apply_profile, recover_undocked, apply_closed_profile,
  recover_open_outputs, apply_current_profile,
}

abbrev pub recovery_retry_interval : ℕ
recovery_retry_interval = 30 * 10 ^ 9

abbrev pub undocked_retry_delays : List ℕ
undocked_retry_delays = 2 * 10 ^ 9 ∷ 5 * 10 ^ 9 ∷ []

pub data LidEvent : Type 0 where
  closed_event : Bool → LidEvent

-- The variables of the loop, and the commands that were run.
pub record LidState : Type 0 where
  pub prev_lid_closed : Option Bool
  pub prev_topology : Option DisplayTopology
  pub undocked_retry : Option (ℕ × ℕ)
  pub recovery_retry : Option ℕ
  pub log : Log

-- What a round reads: the events that wait, the directory, the directory again after the first and
-- the second sleep when the lid was opened, and the clock.
pub record Tick : Type 0 where
  pub events : List LidEvent
  pub entries : Option (List Entry)
  pub debounced : Option (List Entry)
  pub delayed : Option (List Entry)
  pub undocked_checked_at : ℕ
  pub recovery_checked_at : ℕ
  pub recovered_at : ℕ

abbrev pub new_lid_state : LidState
new_lid_state = record {
  prev_lid_closed = none;
  prev_topology = none;
  undocked_retry = none;
  recovery_retry = none;
  log = [];
}

-- `PartialEq` of `DisplayTopology`.
abbrev pub same_topology : DisplayTopology → DisplayTopology → Bool
same_topology t u =
    same_bool t.internal_connected u.internal_connected
    && same_bool t.external_connected u.external_connected

-- The loop over the events, which keeps the last.
unfoldable pub last_closed : Option Bool → List LidEvent → Option Bool
last_closed last [] = last
last_closed last (closed_event c ∷ events) = last_closed (some c) events

unfoldable pub latest_lid_event : List LidEvent → Option Bool
unfolding last_closed
latest_lid_event events = last_closed none events

-- The lid is closed, in this round.
unfoldable pub lid_closed : LidState → Tick → Bool
unfolding latest_lid_event
lid_closed s tick = get_or_else (latest_lid_event tick.events) (get_or_else s.prev_lid_closed false)

unfoldable pub topology_changed : LidState → DisplayTopology → Bool
topology_changed s t = not (is_some_and s.prev_topology (λ prev. same_topology prev t))

unfoldable pub retry_due : LidState → Tick → Bool
retry_due s tick =
    is_some_and s.undocked_retry (λ r. leb r.1 tick.undocked_checked_at)
    || is_some_and s.recovery_retry (λ due. leb due tick.recovery_checked_at)

unfoldable pub next_undocked_retry : Bool → ℕ → Option (ℕ × ℕ) → Option (ℕ × ℕ)
next_undocked_retry true at retry =
    map_opt (λ delay. (0, at + delay)) (get_elem? undocked_retry_delays 0)
next_undocked_retry false at none = none
next_undocked_retry false at (some r) =
    map_opt (λ delay. (suc r.0, at + delay)) (get_elem? undocked_retry_delays (suc r.0))

abbrev pub clear_retries : LidState → LidState
clear_retries s = record s { undocked_retry = none; recovery_retry = none }

module _ (succeeds : Log → Call → Bool) (lid : Lid) where
  -- Two attempts, after the sleeps.
  unfoldable pub reopen : Tick → Log → Log
  unfolding recover_open_outputs display_topology
  reopen tick log =
      let first =
        recover_open_outputs succeeds lid (display_topology lid.internal_output tick.debounced)
          log in
      (recover_open_outputs succeeds lid (display_topology lid.internal_output tick.delayed)
        first.1).1

  -- What is done about the lid, in the first round or when it has moved.
  unfoldable pub on_lid : Option Bool → Bool → DisplayTopology → Tick → Log → Log
  unfolding apply_current_profile apply_closed_profile reopen
  on_lid none closed t tick log = (apply_current_profile succeeds lid closed t log).1
  on_lid (some prev) closed t tick log =
      if same_bool closed prev
      then log
      else if closed
      then (apply_closed_profile succeeds lid t log).1
      else reopen tick log

  unfoldable pub retry_recovery : Bool → ℕ → LidState → LidState
  unfolding recover_undocked next_undocked_retry
  retry_recovery changed at s =
      let recovered = recover_undocked succeeds lid s.log in
      record s {
        undocked_retry = next_undocked_retry changed at s.undocked_retry;
        recovery_retry = if recovered.0 then none else some (at + recovery_retry_interval);
        log = recovered.1;
      }

  -- What is done about the outputs, with the lid open.
  unfoldable pub follow_open : DisplayTopology → Bool → Tick → LidState → LidState
  unfolding should_recover_undocked retry_due retry_recovery apply_profile
  follow_open t changed tick s =
      if should_recover_undocked false t changed (retry_due s tick)
      then retry_recovery changed tick.recovered_at s
      else if changed && t.external_connected
      then record (clear_retries s) { log = (apply_profile succeeds lid.open_profile s.log).1 }
      else if not t.internal_connected || t.external_connected
      then clear_retries s
      else s

  unfoldable pub follow_outputs : Bool → DisplayTopology → Tick → LidState → LidState
  unfolding topology_changed follow_open apply_closed_profile
  follow_outputs closed t tick s =
      if not closed && is_some s.prev_topology
      then follow_open t (topology_changed s t) tick s
      else if is_some s.prev_topology && topology_changed s t
      then record (clear_retries s) { log = (apply_closed_profile succeeds lid t s.log).1 }
      else clear_retries s

  -- A round, for a lid and a topology that were read.
  unfoldable pub round : Bool → DisplayTopology → Tick → LidState → LidState
  unfolding on_lid follow_outputs
  round closed t tick s =
      let moved = record s { log = on_lid s.prev_lid_closed closed t tick s.log } in
      record (follow_outputs closed t tick moved) {
        prev_lid_closed = some closed;
        prev_topology = some t;
      }

  unfoldable pub tick_once : Tick → LidState → LidState
  unfolding lid_closed display_topology round
  tick_once tick s =
      round (lid_closed s tick) (display_topology lid.internal_output tick.entries) tick s

  unfoldable pub run : List Tick → LidState → LidState
  unfolding tick_once
  run [] s = s
  run (tick ∷ ticks) s = run ticks (tick_once tick s)

  -- Nothing is started unless the configuration says so.
  unfoldable pub spawn : List Tick → LidState
  unfolding run
  spawn ticks = if lid.enable then run ticks new_lid_state else new_lid_state
