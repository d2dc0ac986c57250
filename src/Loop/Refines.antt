-- ===== src/Loop/Refines.antt =====
-- The rounds of the event loop (src/connection.rs, `run`), and the data that its steps reach.
use streamwm.Base.{
  ◌≡◌, refl, sym, subst, Bool, true, false, not, ◌&&◌, Option, none, some, List, [], ◌∷◌, map,
  if◌then◌else◌, Outcome, done, ◌>>=◌, Returns, Returns-bind, done_of_Returns,
}
use streamwm.Protocol.{ObjectId, Request, FloatOps}
use streamwm.Config.{Config}
use streamwm.App.{AppData}
use streamwm.App.Safe.{Safe}
use streamwm.Status.Command.{Command}
use streamwm.Loop.{Input, on_command, turn_ended, step}
use streamwm.Loop.Safety.{Admissible, Reach, step-Reach}
use streamwm.Loop.Rounds.{
  Round, Turn, continues, ended, failed, steps, service_control_commands, after_poll, after_flush,
  round_on, run_round, run_on,
}

-- Each input is admissible when its turn comes.
abbrev pub InputsFit : AppData → List Input → Type 0
InputsFit d [] = Unit
InputsFit d (i ∷ is) = Admissible d i × ((d' : AppData) → step d i ≡ done d' → InputsFit d' is)

abbrev pub RoundFits : Round → AppData → Type 0
RoundFits r d = (events : List Input) → r.dispatched ≡ some events → InputsFit d events

-- The events of each round are admissible.
abbrev pub RoundsFit : List Round → Turn → Type 0
RoundsFit [] turn = Unit
RoundsFit (r ∷ rounds) (continues d) =
    RoundFits r d × ((turn : Turn) → run_round r d ≡ done turn → RoundsFit rounds turn)
RoundsFit (r ∷ rounds) (ended d) = Unit
RoundsFit (r ∷ rounds) failed = Unit

module _ (c : Config) (F : FloatOps) (object : List Request → ObjectId) where
  -- The data are reached by steps, and well-formed.
  abbrev pub Sound : AppData → Type 0
  Sound d = Reach c F object d × Safe d

  -- `run` returns without an error only after a quit.
  abbrev pub SoundTurn : Turn → Type 0
  SoundTurn (continues d) = Sound d
  SoundTurn (ended d) = Sound d × (d.quit ≡ true)
  SoundTurn failed = Unit

  steps-Sound :
      (d : AppData) (is : List Input) → InputsFit d is → Sound d → Returns (steps d is) Sound
  unfolding steps
  steps-Sound d [] fit v = v
  steps-Sound d (i ∷ is) fit v =
      let (d', e, v') = done_of_Returns (step d i) Sound (step-Reach c F object d i v.0 fit.0) in
      subst (λ m. Returns (m >>= λ u. steps u is) Sound) (sym e) (steps-Sound d' is (fit.1 d' e) v')

  commands-InputsFit :
      (d : AppData) (commands : List Command) → InputsFit d (map on_command commands)
  commands-InputsFit d [] = tt
  commands-InputsFit d (command ∷ commands) = (tt, λ d' e. commands-InputsFit d' commands)

  service_control_commands-Sound :
      (d : AppData) (commands : List Command)
      → Sound d
      → Returns (service_control_commands d commands) Sound
  unfolding service_control_commands
  service_control_commands-Sound d commands v =
      steps-Sound d (map on_command commands) (commands-InputsFit d commands) v

  -- Both branches are looked at with the test known.
  if-Returns :
      (b : Bool) (m n : Outcome Turn)
      → (b ≡ true → Returns m SoundTurn)
      → (b ≡ false → Returns n SoundTurn)
      → Returns (if b then m else n) SoundTurn
  if-Returns true m n h k = h refl
  if-Returns false m n h k = k refl

  after_poll-Sound :
      (r : Round) (d : AppData) (ready : Bool × Bool)
      → Sound d
      → Returns (after_poll r d ready) SoundTurn
  unfolding after_poll
  after_poll-Sound r d (wayland_ready, wake_ready) v =
      if-Returns (wayland_ready && not r.read) _ _ (λ e. tt)
        λ e.
          if-Returns wake_ready _ _
            (λ e'.
              Returns-bind (service_control_commands d r.woken_commands) _ Sound SoundTurn
                (service_control_commands-Sound d r.woken_commands v) λ d' v'. v')
            (λ e'. v)

  polled-Sound :
      (r : Round) (d : AppData) (ready : Option (Bool × Bool))
      → Sound d
      → Returns (elim ready [ none ↦ done failed | some b ↦ after_poll r d b ]) SoundTurn
  polled-Sound r d none v = tt
  polled-Sound r d (some b) v = after_poll-Sound r d b v

  after_flush-Sound : (r : Round) (d : AppData) → Sound d → Returns (after_flush r d) SoundTurn
  unfolding after_flush
  after_flush-Sound r d v =
      if-Returns d.quit _ _ (λ e. (v, e))
        λ e.
          if-Returns (not r.flushed) _ _ (λ e'. tt)
            λ e'. if-Returns (not r.prepared) _ _ (λ e''. v) λ e''. polled-Sound r d r.polled v

  round_on-Sound :
      (r : Round) (d : AppData) (events : List Input)
      → InputsFit d events
      → Sound d
      → Returns (round_on r d events) SoundTurn
  unfolding round_on
  round_on-Sound r d events fit v =
      Returns-bind (steps d events) _ Sound SoundTurn (steps-Sound d events fit v) λ d' v'.
        Returns-bind (service_control_commands d' r.commands) _ Sound SoundTurn
          (service_control_commands-Sound d' r.commands v')
          λ d'' v''.
            Returns-bind (step d'' turn_ended) _ Sound SoundTurn
              (step-Reach c F object d'' turn_ended v''.0 tt) (after_flush-Sound r)

  dispatched-Sound :
      (r : Round) (d : AppData) (dispatched : Option (List Input))
      → ((events : List Input) → dispatched ≡ some events → InputsFit d events)
      → Sound d
      → Returns
          (elim dispatched [ none ↦ done failed | some events ↦ round_on r d events ])
          SoundTurn
  dispatched-Sound r d none fit v = tt
  dispatched-Sound r d (some events) fit v = round_on-Sound r d events (fit events refl) v

  run_round-Sound :
      (r : Round) (d : AppData) → RoundFits r d → Sound d → Returns (run_round r d) SoundTurn
  unfolding run_round
  run_round-Sound r d fit v = dispatched-Sound r d r.dispatched fit v

  -- The rounds of the event loop refine its steps: for any number of rounds, on whatever each
  -- finds, whose events are admissible when their turn comes, the loop does not panic; the data
  -- that it goes on with, or ends with, are reached by single steps and well-formed; and it ends
  -- without an error only after a quit.
  pub run_on-Sound :
      (rounds : List Round) (turn : Turn)
      → RoundsFit rounds turn
      → SoundTurn turn
      → Returns (run_on rounds turn) SoundTurn
  unfolding run_on
  run_on-Sound [] turn fit v = v
  run_on-Sound (r ∷ rounds) (continues d) fit v =
      let (turn, e, v') = done_of_Returns (run_round r d) SoundTurn (run_round-Sound r d fit.0 v) in
      subst (λ m. Returns (m >>= run_on rounds) SoundTurn) (sym e)
        (run_on-Sound rounds turn (fit.1 turn e) v')
  run_on-Sound (r ∷ rounds) (ended d) fit v = v
  run_on-Sound (r ∷ rounds) failed fit v = v
