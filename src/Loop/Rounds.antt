-- ===== src/Loop/Rounds.antt =====
-- The rounds of the event loop (src/connection.rs, `run`), on what each finds. The requests for a
-- snapshot, which change nothing, are left out: Status/Client has them.
use streamwm.Base.{
  Bool, Option, none, some, List, [], ◌∷◌, map, if◌then◌else◌, not, ◌&&◌, Outcome, done, ◌>>=◌,
}
use streamwm.App.{AppData}
use streamwm.Status.Command.{Command}
use streamwm.Loop.{Input, on_command, turn_ended, step}

-- What a round finds: the events that are dispatched, unless that fails; the commands that wait;
-- whether the requests can be flushed; whether a read can be prepared; what `poll` returns, for the
-- compositor and for the wake descriptor, unless it fails; whether the compositor can be read; and
-- the commands that wait after a wakeup.
pub record Round : Type 0 where
  pub dispatched : Option (List Input)
  pub commands : List Command
  pub flushed : Bool
  pub prepared : Bool
  pub polled : Option (Bool × Bool)
  pub read : Bool
  pub woken_commands : List Command

-- The loop goes on, or `run` returns.
pub data Turn : Type 0 where
  continues ended : AppData → Turn
  failed : Turn

-- One after the other.
unfoldable pub steps : AppData → List Input → Outcome AppData
steps d [] = done d
steps d (i ∷ is) = do d' ← step d i; steps d' is

unfoldable pub service_control_commands : AppData → List Command → Outcome AppData
unfolding steps
service_control_commands d commands = steps d (map on_command commands)

-- The end of a round, once `poll` has returned.
unfoldable pub after_poll : Round → AppData → Bool × Bool → Outcome Turn
unfolding service_control_commands
after_poll r d (wayland_ready, wake_ready) =
    if wayland_ready && not r.read
    then done failed
    else if wake_ready
    then (service_control_commands d r.woken_commands >>= λ d'. done (continues d'))
    else done (continues d)

-- From the test of `quit` on.
unfoldable pub after_flush : Round → AppData → Outcome Turn
unfolding after_poll
after_flush r d =
    if d.quit
    then done (ended d)
    else if not r.flushed
    then done failed
    else if not r.prepared
    then done (continues d)
    else (elim r.polled [ none ↦ done failed | some ready ↦ after_poll r d ready ])

unfoldable pub round_on : Round → AppData → List Input → Outcome Turn
unfolding service_control_commands after_flush
round_on r d events = do
  d' ← steps d events
  d'' ← service_control_commands d' r.commands
  d''' ← step d'' turn_ended
  after_flush r d'''

unfoldable pub run_round : Round → AppData → Outcome Turn
unfolding round_on
run_round r d = elim r.dispatched [ none ↦ done failed | some events ↦ round_on r d events ]

-- The rounds until `run` returns, or as many as there are.
unfoldable pub run_on : List Round → Turn → Outcome Turn
unfolding run_round
run_on [] turn = done turn
run_on (r ∷ rounds) (continues d) = do turn ← run_round r d; run_on rounds turn
run_on (r ∷ rounds) (ended d) = done (ended d)
run_on (r ∷ rounds) failed = done failed
