-- ===== src/Samples/Rounds.antt =====
-- The event loop on two rounds: a new output and a new window, then the command to quit.
use streamwm.App.{AppData}
use streamwm.Base.{◌≡◌, subst, true, false, none, some, List, [], ◌∷◌, Returns}
use streamwm.Status.Command.{quit}
use streamwm.Connection.{output, window}
use streamwm.Loop.{Input, boot, on_wm}
use streamwm.Loop.Safety.{booted, boot-Safe}
use streamwm.Loop.Rounds.{Round, Turn, continues, ended, failed, run_on}
use streamwm.Loop.Refines.{InputsFit, RoundsFit, SoundTurn, run_on-Sound}
use streamwm.Samples.{config, hundredths, fresh, globals}

abbrev busy : Round
busy = record {
  dispatched = some (on_wm (output 5) ∷ on_wm (window 24) ∷ []);
  commands = [];
  flushed = true;
  prepared = true;
  polled = some (false, true);
  read = true;
  woken_commands = quit ∷ [];
}

abbrev calm : Round
calm = record {
  dispatched = some [];
  commands = [];
  flushed = true;
  prepared = false;
  polled = none;
  read = true;
  woken_commands = [];
}

given-InputsFit :
    (d : AppData) (known : List Input)
    → InputsFit d known
    → (events : List Input) → some known ≡ some events
    → InputsFit d events
given-InputsFit d known fit events e = subst (InputsFit d) (cc) fit

calm-RoundsFit : (turn : Turn) → RoundsFit (calm ∷ []) turn
calm-RoundsFit (continues d) = (given-InputsFit d [] tt, λ turn e. tt)
calm-RoundsFit (ended d) = tt
calm-RoundsFit failed = tt

run_on-Sound_example :
    Returns
      (run_on (busy ∷ calm ∷ []) (continues (boot config hundredths fresh globals)))
      (SoundTurn config hundredths fresh)
run_on-Sound_example =
    run_on-Sound config hundredths fresh (busy ∷ calm ∷ [])
      (continues (boot config hundredths fresh globals))
      (
        given-InputsFit _ (on_wm (output 5) ∷ on_wm (window 24) ∷ [])
            (tt, λ d e. (tt, λ d' e'. tt)),
        λ turn e. calm-RoundsFit turn,
      )
      (booted globals, boot-Safe config hundredths fresh globals)
