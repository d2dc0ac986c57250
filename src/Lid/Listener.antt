-- ===== src/Lid/Listener.antt =====
-- src/lid.rs: the thread that hears of the lid from logind, as the events that it sends.
use Prim.Native.String.{String}
use text.Mathlib.Text.{◌==◌ as str_eq}
use streamwm.Base.{Bool, Option, none, some, List, [], ◌∷◌, ◌++◌, if◌then◌else◌}
use streamwm.Lid.Ticks.{LidEvent, closed_event}

-- A signal: the property's name, its value if that can be read, and whether the loop's end of the
-- channel is still there.
pub record Change : Type 0 where
  pub name : String
  pub value : Option Bool
  pub delivered : Bool

-- The initial state, sent whether or not it is received.
unfoldable pub initial_event : Option Bool → List LidEvent
initial_event none = []
initial_event (some closed) = closed_event closed ∷ []

-- The loop over the signals, which a send that fails ends.
unfoldable pub forward : List Change → List LidEvent
forward [] = []
forward (change ∷ changes) =
    let rest = forward changes in
    if str_eq change.name "LidClosed"
    then (elim change.value [
      | none ↦ rest
      | some closed ↦ if change.delivered then closed_event closed ∷ rest else []
    ])
    else rest

-- `none` for an error: the bus or the proxy is not there. Whether the inhibitor is granted plays no
-- part.
unfoldable pub logind_listener : Bool → Option Bool → List Change → Option (List LidEvent)
unfolding initial_event forward
logind_listener connected lid_closed changes =
    if connected then some (initial_event lid_closed ++ forward changes) else none
