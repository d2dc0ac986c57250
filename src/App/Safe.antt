-- ===== src/App/Safe.antt =====
-- What every handler keeps of the event loop's data: a well-formed state, and the queue handle that
-- `run` sets before the first event.
use streamwm.Base.{
  Bool, false, if◌then◌else◌, ℕ, ◌<◌, ◌≡◌, refl, true, List, arith, Outcome, done, ◌>>=◌, Returns,
  Returns-bind,
}
use streamwm.Protocol.{Request, FloatOps, ObjectId}
use streamwm.Config.{Config}
use streamwm.App.{AppData, with_state, send, request_manage, start}
use streamwm.State.{State, Window, new_state, update_window, num_tags}
use streamwm.State.Invariant.{WellFormed, update_window-WellFormed}

abbrev pub Safe : AppData → Type 0
Safe d = WellFormed d.state × (d.qh ≡ true)

pub send-Safe : (rs : List Request) (d : AppData) → Safe d → Safe (send rs d)
unfolding send
send-Safe rs d v = v

pub request_manage-Safe : (d : AppData) → Safe d → Safe (request_manage d)
unfolding request_manage
request_manage-Safe d v = ground arith

-- One of two results, both safe.
pub either-Safe : (b : Bool) (x y : AppData) → Safe x → Safe y → Safe (if b then x else y)
either-Safe true x y v w = v
either-Safe false x y v w = w

pub either-Returns :
    (b : Bool) (m n : Outcome AppData)
    → Returns m Safe
    → Returns n Safe
    → Returns (if b then m else n) Safe
either-Returns true m n v w = v
either-Returns false m n v w = w

-- A handler that changes the state by a step which keeps it well-formed.
pub with_state-Safe :
    (d : AppData) (m : Outcome State)
    → Returns m WellFormed
    → Safe d
    → Returns (m >>= λ s. done (with_state d s)) Safe
with_state-Safe d m h v = Returns-bind m _ WellFormed Safe h (λ s w. (w, v.1))

-- The same, and a manage sequence is requested.
pub managed-Safe :
    (d : AppData) (m : Outcome State)
    → Returns m WellFormed
    → Safe d
    → Returns (m >>= λ s. done (request_manage (with_state d s))) Safe
managed-Safe d m h v =
    Returns-bind m _ WellFormed Safe h (λ s w. request_manage-Safe (with_state d s) (w, v.1))

pub edit_window-Safe :
    (d : AppData) (id : ℕ) (f : Window → Window)
    → ((w : Window) → w.tag < num_tags → (f w).tag < num_tags)
    → Safe d
    → Safe (with_state d (update_window d.state id f))
edit_window-Safe d id f k v = (update_window-WellFormed d.state id f k v.0, v.1)

new_state-WellFormed : (fraction : ℕ) → WellFormed (new_state fraction)
unfolding new_state
new_state-WellFormed fraction = record { ranged = omega arith; settled = λ j. tt }

-- The data that the event loop starts from, once the queue handle is set, have a well-formed
-- state, for every configuration.
pub start-Safe :
    (c : Config) (F : FloatOps) (object : List Request → ObjectId)
    → Safe (record (start c F object) { qh = true })
unfolding start
start-Safe c F object = (new_state-WellFormed _, refl)
