-- ===== src/Events/Safety.antt =====
-- Every event of windows, outputs and seats (src/events.rs) returns on safe data, and keeps it safe,
-- where an output's place and size stay in the range of the invariant.
pub mod Outputs
pub mod Floating
pub mod Windows
pub mod Seats
use streamwm.Base.{ℕ, ◌<◌, ◌≡◌, ap, Option, none, some, arith, length, ltb, and_then, if◌then◌else◌}
use streamwm.State.{State, tag_owner}
use streamwm.Events.OnSeat.{live_owner}

live_index-lt :
    (n : ℕ) (owner : Option ℕ) (o : ℕ)
    → and_then owner (λ i. if ltb i n then some i else none) ≡ some o
    → (o < n) × (owner ≡ some o)
live_index-lt n none o e = cc
live_index-lt n (some i) o e =
    let at : (i < n) × (i ≡ o) = ground arith in (omega arith, ap some at.1)

-- The owner that an event uses is one in range.
pub live_owner-lt :
    (s : State) (tag o : ℕ)
    → live_owner s tag ≡ some o
    → (o < length s.outputs) × (tag_owner s tag ≡ some o)
unfolding live_owner
live_owner-lt s tag o e = live_index-lt (length s.outputs) (tag_owner s tag) o e
