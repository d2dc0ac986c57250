-- ===== src/Status/Subscribers.antt =====
-- src/status.rs: the registry of `subscribe` clients. A client's cell holds the newest snapshot that
-- it has not taken, its wake channel at most one token, and `alive` says whether its thread still
-- holds the receiving end.
use Prim.Native.String.{String}
use streamwm.Base.{
  ℕ, ◌+◌, ◌%◌, ◌^◌, Bool, true, false, Option, none, some, List, [], ◌∷◌, ◌++◌, if◌then◌else◌, ◌==◌,
  not, retain, map,
}

pub record Subscriber : Type 0 where
  pub id : ℕ
  pub latest : Option String
  pub woken : Bool
  pub alive : Bool

pub record Subscribers : Type 0 where
  pub next_id : ℕ
  pub clients : List Subscriber

unfoldable pub no_subscribers : Subscribers
no_subscribers = record { next_id = 0; clients = [] }

unfoldable pub register : Subscribers → Subscribers × ℕ
register r = (
  record {
    next_id = (r.next_id + 1) % 2 ^ 64;
    clients =
        r.clients ++ record { id = r.next_id; latest = none; woken = false; alive = true } ∷ [];
  },
  r.next_id,
)

unfoldable pub unregister : ℕ → Subscribers → Subscribers
unregister id r = record r { clients = retain (λ c. not (c.id == id)) r.clients }

-- One client of `publish`: the cell is overwritten, and `try_send` leaves one token in the channel
-- (`Full` if there was one), or finds it disconnected.
unfoldable pub offer : String → Subscriber → Subscriber
offer json c = record c { latest = some json; woken = if c.alive then true else c.woken }

unfoldable pub publish : String → Subscribers → Subscribers
unfolding offer
publish json r = record r { clients = retain (λ c. c.alive) (map (offer json) r.clients) }

-- The client thread's side of one wakeup: it takes the token, then the cell.
unfoldable pub take_latest : Subscriber → Subscriber × Option String
take_latest c = if c.woken then (record c { woken = false; latest = none }, c.latest) else (c, none)
