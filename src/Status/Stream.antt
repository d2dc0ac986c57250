-- ===== src/Status/Stream.antt =====
-- src/status.rs: one `subscribe` client, served by its own thread (`stream_snapshots`), beside the
-- window manager's thread, which publishes snapshots and answers requests for one. The state that a
-- snapshot shows is known by the number of changes before it. A move is what one thread does between
-- two points at which the other can run: `publish` writes the cell and sends the wake token in two
-- moves, and holds the lock on the registry over both.
pub mod Order
pub mod Converge
pub mod Race
use streamwm.Base.{ℕ, suc, ◌≡◌, Bool, true, false, Option, none, some, List, [], ◌∷◌}

-- What the two threads share, with the change that was published last.
pub record Shared : Type 0 where
  pub version : ℕ
  pub published : ℕ
  pub sending : Bool
  pub registered : Bool
  pub slot : Option ℕ
  pub token : Bool
  pub requested : Bool
  pub answer : Option ℕ

abbrev pub start : Shared
start = record {
  version = 0;
  published = 0;
  sending = false;
  registered = false;
  slot = none;
  token = false;
  requested = false;
  answer = none;
}

-- Where the client's thread stands, with the snapshots that it has written, the newest first.
pub data Phase : Type 0 where
  connecting asking waiting : Phase
  answered cleared drained : ℕ → Phase
  listening woken : List ℕ → Phase
  holding : ℕ → List ℕ → Phase
  gone : List ℕ → Phase

pub data Move : Shared → Phase → Shared → Phase → Type 0 where
  -- the window manager: the state changes; `publish`; `service_status_requests`
  changes :
      {m : Shared} {p : Phase}
      → m.sending ≡ false
      → Move m p (record m { version = suc m.version }) p
  stores :
      {m : Shared} {p : Phase}
      → m.sending ≡ false
      → m.registered ≡ true
      → Move m p (record m { slot = some m.version; published = m.version; sending = true }) p
  sends :
      {m : Shared} {p : Phase}
      → m.sending ≡ true
      → Move m p (record m { token = true; sending = false }) p
  answers :
      {m : Shared} {p : Phase}
      → m.sending ≡ false
      → m.requested ≡ true
      → Move m p (record m { answer = some m.version; requested = false }) p
  -- the client: `register` and `request_snapshot`
  registers :
      {m : Shared}
      → m.sending ≡ false
      → Move m connecting (record m { registered = true; slot = none; token = false }) asking
  asks : {m : Shared} → Move m asking (record m { requested = true }) waiting
  times_out :
      {m : Shared} → m.sending ≡ false → Move m waiting (record m { registered = false }) (gone [])
  receives :
      {m : Shared} {n : ℕ}
      → m.answer ≡ some n
      → Move m waiting (record m { answer = none }) (answered n)
  -- the first snapshot: `*slot = None`, `while wake_rx.try_recv().is_ok() {}`, and the write
  clears : {m : Shared} {n : ℕ} → Move m (answered n) (record m { slot = none }) (cleared n)
  drains :
      {m : Shared} {n : ℕ}
      → m.token ≡ true
      → Move m (cleared n) (record m { token = false }) (cleared n)
  finds_no_token : {m : Shared} {n : ℕ} → m.token ≡ false → Move m (cleared n) m (drained n)
  writes_first : {m : Shared} {n : ℕ} → Move m (drained n) m (listening (n ∷ []))
  fails_first :
      {m : Shared} {n : ℕ}
      → m.sending ≡ false
      → Move m (drained n) (record m { registered = false }) (gone [])
  -- the loop over the wake tokens
  wakes :
      {m : Shared} {ws : List ℕ}
      → m.token ≡ true
      → Move m (listening ws) (record m { token = false }) (woken ws)
  finds_nothing : {m : Shared} {ws : List ℕ} → m.slot ≡ none → Move m (woken ws) m (listening ws)
  takes :
      {m : Shared} {ws : List ℕ} {n : ℕ}
      → m.slot ≡ some n
      → Move m (woken ws) (record m { slot = none }) (holding n ws)
  writes : {m : Shared} {ws : List ℕ} {n : ℕ} → Move m (holding n ws) m (listening (n ∷ ws))
  fails :
      {m : Shared} {ws : List ℕ} {n : ℕ}
      → m.sending ≡ false
      → Move m (holding n ws) (record m { registered = false }) (gone ws)

-- Any number of moves.
pub data Moves (m : Shared) (p : Phase) : Shared → Phase → Type 0 where
  here : Moves m p m p
  later :
      {m' m'' : Shared} {p' p'' : Phase} → Moves m p m' p' → Move m' p' m'' p'' → Moves m p m'' p''

-- The snapshots that have been written.
unfoldable pub written : Phase → List ℕ
written (listening ws) = ws
written (woken ws) = ws
written (holding n ws) = ws
written (gone ws) = ws
written p = []
