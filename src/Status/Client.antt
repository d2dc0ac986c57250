-- ===== src/Status/Client.antt =====
-- src/status.rs: what the socket's threads do with a client, and what the window manager's thread
-- does for them. The JSON library is a parameter: `parse_json` and `to_json`.
pub mod Replies
use Prim.Native.Char.{code}
use Prim.Native.String.{String}
use text.Mathlib.Text.{◌==◌ as str_eq}
use streamwm.Base.{
  ℕ, suc, ◌-◌, Bool, true, false, Option, none, some, List, [], ◌∷◌, if◌then◌else◌, leb,
  get_or_else, map,
}
use streamwm.Bindings.Keys.{is_space, join}
use streamwm.App.{AppData}
use streamwm.Status.Command.{Command, Json, parse_command_value}
use streamwm.Status.Snapshot.{StatusSnapshot, build_snapshot}
use streamwm.Status.Subscribers.{Subscribers, publish}

-- `str::trim`
abbrev pub trim_start : String → String
trim_start String.[] = String.[]
trim_start (String.◌∷◌ c s) =
    let rest = trim_start s in if is_space (code c) then rest else String.◌∷◌ c s

abbrev cons_trimmed : Bool → String → String → String
cons_trimmed true String.[] t = String.[]
cons_trimmed true (String.◌∷◌ c s) t = t
cons_trimmed false s t = t

abbrev pub trim_end : String → String
trim_end String.[] = String.[]
trim_end (String.◌∷◌ c s) =
    let rest = trim_end s in cons_trimmed (is_space (code c)) rest (String.◌∷◌ c rest)

abbrev pub trim : String → String
trim s = trim_end (trim_start s)

abbrev pub is_blank : String → Bool
is_blank String.[] = true
is_blank (String.◌∷◌ c s) = false

-- What is done for a client: one line is written, or a command is passed on first, or the client is
-- served by `stream_snapshots`, or nothing is written.
pub data Served : Type 0 where
  replied : String → Served
  commanded : Command → String → Served
  subscribed : Served
  closed : Served

-- `request_snapshot`: whether the request could be sent, and what came within two seconds.
unfoldable pub request_snapshot : Bool → Option StatusSnapshot → Option StatusSnapshot
request_snapshot sent received = if sent then received else none

-- The reply to a request for the status.
unfoldable pub status_reply : (StatusSnapshot → Option String) → Option StatusSnapshot → String
status_reply to_json none = "{\"error\":\"status timeout\"}"
status_reply to_json (some snap) = get_or_else (to_json snap) "{}"

unfoldable pub command_name : Json → String
command_name cmd = get_or_else (cmd.get_str "cmd") ""

unfoldable pub command_reply : String → Option Command → Served
command_reply name (some c) = commanded c "{\"status\":\"ok\"}"
command_reply name none = replied (join "{\"error\":\"unknown command: " (join name "\"}"))

unfoldable pub json_reply : Option Json → Served
unfolding command_reply command_name parse_command_value
json_reply none = replied "{\"error\":\"bad json\"}"
json_reply (some cmd) =
    if str_eq (command_name cmd) "subscribe"
    then subscribed
    else command_reply (command_name cmd) (parse_command_value cmd)

-- The lines that the client sends; a line that cannot be read, in two seconds, is `none`.
module _ (parse_json : String → Option Json) (to_json : StatusSnapshot → Option String)
    (snapshot : Option StatusSnapshot) where
  unfoldable pub serve_line : String → Served
  unfolding status_reply json_reply
  serve_line line =
      if str_eq line "get_status"
      then replied (status_reply to_json snapshot)
      else json_reply (parse_json line)

  unfoldable pub handle_client : List (Option String) → Served
  unfolding serve_line
  handle_client [] = closed
  handle_client (none ∷ lines) = closed
  handle_client (some line ∷ lines) =
      let rest = handle_client lines in
      if is_blank (trim line) then rest else serve_line (trim line)

-- `refresh_snapshot`, with the registry of subscribers if the socket was started.
unfoldable pub refresh_snapshot :
    (ℕ → String)
    → (StatusSnapshot → Option String)
    → AppData
    → Option Subscribers
    → Option Subscribers
unfolding publish build_snapshot
refresh_snapshot unnamed to_json d none = none
refresh_snapshot unnamed to_json d (some subs) = elim subs.clients [
  | [] ↦ some subs
  | ◌∷◌ c cs ↦ elim (to_json (build_snapshot unnamed d.state)) [
    | none ↦ some subs
    | some json ↦ some (publish json subs)
  ]
]

-- `service_status_requests`: every request that waits gets the snapshot of the present state.
unfoldable pub service_status_requests :
    {Request : Type 0} → (ℕ → String) → AppData → List Request → List (Request × StatusSnapshot)
unfolding build_snapshot
service_status_requests unnamed d requests = map (λ r. (r, build_snapshot unnamed d.state)) requests

abbrev pub max_status_clients : ℕ
max_status_clients = 16

-- From `$XDG_RUNTIME_DIR` and `$WAYLAND_DISPLAY`.
unfoldable pub socket_path : Option String → Option String → String
socket_path runtime display =
    join (get_or_else runtime "/tmp")
      (join "/streamwm-" (join (get_or_else display "wayland-0") ".sock"))

-- What changes the number of client threads: a connection, and the end of a thread.
pub data ClientEvent : Type 0 where
  connected disconnected : ClientEvent

-- `ACTIVE_CLIENTS`, and whether the connection is refused.
unfoldable pub accept : ℕ → ℕ × Bool
accept active = if leb max_status_clients active then (active, true) else (suc active, false)

unfoldable pub client_event : ℕ → ClientEvent → ℕ
unfolding accept
client_event active connected = (accept active).0
client_event active disconnected = active - 1
