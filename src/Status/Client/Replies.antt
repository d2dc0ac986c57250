-- ===== src/Status/Client/Replies.antt =====
-- What a client of the status socket (src/status.rs) is answered.
use Prim.Native.String.{String}
use streamwm.Base.{
  ℕ, ◌≤◌, ◌≡◌, refl, Bool, true, false, Option, none, some, List, [], ◌∷◌, ◌++◌, arith, All, map,
  if◌then◌else◌,
}
use streamwm.Status.Command.{Command, Json, parse_command_value}
use streamwm.Status.Snapshot.{StatusSnapshot}
use streamwm.Status.Client.{
  trim, is_blank, Served, replied, commanded, subscribed, command_reply, json_reply, serve_line,
  handle_client, ClientEvent, connected, disconnected, accept, client_event, max_status_clients,
}

command_reply-commanded :
    (name : String) (parsed : Option Command) (c : Command) (reply : String)
    → command_reply name parsed ≡ commanded c reply
    → parsed ≡ some c
unfolding command_reply
command_reply-commanded name none c reply e = cc
command_reply-commanded name (some c') c reply e = cc

unless_subscribed :
    (b : Bool) (s : Served) (c : Command) (reply : String)
    → (if b then subscribed else s) ≡ commanded c reply
    → s ≡ commanded c reply
unless_subscribed true s c reply e = cc
unless_subscribed false s c reply e = e

json_reply-commanded :
    (parsed : Option Json) (c : Command) (reply : String)
    → json_reply parsed ≡ commanded c reply
    → (cmd : Json) × (parsed ≡ some cmd) × (parse_command_value cmd ≡ some c)
unfolding json_reply
json_reply-commanded none c reply e = cc
json_reply-commanded (some cmd) c reply e =
    (cmd, refl, command_reply-commanded _ _ c reply (unless_subscribed _ _ c reply e))

status_or_json :
    (b : Bool) (status : String) (s : Served) (c : Command) (reply : String)
    → (if b then replied status else s) ≡ commanded c reply
    → s ≡ commanded c reply
status_or_json true status s c reply e = cc
status_or_json false status s c reply e = e

module _ (parse_json : String → Option Json) (to_json : StatusSnapshot → Option String)
    (snapshot : Option StatusSnapshot) where
  -- A client is served for the first of its lines that is not blank, and for no other line,
  -- whatever follows and whether or not that can be read.
  pub handle_client-first :
      (blanks : List String) (line : String) (lines : List (Option String))
      → All (λ b. is_blank (trim b) ≡ true) blanks
      → is_blank (trim line) ≡ false
      → handle_client parse_json to_json snapshot (map some blanks ++ some line ∷ lines)
        ≡ serve_line parse_json to_json snapshot (trim line)
  unfolding handle_client
  handle_client-first [] line lines h e = rw e refl
  handle_client-first (b ∷ blanks) line lines h e =
      rw h.0 (handle_client-first blanks line lines h.1 e)

  -- A command is passed on only for JSON that it is parsed from.
  serve_line-commanded :
      (line : String) (c : Command) (reply : String)
      → serve_line parse_json to_json snapshot line ≡ commanded c reply
      → (cmd : Json) × (parse_json line ≡ some cmd) × (parse_command_value cmd ≡ some c)
  unfolding serve_line
  serve_line-commanded line c reply e =
      json_reply-commanded (parse_json line) c reply
        (status_or_json _ _ (json_reply (parse_json line)) c reply e)

client_event-le :
    (active : ℕ) (e : ClientEvent)
    → active ≤ max_status_clients
    → client_event active e ≤ max_status_clients
unfolding client_event accept
client_event-le active connected h = ground arith
client_event-le active disconnected h = omega arith

-- The number of client threads after each event.
abbrev pub counts : ℕ → List ClientEvent → List ℕ
counts active [] = []
counts active (e ∷ events) = let next = client_event active e in next ∷ counts next events

-- There are never more than 16 client threads, however clients connect and disconnect, when there
-- are at most 16 at first.
pub client_event-bound :
    (active : ℕ) (events : List ClientEvent)
    → active ≤ max_status_clients
    → All (λ n. n ≤ max_status_clients) (counts active events)
client_event-bound active [] h = tt
client_event-bound active (e ∷ events) h =
    let next : client_event active e ≤ max_status_clients = client_event-le active e h in
    (next, client_event-bound (client_event active e) events next)
