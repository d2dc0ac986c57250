-- ===== src/Status/Command.antt =====
-- src/status.rs: control commands, from the JSON value of a request to their effect, and
-- `flush_pending`.
use Prim.Native.String.{String}
use text.Mathlib.Text.{◌==◌ as str_eq}
use streamwm.Base.{
  ℕ, ◌%◌, ◌^◌, Bool, true, false, Option, none, some, [], ◌∷◌, if◌then◌else◌, ◌&&◌, ltb, map_opt,
  get_or_else, length, find, modify, Outcome, done, ◌>>=◌,
}
use streamwm.Protocol.{spawn}
use streamwm.App.{AppData, with_state, send, request_manage}
use streamwm.State.{State, Window, has_name, find_output_by_name, active_output}
use streamwm.State.Focus.{focus_tag, send_focused_to_tag, switch_active_tag}
use streamwm.Events.OnSeat.{live_owner}

pub data Command : Type 0 where
  focus_tag_command : ℕ → Option String → Command
  send_to_tag : ℕ → Command
  focus_output : String → Command
  focus_window : String → Option String → Command
  spawn_command : String → Command
  quit refresh : Command

-- What the program asks of a `serde_json::Value`: a field as a text, and as a `u64`.
pub record Json : Type 0 where
  pub get_str : String → Option String
  pub get_u64 : String → Option ℕ

-- `t as u32` of a `u64`
abbrev pub low_u32 : ℕ → ℕ
low_u32 n = n % 2 ^ 32

unfoldable pub parse_named : String → Json → Option Command
parse_named name v =
    if str_eq name "focus_tag"
    then map_opt (λ t. focus_tag_command (low_u32 t) (v.get_str "output")) (v.get_u64 "tag")
    else if str_eq name "send_to_tag"
    then map_opt (λ t. send_to_tag (low_u32 t)) (v.get_u64 "tag")
    else if str_eq name "focus_output"
    then map_opt focus_output (v.get_str "output")
    else if str_eq name "focus_window"
    then map_opt (λ a. focus_window a (v.get_str "title")) (v.get_str "app_id")
    else if str_eq name "spawn"
    then map_opt spawn_command (v.get_str "command")
    else if str_eq name "quit"
    then some quit
    else none

unfoldable pub parse_command_value : Json → Option Command
unfolding parse_named
parse_command_value v = parse_named (get_or_else (v.get_str "cmd") "") v

-- The output that a `focus_tag` command is for.
unfoldable pub command_output : State → Option String → Option ℕ
unfolding active_output find_output_by_name
command_output s none = active_output s
command_output s (some name) = find_output_by_name s name

unfoldable pub focus_tag_on : State → Option ℕ → ℕ → Outcome State
focus_tag_on s none tag = done s
focus_tag_on s (some o) tag =
    if ltb tag (length s.tags) && ltb o (length s.outputs) then focus_tag s o tag else done s

unfoldable pub matches_window : String → Option String → Window → Bool
matches_window app_id title w =
    has_name w.app_id app_id && elim title [ none ↦ true | some t ↦ has_name w.title t ]

-- The window with this id and tag is shown and focused on the output that owns the tag.
unfoldable pub show_and_focus : State → Option ℕ → ℕ → ℕ → Outcome State
show_and_focus s none wid tag = done s
show_and_focus s (some o) wid tag = do
  s' ← switch_active_tag (record s { focused_output = some o }) o tag
  done (record s' { outputs = modify s'.outputs o (λ x. record x { focused_window = some wid }) })

unfoldable pub focus_matching : State → String → Option String → Outcome State
unfolding matches_window live_owner
focus_matching s app_id title = elim (find (matches_window app_id title) s.windows) [
  | none ↦ done s
  | some w ↦ show_and_focus s (live_owner s w.tag) w.id w.tag
]

-- The command, without the manage sequence that every command requests in the end.
unfoldable pub run_command : Command → AppData → Outcome AppData
unfolding command_output active_output find_output_by_name send
run_command (focus_tag_command tag output) d = do
  s ← focus_tag_on d.state (command_output d.state output) tag
  done (with_state d s)
run_command (send_to_tag tag) d = elim (active_output d.state) [
  | none ↦ done d
  | some o ↦ do s ← send_focused_to_tag d.state o tag; done (with_state d s)
]
run_command (focus_output name) d = elim (find_output_by_name d.state name) [
  | none ↦ done d
  | some idx ↦ done (with_state d (record d.state { focused_output = some idx }))
]
run_command (focus_window app_id title) d = do
  s ← focus_matching d.state app_id title
  done (with_state d s)
run_command (spawn_command command) d =
    done (if d.config.allow_spawn then send (spawn command ∷ []) d else d)
run_command quit d = done (record d { quit = true })
run_command refresh d = done d

unfoldable pub apply_command : AppData → Command → Outcome AppData
unfolding run_command request_manage
apply_command d c = do d' ← run_command c d; done (request_manage d')

unfoldable pub flush_pending : AppData → AppData
unfolding request_manage
flush_pending d =
    if d.state.pending_apply
    then request_manage (with_state d (record d.state { pending_apply = false }))
    else d
