-- ===== src/Bindings/Action/Text.antt =====
-- src/bindings.rs: the text of an action: its name, and behind a colon its argument.
use Prim.Native.Char.{code}
use Prim.Native.String.{String}
use text.Mathlib.Text.{◌==◌ as str_eq}
use streamwm.Base.{
  ℕ, ◌+◌, ◌-◌, ◌*◌, ◌^◌, Bool, true, Option, none, some, List, [], ◌∷◌, if◌then◌else◌, ◌==◌, ◌≡◌,
  refl, ◌&&◌, leb, ltb, and_then,
}

abbrev codes : String → List ℕ
codes String.[] = []
codes (String.◌∷◌ c s) = code c ∷ codes s

-- `split_once(':')`: the text before the first colon, and the text behind it, if there is one.
unfoldable pub split_colon : String → String × Option String
split_colon String.[] = (String.[], none)
split_colon (String.◌∷◌ c s) =
    let (name, arg) = split_colon s in
    if code c == b':' then (String.[], some s) else (String.◌∷◌ c name, arg)

-- `parse::<usize>()`: decimal digits behind an optional plus sign, on 64 bits.
unfoldable pub parse_digits : ℕ → List ℕ → Option ℕ
parse_digits acc [] = some acc
parse_digits acc (c ∷ cs) =
    let n = acc * 10 + (c - b'0') in
    let rest = parse_digits n cs in
    if leb b'0' c && leb c b'9' then (if ltb n (2 ^ 64) then rest else none) else none

abbrev skip_plus : List ℕ → List ℕ
skip_plus [] = []
skip_plus (c ∷ cs) = if c == b'+' then cs else c ∷ cs

abbrev digits_of : List ℕ → Option ℕ
digits_of [] = none
digits_of (c ∷ cs) = parse_digits 0 (c ∷ cs)

unfoldable pub parse_usize : String → Option ℕ
unfolding parse_digits
parse_usize s = digits_of (skip_plus (codes s))

pub data Action : Type 0 where
  spawn_terminal spawn_launcher : Action
  spawn_command : Option String → Action
  close focus_next focus_prev : Action
  focus_tag_action : Option ℕ → Action
  send_to_tag : Option ℕ → Action
  fullscreen float focus_next_output focus_prev_output cycle_layout : Action
  enter_resize_mode exit_resize_mode resize_step_left resize_step_right quit nothing : Action

-- The arms of the match, in the order of the source.
unfoldable pub action_of : String → Option String → Action
unfolding parse_usize
action_of name arg =
    if str_eq name "spawn_terminal"
    then spawn_terminal
    else if str_eq name "spawn_launcher"
    then spawn_launcher
    else if str_eq name "spawn"
    then spawn_command arg
    else if str_eq name "close"
    then close
    else if str_eq name "focus_next"
    then focus_next
    else if str_eq name "focus_prev"
    then focus_prev
    else if str_eq name "focus_tag"
    then focus_tag_action (and_then arg parse_usize)
    else if str_eq name "send_to_tag"
    then send_to_tag (and_then arg parse_usize)
    else if str_eq name "fullscreen"
    then fullscreen
    else if str_eq name "float"
    then float
    else if str_eq name "focus_next_output"
    then focus_next_output
    else if str_eq name "focus_prev_output"
    then focus_prev_output
    else if str_eq name "cycle_layout"
    then cycle_layout
    else if str_eq name "enter_resize_mode"
    then enter_resize_mode
    else if str_eq name "exit_resize_mode"
    then exit_resize_mode
    else if str_eq name "resize_step_left"
    then resize_step_left
    else if str_eq name "resize_step_right"
    then resize_step_right
    else if str_eq name "quit"
    then quit
    else nothing

unfoldable pub parse_action : String → Action
unfolding split_colon action_of
parse_action action = let (name, arg) = split_colon action in action_of name arg

-- `is_resize_binding`
unfoldable pub is_resize_binding : String → Bool
is_resize_binding action =
    if str_eq action "resize_step_left"
    then true
    else if str_eq action "resize_step_right"
    then true
    else str_eq action "exit_resize_mode"

parse_action_tag : parse_action "focus_tag:12" ≡ focus_tag_action (some 12)
unfolding parse_action
parse_action_tag = refl

parse_action_overflow : parse_action "send_to_tag:18446744073709551616" ≡ send_to_tag none
unfolding parse_action
parse_action_overflow = refl
