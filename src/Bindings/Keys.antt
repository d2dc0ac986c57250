-- ===== src/Bindings/Keys.antt =====
-- src/bindings.rs: the list of key bindings, and the reading of keysyms and modifiers. A text is
-- read as the list of its code points.
use Prim.Native.Char.{code}
use Prim.Native.String.{String}
use text.Mathlib.Text.{◌==◌ as str_eq}
use streamwm.Base.{
  ℕ, ◌+◌, Bool, true, false, Option, none, some, List, [], ◌∷◌, ◌++◌, map, if◌then◌else◌, ◌==◌,
  ◌&&◌, ◌||◌, leb, not, any, ◌≡◌, refl,
}
use streamwm.Protocol.{Modifiers, no_modifiers}
use streamwm.Config.{Config, Binding}

abbrev pub codes : String → List ℕ
codes String.[] = []
codes (String.◌∷◌ c s) = code c ∷ codes s

abbrev pub join : String → String → String
join String.[] t = t
join (String.◌∷◌ c s) t = String.◌∷◌ c (join s t)

abbrev named : String → (String × ℕ) → Bool
named name entry = str_eq name entry.0

abbrev look_up : String → List (String × ℕ) → Option ℕ
look_up name [] = none
look_up name (e ∷ es) = if named name e then some e.1 else look_up name es

abbrev keysyms : List (String × ℕ)
keysyms =
    ("Return", 0xff0d)
    ∷ ("space", 0x20)
    ∷ ("Escape", 0xff1b)
    ∷ ("Tab", 0xff09)
    ∷ ("BackSpace", 0xff08)
    ∷ ("Left", 0xff51)
    ∷ ("Up", 0xff52)
    ∷ ("Right", 0xff53)
    ∷ ("Down", 0xff54)
    ∷ ("F1", 0xffbe)
    ∷ ("F2", 0xffbf)
    ∷ ("F3", 0xffc0)
    ∷ ("F4", 0xffc1)
    ∷ ("F5", 0xffc2)
    ∷ ("F6", 0xffc3)
    ∷ ("F7", 0xffc4)
    ∷ ("F8", 0xffc5)
    ∷ ("F9", 0xffc6)
    ∷ ("F10", 0xffc7)
    ∷ ("F11", 0xffc8)
    ∷ ("F12", 0xffc9)
    ∷ ("XF86AudioRaiseVolume", 269025043)
    ∷ ("XF86AudioLowerVolume", 269025041)
    ∷ ("XF86AudioMute", 269025042)
    ∷ ("XF86AudioMicMute", 269025202)
    ∷ ("XF86MonBrightnessUp", 269025026)
    ∷ ("XF86MonBrightnessDown", 269025027)
    ∷ []

unfoldable pub is_alphanumeric : ℕ → Bool
is_alphanumeric c =
    (leb b'0' c && leb c b'9') || ((leb b'A' c && leb c b'Z') || (leb b'a' c && leb c b'z'))

-- The keysym of a text that is one ASCII letter or digit.
unfoldable pub single_key : List ℕ → Option ℕ
unfolding is_alphanumeric
single_key [] = none
single_key (c ∷ []) = if is_alphanumeric c then some c else none
single_key (c ∷ d ∷ cs) = none

unfoldable pub parse_keysym : String → Option ℕ
unfolding single_key
parse_keysym name = elim (single_key (codes name)) [ some c ↦ some c | none ↦ look_up name keysyms ]

unfoldable pub is_empty : Modifiers → Bool
is_empty m = not (m.shift || (m.ctrl || (m.mod1 || (m.mod3 || (m.mod4 || m.mod5)))))

-- White space of Unicode.
abbrev pub is_space : ℕ → Bool
is_space c =
    (leb 9 c && leb c 13)
    || (c == 32
        || (c == 0x85
            || (c == 0xa0
                || (c == 0x1680
                    || ((leb 0x2000 c && leb c 0x200a)
                        || (c == 0x2028
                            || (c == 0x2029 || (c == 0x202f || (c == 0x205f || c == 0x3000)))))))))

abbrev pub trim_start : List ℕ → List ℕ
trim_start [] = []
trim_start (c ∷ cs) = if is_space c then trim_start cs else c ∷ cs

abbrev pub cons_trimmed : ℕ → List ℕ → List ℕ
cons_trimmed c [] = if is_space c then [] else c ∷ []
cons_trimmed c (e ∷ es) = c ∷ e ∷ es

abbrev pub trim_end : List ℕ → List ℕ
trim_end [] = []
trim_end (c ∷ cs) = cons_trimmed c (trim_end cs)

abbrev pub trim : List ℕ → List ℕ
trim cs = trim_end (trim_start cs)

abbrev lower : ℕ → ℕ
lower c = if leb b'A' c && leb c b'Z' then c + 32 else c

abbrev same_codes : List ℕ → List ℕ → Bool
same_codes [] [] = true
same_codes [] (d ∷ ds) = false
same_codes (c ∷ cs) [] = false
same_codes (c ∷ cs) (d ∷ ds) = c == d && same_codes cs ds

abbrev is : List ℕ → String → Bool
is cs name = same_codes cs (codes name)

abbrev cons_part : ℕ → List (List ℕ) → List (List ℕ)
cons_part c [] = (c ∷ []) ∷ []
cons_part c (p ∷ ps) = (c ∷ p) ∷ ps

-- `split([',', '+'])`
abbrev split_parts : List ℕ → List (List ℕ)
split_parts [] = [] ∷ []
split_parts (c ∷ cs) =
    let parts = split_parts cs in if c == b',' || c == b'+' then [] ∷ parts else cons_part c parts

-- One part of the list, trimmed and in lower case.
unfoldable pub add_part : Modifiers → List ℕ → Modifiers
add_part m part =
    if is part "shift"
    then record m { shift = true }
    else if is part "ctrl" || is part "control"
    then record m { ctrl = true }
    else if is part "alt" || is part "mod1"
    then record m { mod1 = true }
    else if is part "super" || (is part "mod4" || is part "logo")
    then record m { mod4 = true }
    else if is part "mod3"
    then record m { mod3 = true }
    else if is part "mod5"
    then record m { mod5 = true }
    else m

unfoldable pub add_parts : Modifiers → List (List ℕ) → Modifiers
unfolding add_part
add_parts m [] = m
add_parts m (p ∷ ps) = add_parts (add_part m (map lower (trim p))) ps

abbrev is_prefix : List ℕ → List ℕ → Bool
is_prefix [] ds = true
is_prefix (c ∷ cs) [] = false
is_prefix (c ∷ cs) (d ∷ ds) = c == d && is_prefix cs ds

abbrev contains : List ℕ → List ℕ → Bool
contains [] cs = is_prefix cs []
contains (d ∷ ds) cs = is_prefix cs (d ∷ ds) || contains ds cs

unfoldable pub config_modifiers : List ℕ → Modifiers
config_modifiers m =
    if contains m (codes "super") || contains m (codes "mod4")
    then record no_modifiers { mod4 = true }
    else if contains m (codes "alt") || contains m (codes "mod1")
    then record no_modifiers { mod1 = true }
    else if contains m (codes "ctrl")
    then record no_modifiers { ctrl = true }
    else no_modifiers

unfoldable pub parse_modifiers : String → String → Modifiers
unfolding add_parts is_empty config_modifiers
parse_modifiers s config_modifier =
    if is (map lower (trim (codes s))) "none"
    then no_modifiers
    else (let m = add_parts no_modifiers (split_parts (codes s)) in
        if is_empty m then config_modifiers (codes config_modifier) else m)

-- A binding before it is made: keysym, modifiers, action.
pub record Bind : Type 0 where
  pub keysym : String
  pub modifiers : String
  pub action : String

abbrev bind : String → String → String → Bind
bind k m a = record { keysym = k; modifiers = m; action = a }

abbrev tag_digits : List (String × String)
tag_digits =
    ("1", "0")
    ∷ ("2", "1")
    ∷ ("3", "2")
    ∷ ("4", "3")
    ∷ ("5", "4")
    ∷ ("6", "5")
    ∷ ("7", "6")
    ∷ ("8", "7")
    ∷ ("9", "8")
    ∷ []

abbrev tag_binds : String → List (String × String) → List Bind
tag_binds shifted [] = []
tag_binds shifted ((key, tag) ∷ rest) =
    bind key "" (join "focus_tag:" tag)
    ∷ bind key shifted (join "send_to_tag:" tag)
    ∷ tag_binds shifted rest

unfoldable pub config_action : Binding → String
config_action b = elim b.arg [
  | none ↦ b.action
  | some arg ↦
      if not (str_eq arg "") && not (any (λ c. c == b':') (codes b.action))
      then join b.action (join ":" arg)
      else b.action
]

unfoldable pub core_binds : String → String → List Bind
core_binds modifier shifted =
    bind "Return" "" "spawn_terminal"
    ∷ bind "d" "" "spawn_launcher"
    ∷ bind "q" "" "close"
    ∷ bind "E" modifier "quit"
    ∷ bind "f" "" "fullscreen"
    ∷ bind "v" "" "fullscreen"
    ∷ bind "v" shifted "float"
    ∷ bind "j" "" "focus_next"
    ∷ bind "k" "" "focus_prev"
    ∷ bind "Tab" "" "focus_next"
    ∷ bind "Tab" shifted "focus_prev"
    ∷ bind "h" "" "focus_prev_output"
    ∷ bind "l" "" "focus_next_output"
    ∷ bind "space" "" "cycle_layout"
    ∷ bind "r" "" "enter_resize_mode"
    ∷ bind "Left" "none" "resize_step_left"
    ∷ bind "Right" "none" "resize_step_right"
    ∷ bind "h" "none" "resize_step_left"
    ∷ bind "l" "none" "resize_step_right"
    ∷ bind "Escape" "none" "exit_resize_mode"
    ∷ []

unfoldable pub default_bindings : Config → List Bind
unfolding core_binds config_action
default_bindings c =
    let shifted = join c.modifier "+shift" in
    core_binds c.modifier shifted
    ++ (tag_binds shifted tag_digits
        ++ map (λ b. bind b.keysym b.modifiers (config_action b)) c.bindings)

parse_modifiers_two :
    parse_modifiers " Shift, logo" "super" ≡ record no_modifiers { shift = true; mod4 = true }
unfolding parse_modifiers
parse_modifiers_two = refl

parse_keysym_mute : parse_keysym "XF86AudioMute" ≡ some 269025042
unfolding parse_keysym
parse_keysym_mute = refl
