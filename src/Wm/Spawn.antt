-- ===== src/Wm/Spawn.antt =====
-- src/wm/spawn.rs: how a command is started, directly or by the shell. A text is the list of its
-- code points; all the bytes that are tested for are ASCII.
pub mod Words
use streamwm.Base.{
  is_empty, ℕ, Bool, Option, none, some, List, [], ◌∷◌, ◌++◌, if◌then◌else◌, ◌==◌, ◌||◌, any,
}
use streamwm.Bindings.Keys.{trim}

abbrev pub Text : Type 0
Text = List ℕ

unfoldable pub shell_syntax_byte : ℕ → Bool
shell_syntax_byte byte =
    any (λ b. byte == b)
      (b'\'' ∷ b'"' ∷ b'\\' ∷ b'|' ∷ b'&' ∷ b';' ∷ b'<' ∷ b'>' ∷ b'(' ∷ b')' ∷ b'$' ∷ b'`' ∷ b'*'
        ∷ b'?' ∷ b'~' ∷ b'{' ∷ b'}' ∷ b'[' ∷ b']' ∷ b'=' ∷ b'\n' ∷ b'\r' ∷ [])

-- `u8::is_ascii_whitespace`
unfoldable pub is_ascii_whitespace : ℕ → Bool
is_ascii_whitespace c = c == 32 || (c == 9 || (c == 10 || (c == 12 || c == 13)))

-- A word that is over, unless it is empty.
abbrev pub flush : Text → List Text → List Text
flush [] words = words
flush (c ∷ cs) words = (c ∷ cs) ∷ words

-- `split_ascii_whitespace`, with the word begun so far.
unfoldable pub split_from : Text → Text → List Text
unfolding is_ascii_whitespace
split_from word [] = flush word []
split_from word (c ∷ cs) =
    let ended = split_from [] cs in
    let longer = split_from (word ++ c ∷ []) cs in
    if is_ascii_whitespace c then flush word ended else longer

unfoldable pub direct_command_args : Text → Option (List Text)
unfolding split_from shell_syntax_byte
direct_command_args command =
    if is_empty (trim command) || any shell_syntax_byte (trim command)
    then none
    else some (split_from [] (trim command))

-- What `spawn` runs: the words of the command, or the shell on all of it. `shell` is `$SHELL`.
unfoldable pub spawn_args : Text → Text → List Text
unfolding direct_command_args
spawn_args shell command = elim (direct_command_args command) [
  | some args ↦ args
  | none ↦ shell ∷ (b'-' ∷ b'c' ∷ []) ∷ command ∷ []
]

-- `spawn_command`: the program and its arguments, or the error on an empty command.
unfoldable pub spawn_command : List Text → Option (Text × List Text)
spawn_command [] = none
spawn_command (program ∷ rest) = some (program, rest)
