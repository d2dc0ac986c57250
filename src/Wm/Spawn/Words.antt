-- ===== src/Wm/Spawn/Words.antt =====
-- The words of a command (src/wm/spawn.rs).
use streamwm.Base.{
  is_empty, append_assoc, ℕ, ◌<◌, ◌≡◌, refl, sym, ap, ◌∙◌, Bool, false, some, List, [], ◌∷◌, ◌++◌,
  any, arith, All, length,
}
use streamwm.Bindings.Keys.{is_space, trim, trim_start, trim_end, cons_trimmed}
use streamwm.Wm.Spawn.{
  Text, shell_syntax_byte, is_ascii_whitespace, flush, split_from, direct_command_args,
}

-- A character that neither ends a word nor calls for a shell.
abbrev pub IsPlain : ℕ → Type 0
IsPlain c = (is_space c ≡ false) × (shell_syntax_byte c ≡ false)

-- A word of such characters, with at least one of them.
abbrev pub IsWord : Text → Type 0
IsWord w = (0 < length w) × All IsPlain w

-- The words with a space between each two.
abbrev pub join_words : List Text → Text
join_words [] = []
join_words (w ∷ []) = w
join_words (w ∷ v ∷ ws) = w ++ 32 ∷ join_words (v ∷ ws)

append_nil : (xs : Text) → xs ++ [] ≡ xs
append_nil [] = refl
append_nil (x ∷ xs) = ap (λ t. x ∷ t) (append_nil xs)

plain_black : (c : ℕ) → is_space c ≡ false → is_ascii_whitespace c ≡ false
unfolding is_ascii_whitespace
plain_black c h = ground arith

split_from-word :
    (begun w rest : Text)
    → All IsPlain w
    → split_from begun (w ++ rest) ≡ split_from (begun ++ w) rest
unfolding split_from
split_from-word begun [] rest h = ap (λ t. split_from t rest) (sym (append_nil begun))
split_from-word begun (c ∷ w) rest h = rw (plain_black c h.0.0) (
    split_from-word (begun ++ c ∷ []) w rest h.1
    ∙ ap (λ t. split_from t rest) (append_assoc begun (c ∷ []) w))

flush-word : (w : Text) (ws : List Text) → 0 < length w → flush w ws ≡ w ∷ ws
flush-word [] ws h = absurd (omega arith)
flush-word (c ∷ w) ws h = refl

split_from-join_words :
    (w : Text) (ws : List Text) → All IsWord (w ∷ ws) → split_from [] (join_words (w ∷ ws)) ≡ w ∷ ws
unfolding split_from is_ascii_whitespace
split_from-join_words w [] h =
    ap (split_from []) (sym (append_nil w))
    ∙ (split_from-word [] w [] h.0.1 ∙ flush-word w [] h.0.0)
split_from-join_words w (v ∷ ws) h =
    split_from-word [] w (32 ∷ join_words (v ∷ ws)) h.0.1
    ∙ (flush-word w _ h.0.0 ∙ ap (λ us. w ∷ us) (split_from-join_words v ws h.1))

cons_trimmed-cons : (c : ℕ) (t : Text) → 0 < length t → cons_trimmed c t ≡ c ∷ t
cons_trimmed-cons c [] h = absurd (omega arith)
cons_trimmed-cons c (d ∷ t) h = refl

length_pos-append : (xs ys : Text) → 0 < length ys → 0 < length (xs ++ ys)
length_pos-append [] ys h = h
length_pos-append (x ∷ xs) ys h = omega arith

trim_end-append : (xs ys : Text) → 0 < length ys → trim_end ys ≡ ys → trim_end (xs ++ ys) ≡ xs ++ ys
trim_end-append [] ys h e = e
trim_end-append (x ∷ xs) ys h e =
    ap (cons_trimmed x) (trim_end-append xs ys h e)
    ∙ cons_trimmed-cons x (xs ++ ys) (length_pos-append xs ys h)

trim_end-word : (w : Text) → All IsPlain w → trim_end w ≡ w
trim_end-word [] h = refl
trim_end-word (c ∷ []) h = rw h.0.0 refl
trim_end-word (c ∷ d ∷ w) h =
    ap (cons_trimmed c) (trim_end-word (d ∷ w) h.1) ∙ cons_trimmed-cons c (d ∷ w) (omega arith)

join_words_pos :
    (w : Text) (ws : List Text) → All IsWord (w ∷ ws) → 0 < length (join_words (w ∷ ws))
join_words_pos w [] h = h.0.0
join_words_pos w (v ∷ ws) h = length_pos-append w (32 ∷ join_words (v ∷ ws)) (omega arith)

trim_end-join_words :
    (w : Text) (ws : List Text)
    → All IsWord (w ∷ ws)
    → trim_end (join_words (w ∷ ws)) ≡ join_words (w ∷ ws)
trim_end-join_words w [] h = trim_end-word w h.0.1
trim_end-join_words w (v ∷ ws) h = trim_end-append w (32 ∷ join_words (v ∷ ws)) (omega arith) (
    ap (cons_trimmed 32) (trim_end-join_words v ws h.1)
    ∙ cons_trimmed-cons 32 (join_words (v ∷ ws)) (join_words_pos v ws h.1))

trim_start-join_words :
    (w : Text) (ws : List Text)
    → All IsWord (w ∷ ws)
    → trim_start (join_words (w ∷ ws)) ≡ join_words (w ∷ ws)
trim_start-join_words [] ws h = absurd (omega (arith, h.0.0))
trim_start-join_words (c ∷ w) [] h = rw h.0.1.0.0 refl
trim_start-join_words (c ∷ w) (v ∷ ws) h = rw h.0.1.0.0 refl

any-append :
    (p : ℕ → Bool) (xs ys : Text) → any p xs ≡ false → any p ys ≡ false → any p (xs ++ ys) ≡ false
any-append p [] ys h k = k
any-append p (x ∷ xs) ys h k = ground (arith, any-append p xs ys)

any-word : (w : Text) → All IsPlain w → any shell_syntax_byte w ≡ false
any-word [] h = refl
any-word (c ∷ w) h = rw h.0.1 (any-word w h.1)

any-join_words :
    (w : Text) (ws : List Text)
    → All IsWord (w ∷ ws)
    → any shell_syntax_byte (join_words (w ∷ ws)) ≡ false
unfolding shell_syntax_byte
any-join_words w [] h = any-word w h.0.1
any-join_words w (v ∷ ws) h =
    any-append shell_syntax_byte w (32 ∷ join_words (v ∷ ws)) (any-word w h.0.1)
      (any-join_words v ws h.1)

is_empty-pos : (t : Text) → 0 < length t → is_empty t ≡ false
is_empty-pos [] h = absurd (omega arith)
is_empty-pos (c ∷ t) h = refl

-- A command line made of one or more words with single spaces between them is split into these
-- words, when each has a character and none of its characters is white space or shell syntax.
pub direct_command_args-join_words :
    (w : Text) (ws : List Text)
    → All IsWord (w ∷ ws)
    → direct_command_args (join_words (w ∷ ws)) ≡ some (w ∷ ws)
unfolding direct_command_args
direct_command_args-join_words w ws h =
    let line = join_words (w ∷ ws) in
    let trimmed : trim line ≡ line =
      ap trim_end (trim_start-join_words w ws h) ∙ trim_end-join_words w ws h in
    rw (trimmed, is_empty-pos line (join_words_pos w ws h), any-join_words w ws h)
      (ap some (split_from-join_words w ws h))
