-- ===== src/Config/Color.antt =====
-- src/config.rs: `Config::color`.
use Prim.Native.Char.{code}
use Prim.Native.String.{String}
use streamwm.Base.{
  ℕ, ◌+◌, ◌-◌, ◌*◌, ◌/◌, ◌%◌, ◌^◌, ◌≡◌, refl, Option, none, some, List, [], ◌∷◌, if◌then◌else◌,
  ◌==◌, ◌&&◌, ltb, leb, get_or_else,
}

pub record Color : Type 0 where
  pub red : ℕ
  pub green : ℕ
  pub blue : ℕ

abbrev codes : String → List ℕ
codes String.[] = []
codes (String.◌∷◌ c s) = code c ∷ codes s

unfoldable pub hex_digit : ℕ → Option ℕ
hex_digit c =
    if leb b'0' c && leb c b'9'
    then some (c - b'0')
    else if leb b'a' c && leb c b'f'
    then some (c - b'a' + 10)
    else if leb b'A' c && leb c b'F'
    then some (c - b'A' + 10)
    else none

-- The digits of `u32::from_str_radix(_, 16)`, which fails on an overflow.
unfoldable pub parse_hex : ℕ → List ℕ → Option ℕ
unfolding hex_digit
parse_hex acc [] = some acc
parse_hex acc (c ∷ cs) = elim (hex_digit c) [
  | none ↦ none
  | some d ↦
      let rest = parse_hex (acc * 16 + d) cs in if ltb (acc * 16 + d) (2 ^ 32) then rest else none
]

abbrev unsigned : List ℕ → List ℕ
unsigned [] = []
unsigned (c ∷ cs) = if c == b'+' then cs else c ∷ cs

abbrev hex_of : List ℕ → Option ℕ
hex_of [] = none
hex_of (c ∷ cs) = parse_hex 0 (c ∷ cs)

abbrev trim_hash : List ℕ → List ℕ
trim_hash [] = []
trim_hash (c ∷ cs) = if c == b'#' then trim_hash cs else c ∷ cs

-- The three low bytes of the number, and black for a text that is none.
unfoldable pub color : String → Color
unfolding parse_hex
color hex =
    let v = get_or_else (hex_of (unsigned (trim_hash (codes hex)))) 0 in
    record { red = v / 2 ^ 16 % 256; green = v / 2 ^ 8 % 256; blue = v % 256 }

color_hash : color "#5294e2" ≡ record { red = 0x52; green = 0x94; blue = 0xe2 }
unfolding color
color_hash = refl

color_invalid : color "not-hex" ≡ record { red = 0; green = 0; blue = 0 }
unfolding color
color_invalid = refl
