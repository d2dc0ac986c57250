-- ===== src/Config.antt =====
-- src/config.rs: the configuration, its defaults and its lookups. Reading TOML is the library's.
pub mod Color
use Prim.Native.String.{String}
use text.Mathlib.Text.{◌==◌ as str_eq}
use streamwm.Base.{ℕ, Bool, true, false, Option, List, [], any, get_or_else}
use streamwm.Protocol.{F64}

pub record Binding : Type 0 where
  pub keysym : String
  pub modifiers : String
  pub action : String
  pub arg : Option String

pub record Lid : Type 0 where
  pub enable : Bool
  pub close_profile : String
  pub open_profile : String
  pub undocked_profile : String
  pub internal_output : String

pub record Config : Type 0 where
  pub modifier : String
  pub terminal : String
  pub launcher : String
  pub gap : ℕ
  pub border_width : ℕ
  pub border_color : String
  pub focused_border_color : String
  pub focus_follows_mouse : Bool
  pub use_ssd : Bool
  pub bindings : List Binding
  pub lid : Lid
  pub allow_spawn : Bool
  pub floating_app_ids : List String
  pub master_fraction : F64
  pub resize_step : F64

-- The defaults of the fields: `serde` puts them where a table of the file leaves a field out.
abbrev pub default_mod : String
default_mod = "super"

abbrev pub default_terminal : String
default_terminal = "alacritty"

abbrev pub default_launcher : String
default_launcher = "alacritty"

abbrev pub default_gap : ℕ
default_gap = 8

abbrev pub default_border : ℕ
default_border = 2

abbrev pub default_border_color : String
default_border_color = "4c4c4c"

abbrev pub default_focused_border_color : String
default_focused_border_color = "5294e2"

abbrev pub default_lid_close_profile : String
default_lid_close_profile = "office_clamshell"

abbrev pub default_lid_open_profile : String
default_lid_open_profile = "office"

abbrev pub default_lid_undocked_profile : String
default_lid_undocked_profile = "undocked"

abbrev pub default_lid_internal_output : String
default_lid_internal_output = "eDP-1"

-- What an empty table `[lid]` stands for.
unfoldable pub empty_lid : Lid
empty_lid = record {
  enable = false;
  close_profile = default_lid_close_profile;
  open_profile = default_lid_open_profile;
  undocked_profile = default_lid_undocked_profile;
  internal_output = default_lid_internal_output;
}

-- `Lid::default()`, which is derived: the defaults of its fields play no part in it.
unfoldable pub default_lid : Lid
default_lid = record {
  enable = false;
  close_profile = "";
  open_profile = "";
  undocked_profile = "";
  internal_output = "";
}

-- `Config::default()`. The two fractions, 0.55 and 0.05, are given as doubles.
unfoldable pub default_config : F64 → F64 → Config
unfolding default_lid
default_config master_fraction resize_step = record {
  modifier = default_mod;
  terminal = default_terminal;
  launcher = default_launcher;
  gap = default_gap;
  border_width = default_border;
  border_color = default_border_color;
  focused_border_color = default_focused_border_color;
  focus_follows_mouse = true;
  use_ssd = false;
  bindings = [];
  lid = default_lid;
  allow_spawn = false;
  floating_app_ids = [];
  master_fraction = master_fraction;
  resize_step = resize_step;
}

-- `Config::load`, for the text of the file, if it can be read. `from_str` parses TOML.
unfoldable pub load : (String → Option Config) → F64 → F64 → Option String → Config
unfolding default_config
load from_str master_fraction resize_step text =
    get_or_else (from_str (get_or_else text "")) (default_config master_fraction resize_step)

unfoldable pub num_tags : Config → ℕ
num_tags c = 9

unfoldable pub is_floating_app : Config → String → Bool
is_floating_app c app_id = any (λ id. str_eq id app_id) c.floating_app_ids
