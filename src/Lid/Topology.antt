-- ===== src/Lid/Topology.antt =====
-- src/lid.rs: which outputs are connected, read from the entries of `/sys/class/drm`.
use Prim.Native.Char.{code}
use Prim.Native.String.{String}
use text.Mathlib.Text.{◌==◌ as str_eq}
use streamwm.Base.{
  Bool, true, false, Option, none, some, List, [], ◌∷◌, if◌then◌else◌, ◌==◌, is_some_and,
}
use streamwm.Status.Client.{trim}

-- An entry: its name, if that is UTF-8, and the text of its file `status`, if that can be read.
pub record Entry : Type 0 where
  pub file_name : Option String
  pub status : Option String

pub record DisplayTopology : Type 0 where
  pub internal_connected : Bool
  pub external_connected : Bool

abbrev pub nothing_connected : DisplayTopology
nothing_connected = record { internal_connected = false; external_connected = false }

-- `split_once('-')`: what comes after the first dash.
unfoldable pub drm_output_name : String → Option String
drm_output_name String.[] = none
drm_output_name (String.◌∷◌ c s) =
    let later = drm_output_name s in if code c == b'-' then some s else later

unfoldable pub connector_is_connected : Entry → Bool
connector_is_connected e = is_some_and e.status (λ status. str_eq (trim status) "connected")

-- The output that the entry is for, as it is named.
unfoldable pub output_name : Entry → Option String
unfolding drm_output_name
output_name e = elim e.file_name [ none ↦ none | some name ↦ drm_output_name name ]

-- What a connected output adds.
unfoldable pub connect : String → DisplayTopology → String → DisplayTopology
connect internal_output t name =
    if str_eq name internal_output
    then record { internal_connected = true; external_connected = t.external_connected }
    else record { internal_connected = t.internal_connected; external_connected = true }

-- One round of the loop over the entries.
unfoldable pub add_entry : String → DisplayTopology → Entry → DisplayTopology
unfolding output_name connector_is_connected connect
add_entry internal_output t e = elim (output_name e) [
  | none ↦ t
  | some name ↦ if connector_is_connected e then connect internal_output t name else t
]

unfoldable pub add_entries : String → DisplayTopology → List Entry → DisplayTopology
unfolding add_entry
add_entries internal_output t [] = t
add_entries internal_output t (e ∷ entries) =
    add_entries internal_output (add_entry internal_output t e) entries

-- `none` when the directory cannot be read.
unfoldable pub display_topology : String → Option (List Entry) → DisplayTopology
unfolding add_entries
display_topology internal_output none = nothing_connected
display_topology internal_output (some entries) =
    add_entries internal_output nothing_connected entries
