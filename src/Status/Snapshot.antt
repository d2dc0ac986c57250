-- ===== src/Status/Snapshot.antt =====
-- src/status.rs: `build_snapshot`.
use Prim.Native.Nat.{bit_or}
use Prim.Native.String.{String}
use streamwm.Base.{
  ℕ, zero, suc, Bool, Option, none, some, List, [], ◌∷◌, ◌++◌, same_opt, and_then, map_opt,
  get_or_else, get_elem?, modify,
}
use streamwm.State.{State, Window, Output, Tag, num_tags, active_output, tag_owner}
use streamwm.State.Outputs.{tag_bit}

pub record TagSnap : Type 0 where
  pub id : ℕ
  pub label : Option String

pub record WindowSnap : Type 0 where
  pub id : ℕ
  pub app_id : Option String
  pub title : Option String
  pub tag : ℕ

pub record OutputSnap : Type 0 where
  pub name : String
  pub focused : Bool
  pub active_mask : ℕ
  pub owned_mask : ℕ
  pub occupied_mask : ℕ
  pub tags : List TagSnap
  pub windows : List WindowSnap
  pub focused_window : Option ℕ

pub record StatusSnapshot : Type 0 where
  pub focused_output : Option String
  pub resize_mode : Bool
  pub outputs : List OutputSnap

unfoldable pub tag_snap : State → ℕ → TagSnap
tag_snap s t = record { id = t; label = and_then (get_elem? s.tags t) (λ tag. tag.label) }

-- The tags from `t` on, with the number of them left.
unfoldable pub tag_snaps : State → ℕ → ℕ → List TagSnap
unfolding tag_snap
tag_snaps s zero t = []
tag_snaps s (suc left) t = tag_snap s t ∷ tag_snaps s left (suc t)

-- `format!("output-{i}")` is the parameter `unnamed`: how Rust prints a number.
module _ (unnamed : ℕ → String) where
  unfoldable pub output_name : ℕ → Output → String
  output_name i o = get_or_else o.name (unnamed i)

  unfoldable pub empty_snap : State → ℕ → Output → OutputSnap
  unfolding output_name tag_snaps active_output tag_bit
  empty_snap s i o = record {
    name = output_name i o;
    focused = same_opt (some i) (active_output s);
    active_mask = tag_bit o.active_tag;
    owned_mask = 0;
    occupied_mask = 0;
    tags = tag_snaps s num_tags 0;
    windows = [];
    focused_window = o.focused_window;
  }

  unfoldable pub empty_snaps : State → ℕ → List Output → List OutputSnap
  unfolding empty_snap
  empty_snaps s i [] = []
  empty_snaps s i (o ∷ os) = empty_snap s i o ∷ empty_snaps s (suc i) os

  unfoldable pub focused_name : State → Option String
  unfolding output_name active_output
  focused_name s = and_then (active_output s) λ i. map_opt (output_name i) (get_elem? s.outputs i)

unfoldable pub add_owned : ℕ → OutputSnap → OutputSnap
unfolding tag_bit
add_owned t o = record o { owned_mask = bit_or o.owned_mask (tag_bit t) }

-- The pass over the tags, from the `t`-th on. An owner out of range is passed over.
unfoldable pub mark_owned : ℕ → List Tag → List OutputSnap → List OutputSnap
unfolding add_owned
mark_owned t [] os = os
mark_owned t (tag ∷ tags) os =
    mark_owned (suc t) tags
      (elim tag.output [ none ↦ os | some owner ↦ modify os owner (add_owned t) ])

abbrev pub window_snap : Window → WindowSnap
window_snap w = record { id = w.id; app_id = w.app_id; title = w.title; tag = w.tag }

unfoldable pub add_window : Window → OutputSnap → OutputSnap
unfolding tag_bit
add_window w o = record o {
  occupied_mask = bit_or o.occupied_mask (tag_bit w.tag);
  windows = o.windows ++ window_snap w ∷ [];
}

-- The pass over the windows.
unfoldable pub mark_windows : State → List Window → List OutputSnap → List OutputSnap
unfolding tag_owner add_window
mark_windows s [] os = os
mark_windows s (w ∷ ws) os =
    mark_windows s ws
      (elim (tag_owner s w.tag) [ none ↦ os | some owner ↦ modify os owner (add_window w) ])

unfoldable pub build_snapshot : (ℕ → String) → State → StatusSnapshot
unfolding empty_snaps focused_name mark_owned mark_windows
build_snapshot unnamed s = record {
  focused_output = focused_name unnamed s;
  resize_mode = s.resize_mode;
  outputs = mark_windows s s.windows (mark_owned 0 s.tags (empty_snaps unnamed s 0 s.outputs));
}
