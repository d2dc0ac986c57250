-- ===== src/Samples.antt =====
-- Two screens with three windows and a drag, and the theorems applied to them.
mod Handlers
mod Outputs
mod Parts
mod Rounds
mod Services
mod LidSwitch
use streamwm.Base.{
  ℕ, zero, suc, inl, ◌+◌, ◌*◌, ◌/◌, refl, true, false, Option, none, some, List, length, [], ◌∷◌,
  arith, Returns,
}
use streamwm.Base.Int.{pos}
use streamwm.Protocol.{FloatOps, Edges, Request, ObjectId}
use streamwm.Config.{Config, default_config}
use streamwm.State.{State, Output, Tag, Area, new_window, new_output, new_state}
use streamwm.State.Ranges.{Ranged}
use streamwm.State.Owners.{Settled}
use streamwm.State.Invariant.{WellFormed}
use streamwm.State.Outputs.Clamping.{Inside, AreaFits}
use streamwm.Wm.Layout.{Stack, stack_tiles}
use streamwm.Wm.Rows.{Rows, stack_tiles-Rows}
use streamwm.App.{AppData, move, new_app}
use streamwm.App.Safe.{Safe}
use streamwm.Bindings.Action.{run_action}
use streamwm.Bindings.Safety.{run_action-Safe}
use streamwm.Loop.{Globals}

-- Numbers stand for fractions in hundredths.
abbrev pub hundredths : FloatOps
hundredths = record {
  one_tenth = 10;
  nine_tenths = 90;
  clamp = λ x lo hi. x;
  add = λ x y. x + y;
  neg = λ x. x;
  mul = λ x y. x * y / 100;
  of_u32 = λ n. n;
  as_i32 = pos;
}

abbrev pub left_screen : Output
left_screen = record (new_output 10) { width = 1920; height = 1080; focused_window = some 1 }

abbrev pub right_screen : Output
right_screen = record (new_output 11) { x = pos 1920; width = 1280; height = 1024; active_tag = 1 }

abbrev pub tag_of : Option ℕ → Tag
tag_of o = record { output = o; label = none; master_fraction = 50 }

abbrev pub two_screens : State
two_screens = record (new_state 50) {
  outputs = left_screen ∷ right_screen ∷ [];
  windows =
      new_window 21 1 0
      ∷ record (new_window 22 2 0) {
        floating = true;
        float_x = pos 3000;
        float_w = 300;
        float_h = 200;
      }
      ∷ new_window 23 3 1
      ∷ [];
  tags =
      tag_of (some 0)
      ∷ tag_of (some 1)
      ∷ tag_of none
      ∷ tag_of none
      ∷ tag_of none
      ∷ tag_of none
      ∷ tag_of none
      ∷ tag_of none
      ∷ tag_of none
      ∷ [];
  focused_output = some 0;
}

pub two_screens-Ranged : Ranged two_screens
unfolding new_state new_window new_output
two_screens-Ranged = record {
  tag_count = refl;
  owned = omega arith;
  focus = omega arith;
  shown = omega arith;
  placed = omega arith;
}

pub two_screens-WellFormed : WellFormed two_screens
unfolding new_state new_window new_output
two_screens-WellFormed = record { ranged = two_screens-Ranged; settled = settled }
  where
    settled : (j : ℕ) → Settled two_screens j
    settled zero = inl refl
    settled (suc zero) = inl refl
    settled (suc (suc j)) = tt

abbrev pub config : Config
config = default_config 50 5

abbrev pub no_edges_held : Edges
no_edges_held = record { top = false; bottom = false; left = false; right = false }

abbrev pub dragging : AppData
dragging = record (new_app two_screens config hundredths (λ rs. 0)) {
  qh = true;
  pointer_op = some (record {
    window = 2;
    kind = move;
    start_x = pos 100;
    start_y = pos 100;
    start_float_x = pos 3000;
    start_float_y = pos 0;
    start_w = 300;
    start_h = 200;
    edges = no_edges_held;
    seat = 30;
  });
}

pub dragging-Safe : Safe dragging
unfolding new_app
dragging-Safe = (two_screens-WellFormed, refl)

run_action-Safe_example : Returns (run_action dragging "focus_tag:2") Safe
run_action-Safe_example = run_action-Safe dragging "focus_tag:2" dragging-Safe

abbrev pub screen_area : Area
screen_area = record { x = pos 1920; y = pos 0; width = 1280; height = 1024 }

pub screen_area-AreaFits : AreaFits screen_area
screen_area-AreaFits = record {
  fits_x = omega arith;
  fits_y = omega arith;
  right = omega arith;
  bottom = omega arith;
}

abbrev pub globals : Globals
globals = record { wm = 1; xkb = some 2; cursor_shape = none; layer_shell = some 3 }

abbrev pub fresh : List Request → ObjectId
fresh rs = 100 + length rs

abbrev right_stack : Stack
right_stack = record {
  left = pos 648;
  top = pos 8;
  width = 600;
  tile = 349;
  gap = pos 8;
  bottom = pos 1072;
}

stack_tiles-Rows_example : Rows 8 (pos 1072) (pos 8) (stack_tiles right_stack 0 (1 ∷ 2 ∷ 3 ∷ []))
stack_tiles-Rows_example =
    stack_tiles-Rows right_stack 8 (1 ∷ 2 ∷ 3 ∷ []) refl (omega arith) (omega arith) (omega arith)
      (omega arith) (omega arith) (omega arith) (omega arith)
