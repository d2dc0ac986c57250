-- ===== src/State/Geometry.antt =====
-- src/state.rs: the rectangle arithmetic of floating windows (`clamp_rect_to_area`,
-- `fit_beside_parent`, `place_over_parent`), on `i32` and `u32` as a release build computes it.
use Prim.Native.Nat.{min, max}
use streamwm.Base.{ℕ, ◌-◌, ◌/◌, if◌then◌else◌, ◌==◌, ltb, ◌||◌, Outcome, done, panic, ◌>>=◌}
use streamwm.Base.Int.{ℤ, ltb_ℤ, to_i32, add_i32, sub_i32, half_i32, mul_u32}
use streamwm.State.{Area}

-- `i32::clamp`, which panics if its bounds are crossed.
unfoldable pub clamp_i32 : ℤ → ℤ → ℤ → Outcome ℤ
clamp_i32 x lo hi =
    if ltb_ℤ hi lo then panic else done (if ltb_ℤ x lo then lo else if ltb_ℤ hi x then hi else x)

-- The largest origin at which `size` still fits behind `lo`.
unfoldable pub last_origin : ℤ → ℕ → ℕ → ℤ
unfolding add_i32 to_i32
last_origin lo extent size = add_i32 lo (to_i32 (extent - min size extent))

unfoldable pub clamp_rect_to_area : ℤ → ℤ → ℕ → ℕ → Area → Outcome (ℤ × ℤ)
unfolding clamp_i32 last_origin
clamp_rect_to_area x y width height a =
    if a.width == 0 || a.height == 0 then done (a.x, a.y) else do
      cx ← clamp_i32 x a.x (last_origin a.x a.width width)
      cy ← clamp_i32 y a.y (last_origin a.y a.height height)
      done (cx, cy)

-- One side of `fit_beside_parent`.
unfoldable pub cap_side : ℕ → ℕ → ℕ → ℕ → ℕ
unfolding mul_u32
cap_side requested area lo hi =
    let max_side = if ltb 0 area then mul_u32 area 3 / 5 else requested in
    let out = max (min requested max_side) lo in if ltb 0 hi then min out hi else out

pub record Hints : Type 0 where
  pub min_w : ℕ
  pub min_h : ℕ
  pub max_w : ℕ
  pub max_h : ℕ

unfoldable pub fit_beside_parent : ℕ × ℕ → ℕ × ℕ → Hints → ℕ × ℕ
unfolding cap_side
fit_beside_parent parent req h =
    (cap_side req.0 parent.0 h.min_w h.max_w, cap_side req.1 parent.1 h.min_h h.max_h)

unfoldable pub centred : ℤ → ℕ → ℕ → ℤ
unfolding add_i32 sub_i32 half_i32 to_i32
centred origin extent size =
    sub_i32 (add_i32 origin (half_i32 (to_i32 extent))) (half_i32 (to_i32 size))

unfoldable pub place_over_parent : ℕ → ℕ → Area → Area → Outcome (ℤ × ℤ)
unfolding centred clamp_rect_to_area
place_over_parent child_w child_h parent area =
    clamp_rect_to_area (centred parent.x parent.width child_w)
      (centred parent.y parent.height child_h) child_w child_h area
