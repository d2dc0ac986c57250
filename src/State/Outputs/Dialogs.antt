-- ===== src/State/Outputs/Dialogs.antt =====
-- Dialogs over their parents (src/state.rs): their size (`fit_beside_parent`) and their place
-- (`place_over_parent`).
use Prim.Native.Nat.{min}
use streamwm.Base.{
  ℕ, true, ◌+◌, ◌*◌, ◌/◌, ◌^◌, ◌<◌, ◌≤◌, ◌≡◌, ◌⊎◌, refl, inl, inr, arith, ◌==◌, ◌||◌, Bool-cases,
  Returns, Returns-bind,
}
use streamwm.Base.Int.{
  ℤ, ltb_ℤ, pos_part, neg_part, pos, FitsI32, half_i32, add_i32, mul_u32, add_i32_parts,
  sub_i32_parts, to_i32-small,
}
use streamwm.State.{Area}
use streamwm.State.Geometry.{
  cap_side, Hints, fit_beside_parent, clamp_i32, last_origin, centred, clamp_rect_to_area,
  place_over_parent,
}
use streamwm.State.Outputs.Clamping.{AreaFits, Inside, last_origin_parts}

-- The parent and the size of the dialog leave room for the centring to be exact on `i32`.
pub record DialogFits (over : Area) (width height : ℕ) : Type 0 where
  pub over_fits : AreaFits over
  pub left : neg_part over.x ≤ 2 ^ 30
  pub top : neg_part over.y ≤ 2 ^ 30
  pub small_width : width < 2 ^ 31
  pub small_height : height < 2 ^ 31

-- In one direction, the position `p` of a dialog of this size over a parent at `origin`: inside of
-- the area, and its centre less than one unit from the parent's, or as close to it as the edge of
-- the area allows. Both sides of the inequations are doubled.
pub record Centred (origin : ℤ) (parent : ℕ) (lo : ℤ) (extent : ℕ) (p : ℤ) (size : ℕ) : Type 0 where
  pub inside : Inside lo extent p size
  pub after :
      2 * pos_part origin + parent + 2 * neg_part p + 2
        ≤ 2 * pos_part p + size + 2 * neg_part origin
      → p ≡ lo
  pub before :
      2 * pos_part p + size + 2 * neg_part origin + 2
        ≤ 2 * pos_part origin + parent + 2 * neg_part p
      → pos_part p + neg_part lo + min size extent ≡ neg_part p + pos_part lo + extent

-- Twice the distance between the centres is at most one, before the clamp.
abbrev Near : ℤ → ℕ → ℤ → ℕ → Type 0
Near origin parent c size =
    (2 * pos_part c + size + 2 * neg_part origin
      ≤ 2 * pos_part origin + parent + 2 * neg_part c + 1)
    × (2 * pos_part origin + parent + 2 * neg_part c
        ≤ 2 * pos_part c + size + 2 * neg_part origin + 1)

centred-Near :
    (origin : ℤ) (parent size : ℕ)
    → FitsI32 origin
    → pos_part origin + parent < 2 ^ 31
    → neg_part origin ≤ 2 ^ 30
    → size < 2 ^ 31
    → Near origin parent (centred origin parent size) size
unfolding centred half_i32
centred-Near origin parent size f far near small =
    rw (to_i32-small parent (omega arith), to_i32-small size small)
      (let sum = add_i32 origin (pos (parent / 2)) in
        let a = add_i32_parts origin (pos (parent / 2)) (omega arith) (omega arith) in
        let b = sub_i32_parts sum (pos (size / 2)) (omega (arith, a)) (omega (arith, a)) in
        (omega (arith, a, b), omega (arith, a, b)))

clamp_i32-Centred :
    (origin : ℤ) (parent : ℕ) (c lo : ℤ) (extent size : ℕ)
    → FitsI32 lo
    → pos_part lo + extent < 2 ^ 31
    → Near origin parent c size
    → Returns
        (clamp_i32 c lo (last_origin lo extent size))
        (λ p. Centred origin parent lo extent p size)
unfolding clamp_i32
clamp_i32-Centred origin parent c lo extent size f h near =
    let hi = last_origin lo extent size in
    let at_hi = last_origin_parts lo extent size f h in
    elim (Bool-cases (ltb_ℤ hi lo)) [
      | inl crossed ↦ absurd (ground (arith, at_hi, crossed))
      | inr ordered ↦ rw ordered (elim (Bool-cases (ltb_ℤ c lo)) [
        | inl below ↦ rw below (record {
          inside = (omega arith, omega arith);
          after = λ _. refl;
          before = λ far. absurd (ground (arith, near, far, below));
        })
        | inr not_below ↦ rw not_below (elim (Bool-cases (ltb_ℤ hi c)) [
          | inl above ↦ rw above (record {
            inside = (omega (arith, at_hi), omega (arith, at_hi));
            after = λ far. absurd (ground (arith, near, far, above));
            before = λ _. omega (arith, at_hi);
          })
          | inr between ↦ rw between (record {
            inside = (ground (arith, not_below), ground (arith, at_hi, between));
            after = λ far. absurd (omega (arith, near, far));
            before = λ far. absurd (omega (arith, near, far));
          })
        ])
      ])
    ]

-- A dialog is placed as close to the centre of its parent as the area allows, in each direction:
-- its centre is at most half a unit from the parent's, unless it stands at the near edge of the
-- area, where the centre of the parent lies before its own, or at the far edge, where it lies
-- behind its own; and it lies in the area, beginning at the area's own edge in a direction in
-- which it is larger than the area. The area is not empty and its edges are coordinates, as are
-- the parent's, the parent begins at most 2 ^ 30 before the origin, and the sides of the dialog
-- are less than 2 ^ 31.
pub place_over_parent-Centred :
    (width height : ℕ) (over area : Area)
    → DialogFits over width height
    → AreaFits area
    → 0 < area.width
    → 0 < area.height
    → Returns (place_over_parent width height over area) (λ p.
      Centred over.x over.width area.x area.width p.0 width
      × Centred over.y over.height area.y area.height p.1 height)
unfolding place_over_parent clamp_rect_to_area
place_over_parent-Centred width height over area d fits wide high =
    elim (Bool-cases (area.width == 0 || area.height == 0)) [
      | inl flat ↦ absurd (empty flat)
      | inr solid ↦ rw solid (
          Returns-bind
            (clamp_i32 (centred over.x over.width width) area.x
              (last_origin area.x area.width width))
            _ (λ p. Centred over.x over.width area.x area.width p width) _
            (clamp_i32-Centred over.x over.width _ area.x area.width width fits.fits_x fits.right (
              centred-Near over.x over.width width d.over_fits.fits_x d.over_fits.right d.left
                d.small_width))
            λ cx at_x.
              Returns-bind
                (clamp_i32 (centred over.y over.height height) area.y
                  (last_origin area.y area.height height))
                _ (λ p. Centred over.y over.height area.y area.height p height) _
                (clamp_i32-Centred over.y over.height _ area.y area.height height fits.fits_y
                  fits.bottom
                  (centred-Near over.y over.height height d.over_fits.fits_y d.over_fits.bottom
                    d.top d.small_height))
                (λ cy at_y. (at_x, at_y)))
    ]
  where
    empty : (area.width == 0 || area.height == 0) ≡ true → ⊥
    empty flat = ground arith

-- One side of a dialog, from its parent's, the one it asks for and its hints: at most three fifths of
-- its parent's, what it asks for or its least hint, and within its hints, unless they cross: then
-- it is the greatest hint. It is what the dialog asks for, unless one of these bounds is reached.
pub record Sized (parent req lo hi side : ℕ) : Type 0 where
  pub beside : 0 < parent → (5 * side ≤ 3 * parent) ⊎ (side ≤ lo)
  pub asked : (side ≤ req) ⊎ (side ≤ lo)
  pub at_most : 0 < hi → side ≤ hi
  pub at_least : (lo ≤ side) ⊎ ((side ≡ hi) × (0 < hi) × (hi < lo))
  pub largest :
      side < req → ((0 < parent) × (3 * parent < 5 * (side + 1))) ⊎ ((side ≡ hi) × (0 < hi))

cap_side-Sized :
    (req parent lo hi : ℕ) → parent < 2 ^ 30 → Sized parent req lo hi (cap_side req parent lo hi)
unfolding cap_side mul_u32
cap_side-Sized req parent lo hi small = record {
  beside = ground arith;
  asked = ground arith;
  at_most = ground arith;
  at_least = ground arith;
  largest = ground arith;
}

-- In each direction, the size that a dialog beside its parent gets is at most three fifths of the
-- parent's or at most its own least hint, where the parent has a size; it is at most the one it
-- asks for or at most its least hint; it is never more than its greatest hint, if it has one, nor
-- less than its least hint, unless the greatest is smaller and it is that one; and it is less
-- than it asks for only where one unit more is over three fifths of the parent's, or where it is
-- the greatest hint. The sides of the parent are less than 2 ^ 30.
pub fit_beside_parent-Sized :
    (parent req : ℕ × ℕ) (h : Hints)
    → parent.0 < 2 ^ 30
    → parent.1 < 2 ^ 30
    → Sized parent.0 req.0 h.min_w h.max_w (fit_beside_parent parent req h).0
      × Sized parent.1 req.1 h.min_h h.max_h (fit_beside_parent parent req h).1
unfolding fit_beside_parent
fit_beside_parent-Sized parent req h wide high = (
  cap_side-Sized req.0 parent.0 h.min_w h.max_w wide,
  cap_side-Sized req.1 parent.1 h.min_h h.max_h high,
)
