-- ===== src/State/Outputs/Clamping.antt =====
-- Floating windows after a repair (src/state.rs): each is clamped to the area of the output it is
-- shown on, and the repair never panics while the areas lie in the range of `i32`.
use Prim.Native.Nat.{min}
use streamwm.Base.{
  ℕ, ◌+◌, ◌-◌, ◌^◌, ◌<◌, ◌≤◌, ◌≡◌, refl, sym, subst, true, Option, none, some, List, [], ◌∷◌, inl,
  inr, arith, map, ◌==◌, ◌||◌, if◌then◌else◌, Bool-cases, done, Returns, Returns-bind, All-get,
  All-map, All-imp, All, get_elem?, get_elem?-map, map_opt, ap, ◌∙◌,
}
use streamwm.Base.Int.{ℤ, pos_part, neg_part, pos, FitsI32, ◌≤ℤ◌, add_i32_parts, to_i32-small}
use streamwm.State.{State, Window, Output, Tag, Area, tag_owner, output_area}
use streamwm.State.Owners.{owner}
use streamwm.State.Geometry.{clamp_i32, last_origin, clamp_rect_to_area}
use streamwm.State.Ranges.{Ranged, WindowsFit, OutputFits, windows-Ranged}
use streamwm.State.Outputs.{
  float_area, clamp_to, clamp_window, clamp_each, clamp_by, clamp_floating_windows,
}

-- The area's far edges are coordinates too.
pub record AreaFits (a : Area) : Type 0 where
  pub fits_x : FitsI32 a.x
  pub fits_y : FitsI32 a.y
  pub right : pos_part a.x + a.width < 2 ^ 31
  pub bottom : pos_part a.y + a.height < 2 ^ 31

-- The origin of a window of this extent, between the edges of an area: at `lo` if it is larger.
abbrev pub Inside : ℤ → ℕ → ℤ → ℕ → Type 0
Inside lo extent p size =
    (lo ≤ℤ p) × (pos_part p + neg_part lo + min size extent ≤ pos_part lo + neg_part p + extent)

pub last_origin_parts :
    (lo : ℤ) (extent size : ℕ)
    → FitsI32 lo
    → pos_part lo + extent < 2 ^ 31
    → pos_part (last_origin lo extent size) + neg_part lo
      ≡ neg_part (last_origin lo extent size) + pos_part lo + (extent - min size extent)
unfolding last_origin
last_origin_parts lo extent size f h =
    let d : ℕ = extent - min size extent in
    rw (to_i32-small d (omega arith))
      (omega (arith, add_i32_parts lo (pos d) (omega arith) (omega arith)))

clamp_i32-Inside :
    (x lo : ℤ) (extent size : ℕ)
    → FitsI32 lo
    → pos_part lo + extent < 2 ^ 31
    → Returns (clamp_i32 x lo (last_origin lo extent size)) (λ p. Inside lo extent p size)
unfolding clamp_i32
clamp_i32-Inside x lo extent size f h = ground (arith, last_origin_parts lo extent size f h)

-- Clamping a rectangle to an area whose edges are coordinates returns a position in the area,
-- from which the rectangle does not reach over the far edges; in a direction in which it is too
-- large, the position is the area's own.
pub clamp_rect_to_area-Inside :
    (x y : ℤ) (width height : ℕ) (a : Area)
    → AreaFits a
    → Returns
        (clamp_rect_to_area x y width height a)
        (λ p. Inside a.x a.width p.0 width × Inside a.y a.height p.1 height)
unfolding clamp_rect_to_area
clamp_rect_to_area-Inside x y width height a f = elim (Bool-cases (a.width == 0 || a.height == 0)) [
  | inl flat ↦ rw flat (omega arith, omega arith)
  | inr solid ↦ rw solid (
      Returns-bind (clamp_i32 x a.x (last_origin a.x a.width width)) _
        (λ p. Inside a.x a.width p width) _ (clamp_i32-Inside x a.x a.width width f.fits_x f.right)
        λ cx in_x.
          Returns-bind (clamp_i32 y a.y (last_origin a.y a.height height)) _
            (λ p. Inside a.y a.height p height) _
            (clamp_i32-Inside y a.y a.height height f.fits_y f.bottom) (λ cy in_y. (in_x, in_y)))
]

-- The index of the output that a window with this tag is shown on: the owner of the tag, for a tag
-- without an owner the focused output, and the first output if none is focused.
pub data ShownOn (tags : List Tag) (focus : Option ℕ) (tag : ℕ) : ℕ → Type 0 where
  on_owner : (i : ℕ) → owner tags tag ≡ some i → ShownOn tags focus tag i
  on_focused : (i : ℕ) → owner tags tag ≡ none → focus ≡ some i → ShownOn tags focus tag i
  on_first : owner tags tag ≡ none → focus ≡ none → ShownOn tags focus tag 0

-- A floating window lies in the area of the output that it is shown on, if that area is not empty.
abbrev pub IsPlaced : State → Window → Type 0
IsPlaced s w =
    w.floating ≡ true
    → (i : ℕ) (o : Output) → ShownOn s.tags s.focused_output w.tag i
    → get_elem? s.outputs i ≡ some o
    → 0 < (output_area o).width
    → 0 < (output_area o).height
    → Inside (output_area o).x (output_area o).width w.float_x w.float_w
      × Inside (output_area o).y (output_area o).height w.float_y w.float_h

-- The same of the area that the code looks up.
abbrev InFloatArea : State → Window → Type 0
InFloatArea s w =
    w.floating ≡ true
    → (a : Area) → float_area s w ≡ some a
    → 0 < a.width
    → 0 < a.height
    → Inside a.x a.width w.float_x w.float_w × Inside a.y a.height w.float_y w.float_h

-- The code looks up the area of the output that the window is shown on.
float_area-ShownOn :
    (s : State) (w : Window) (i : ℕ) (o : Output)
    → ShownOn s.tags s.focused_output w.tag i
    → get_elem? s.outputs i ≡ some o
    → float_area s w ≡ some (output_area o)
unfolding float_area tag_owner
float_area-ShownOn s w _ o (on_owner i owns) e =
    rw owns (get_elem?-map output_area s.outputs i ∙ ap (map_opt output_area) e)
float_area-ShownOn s w _ o (on_focused i free focused) e =
    rw (free, focused) (get_elem?-map output_area s.outputs i ∙ ap (map_opt output_area) e)
float_area-ShownOn s w _ o (on_first free unfocused) e =
    rw (free, unfocused) (get_elem?-map output_area s.outputs 0 ∙ ap (map_opt output_area) e)

InFloatArea-IsPlaced : (s : State) (w : Window) → InFloatArea s w → IsPlaced s w
InFloatArea-IsPlaced s w inside floats i o on e =
    inside floats (output_area o) (float_area-ShownOn s w i o on e)

abbrev pub GeometryFits : State → Type 0
GeometryFits s = All AreaFits (map output_area s.outputs)

-- The areas of a state in range leave room for its floating windows.
pub output_area-AreaFits : (o : Output) → OutputFits o → AreaFits (output_area o)
unfolding output_area
output_area-AreaFits o h = ground arith

pub Ranged-GeometryFits : (s : State) → Ranged s → GeometryFits s
Ranged-GeometryFits s v =
    All-map AreaFits output_area s.outputs (All-imp s.outputs output_area-AreaFits v.shown)

-- What clamping changes of a window: its position alone.
pub record Clamped (s : State) (w w' : Window) : Type 0 where
  pub same_id : w'.id ≡ w.id
  pub same_tag : w'.tag ≡ w.tag
  pub same_floating : w'.floating ≡ w.floating
  pub same_width : w'.float_w ≡ w.float_w
  pub same_height : w'.float_h ≡ w.float_h
  pub is_placed : InFloatArea s w'

module _ (s : State) (fits : GeometryFits s) where
  float_area-AreaFits : (w : Window) (a : Area) → float_area s w ≡ some a → AreaFits a
  unfolding float_area
  float_area-AreaFits w a e = All-get AreaFits (map output_area s.outputs) _ a e fits

  clamp_to-Clamped :
      (r : Option Area) (w : Window) → float_area s w ≡ r → Returns (clamp_to r w) (Clamped s w)
  unfolding clamp_to float_area
  clamp_to-Clamped none w e = record {
    same_id = refl;
    same_tag = refl;
    same_floating = refl;
    same_width = refl;
    same_height = refl;
    is_placed = λ _ a e' _ _. cc;
  }
  clamp_to-Clamped (some a) w e = elim (Bool-cases (a.width == 0 || a.height == 0)) [
    | inl flat ↦ rw flat (record {
      same_id = refl;
      same_tag = refl;
      same_floating = refl;
      same_width = refl;
      same_height = refl;
      is_placed = λ _ a' e' hw hh. absurd (empty a' e' hw hh flat);
    })
    | inr solid ↦ rw solid (
        Returns-bind (clamp_rect_to_area w.float_x w.float_y w.float_w w.float_h a) _
          (λ p. Inside a.x a.width p.0 w.float_w × Inside a.y a.height p.1 w.float_h) _
          (clamp_rect_to_area-Inside w.float_x w.float_y w.float_w w.float_h a
            (float_area-AreaFits w a e))
          λ p inside. record {
            same_id = refl;
            same_tag = refl;
            same_floating = refl;
            same_width = refl;
            same_height = refl;
            is_placed = λ _ a' e' _ _.
                let same : a ≡ a' = cc in
                subst
                  (λ (b : Area).
                    Inside b.x b.width p.0 w.float_w × Inside b.y b.height p.1 w.float_h)
                  same inside;
          })
  ]
    where
      empty :
          (a' : Area)
          → float_area s w ≡ some a'
          → 0 < a'.width
          → 0 < a'.height
          → (a.width == 0 || a.height == 0) ≡ true
          → ⊥
      empty a' e' hw hh flat = ground arith

  clamp_window-Clamped : (w : Window) → Returns (clamp_window s w) (Clamped s w)
  unfolding clamp_window
  clamp_window-Clamped w = elim (Bool-cases w.floating) [
    | inl floats ↦
        subst (λ b. Returns (if b then clamp_to (float_area s w) w else done w) (Clamped s w))
          (sym floats) (clamp_to-Clamped (float_area s w) w refl)
    | inr tiled ↦
        subst (λ b. Returns (if b then clamp_to (float_area s w) w else done w) (Clamped s w))
          (sym tiled)
          (record {
            same_id = refl;
            same_tag = refl;
            same_floating = refl;
            same_width = refl;
            same_height = refl;
            is_placed = λ floats _ _ _ _. cc;
          })
  ]

  pub clamp_each-All :
      (ws : List Window)
      → WindowsFit ws
      → Returns (clamp_each s ws) (λ out. WindowsFit out × All (IsPlaced s) out)
  unfolding clamp_each
  clamp_each-All [] h = (tt, tt)
  clamp_each-All (w ∷ ws) h =
      Returns-bind (clamp_window s w) _ (Clamped s w) _ (clamp_window-Clamped w) λ w' c.
        Returns-bind (clamp_each s ws) _ _ _ (clamp_each-All ws h.1) λ ws' (fit, placed).
          ((rw c.same_tag h.0, fit), (InFloatArea-IsPlaced s w' c.is_placed, placed))

-- Clamping the windows of the first state leads to the second.
abbrev pub IsClamped : State → State → Type 0
IsClamped s s' =
    Ranged s' × All (IsPlaced s') s'.windows × (s'.tags ≡ s.tags) × (s'.outputs ≡ s.outputs)

clamp_by-IsPlaced :
    (os : List Output) (s : State)
    → s.outputs ≡ os
    → Ranged s
    → GeometryFits s
    → Returns (clamp_by os s) (IsClamped s)
unfolding clamp_by
clamp_by-IsPlaced [] s e v f = (v, no_areas s.windows, refl, refl)
  where
    no_output : (i : ℕ) (o : Output) → get_elem? s.outputs i ≡ some o → ⊥
    no_output i o found =
        let none_there : none ≡ some o = subst (λ xs. get_elem? xs i ≡ some o) e found in cc

    no_areas : (ws : List Window) → All (IsPlaced s) ws
    no_areas [] = tt
    no_areas (w ∷ ws) = ((λ _ i o _ found _ _. absurd (no_output i o found)), no_areas ws)
clamp_by-IsPlaced (o ∷ os) s e v f =
    Returns-bind (clamp_each s s.windows) _ _ _ (clamp_each-All s f s.windows v.placed)
      λ ws (fit, placed). (windows-Ranged s ws fit v, placed, refl, refl)

-- Clamping returns, and leaves every floating window in the area of the output it is shown on, and
-- the tags and the outputs as they were.
pub clamp_floating_windows-IsPlaced :
    (s : State) → Ranged s → Returns (clamp_floating_windows s) (IsClamped s)
unfolding clamp_floating_windows
clamp_floating_windows-IsPlaced s v = clamp_by-IsPlaced s.outputs s refl v (Ranged-GeometryFits s v)
