-- ===== src/Bindings/Pointer/Drag.antt =====
-- What a drag does to a window (src/bindings.rs): deltas are totals, so only the last one counts, and
-- where a drag that has not moved puts its window.
use streamwm.Base.{
  ℕ, ◌^◌, ◌<◌, ◌≡◌, refl, Option, none, some, List, [], ◌∷◌, ◌≢◌, inl, inr, arith, ap, ◌∙◌,
  Bool-cases, ◌==◌,
}
use streamwm.Base.Int.{
  ℤ, pos, pos_part, neg_part, sub_i32, add_i32_parts, sub_i32_parts, eq_of_parts,
}
use streamwm.Protocol.{ObjectId, Edges}
use streamwm.App.{OpKind, move, resize, PointerOp, AppData, with_state}
use streamwm.State.{Window, update_first, update_window}
use streamwm.Bindings.Pointer.{anchored_op, apply_kind, apply_op, delta_on, apply_pointer_delta}

apply_kind-last :
    (kind : OpKind) (op : PointerOp) (a b x y : ℤ) (w : Window)
    → apply_kind kind op x y (apply_kind kind op a b w) ≡ apply_kind kind op x y w
unfolding apply_kind
apply_kind-last move op a b x y w = refl
apply_kind-last resize op a b x y w = refl

apply_op-id : (op : PointerOp) (a b : ℤ) (w : Window) → (apply_op op a b w).id ≡ w.id
unfolding apply_op apply_kind
apply_op-id op a b w = go op.kind
  where
    go : (kind : OpKind) → (apply_kind kind op a b w).id ≡ w.id
    go move = refl
    go resize = refl

-- Two changes of one window are one, when the second undoes the first.
update_first-last :
    (f g : Window → Window) (id : ℕ)
    → ((w : Window) → ((f w).id == id) ≡ (w.id == id))
    → ((w : Window) → g (f w) ≡ g w)
    → (ws : List Window) → update_first g id (update_first f id ws) ≡ update_first g id ws
unfolding update_first
update_first-last f g id same last [] = refl
update_first-last f g id same last (w ∷ ws) = elim (Bool-cases (w.id == id)) [
  | inl found ↦ rw (found, same w ∙ found) (ap (λ v. v ∷ ws) (last w))
  | inr other ↦ rw (other, other) (ap (λ vs. w ∷ vs) (update_first-last f g id same last ws))
]

apply_op-last :
    (op : PointerOp) (a b x y : ℤ) (w : Window)
    → apply_op op x y (apply_op op a b w) ≡ apply_op op x y w
unfolding apply_op
apply_op-last op a b x y w = apply_kind-last op.kind op a b x y w

delta_on-last :
    (op : Option PointerOp) (d : AppData) (a b x y : ℤ)
    → delta_on op (delta_on op d a b) x y ≡ delta_on op d x y
unfolding delta_on update_window
delta_on-last none d a b x y = refl
delta_on-last (some op) d a b x y =
    ap (λ ws. with_state d (record d.state { windows = ws }))
      (update_first-last _ _ op.window (λ w. ap (λ i. i == op.window) (apply_op-id op a b w))
        (apply_op-last op a b x y) d.state.windows)

delta_on-pointer_op :
    (op : Option PointerOp) (d : AppData) (a b : ℤ) → (delta_on op d a b).pointer_op ≡ d.pointer_op
unfolding delta_on
delta_on-pointer_op none d a b = refl
delta_on-pointer_op (some op) d a b = refl

-- The deltas of a drag do not accumulate: after any two of them the data are those that the last
-- one alone leaves, whatever is dragged and whether it is moved or resized.
pub apply_pointer_delta-last :
    (d : AppData) (a b x y : ℤ)
    → apply_pointer_delta (apply_pointer_delta d a b) x y ≡ apply_pointer_delta d x y
unfolding apply_pointer_delta
apply_pointer_delta-last d a b x y =
    rw (delta_on-pointer_op d.pointer_op d a b) (delta_on-last d.pointer_op d a b x y)

-- A move of a window that begins with the pointer at an x other than 0, and whose total so far is
-- 0, puts the window at another x than before, for a window and a pointer less than 2 ^ 30 from
-- the origin.
pub anchored_op-jumps :
    (wid : ℕ) (edges : Edges) (seat : ObjectId) (x y : ℤ) (w : Window)
    → pos_part x < 2 ^ 30
    → neg_part x < 2 ^ 30
    → pos_part w.float_x < 2 ^ 30
    → neg_part w.float_x < 2 ^ 30
    → x ≢ pos 0
    → (apply_kind move (anchored_op wid move edges seat (x, y) w) (pos 0) (pos 0) w).float_x
      ≢ w.float_x
unfolding apply_kind anchored_op
anchored_op-jumps wid edges seat x y w a b c e away same =
    let shift = sub_i32 (pos 0) x in
    let s = sub_i32_parts (pos 0) x (omega arith) (omega arith) in
    let t = add_i32_parts w.float_x shift (omega (arith, s)) (omega (arith, s)) in
    away (eq_of_parts x (pos 0) (omega (arith, s, t, ap pos_part same, ap neg_part same)))
