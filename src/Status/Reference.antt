-- ===== src/Status/Reference.antt =====
-- The status snapshot (src/status.rs, `build_snapshot`), against what each output is to show.
use Prim.Native.Nat.{bit_or}
use Prim.Native.String.{String}
use streamwm.Base.{
  ℕ, zero, suc, ◌+◌, ◌≡◌, refl, ap, ◌∙◌, Bool, true, false, get_elem?-modify, Option, none, some,
  List, [], ◌∷◌, ◌++◌, map, arith, length, get_elem?, modify, retain, same_opt, length-modify,
  append_assoc, if◌then◌else◌,
}
use streamwm.State.{State, Window, Output, Tag, num_tags, active_output, tag_owner}
use streamwm.State.Outputs.{tag_bit, occupied_from, occupied_mask}
use streamwm.Status.Snapshot.{
  OutputSnap, WindowSnap, output_name, tag_snaps, empty_snap, empty_snaps, window_snap, add_owned,
  mark_owned, add_window, mark_windows, build_snapshot,
}

-- A window on a tag of the output.
abbrev pub is_on : State → ℕ → Window → Bool
is_on s i w = same_opt (tag_owner s w.tag) (some i)

-- The bits of the tags that the output owns, from the `t`-th tag on.
unfoldable pub owned_from : ℕ → ℕ → ℕ → List Tag → ℕ
unfolding tag_bit
owned_from i acc t [] = acc
owned_from i acc t (tag ∷ tags) =
    owned_from i (if same_opt tag.output (some i) then bit_or acc (tag_bit t) else acc) (suc t) tags

-- What is to be shown of an output: its own tags, and the windows on them.
unfoldable pub output_snap : (ℕ → String) → State → ℕ → Output → OutputSnap
unfolding output_name tag_snaps owned_from occupied_mask
output_snap unnamed s i o = record {
  name = output_name unnamed i o;
  focused = same_opt (some i) (active_output s);
  active_mask = tag_bit o.active_tag;
  owned_mask = owned_from i 0 0 s.tags;
  occupied_mask = occupied_mask (retain (is_on s i) s.windows);
  tags = tag_snaps s num_tags 0;
  windows = map window_snap (retain (is_on s i) s.windows);
  focused_window = o.focused_window;
}

get_elem?-empty_snaps :
    (unnamed : ℕ → String) (s : State) (k i : ℕ) (os : List Output) (o : Output)
    → get_elem? os i ≡ some o
    → get_elem? (empty_snaps unnamed s k os) i ≡ some (empty_snap unnamed s (k + i) o)
unfolding empty_snaps
get_elem?-empty_snaps unnamed s k i [] o e = cc
get_elem?-empty_snaps unnamed s k zero (x ∷ os) o e =
    let first : k ≡ k + 0 = omega arith in
    let same : x ≡ o = cc in
    ap some (ap (empty_snap unnamed s k) same ∙ ap (λ n. empty_snap unnamed s n o) first)
get_elem?-empty_snaps unnamed s k (suc i) (x ∷ os) o e =
    let next : suc k + i ≡ k + suc i = omega arith in
    get_elem?-empty_snaps unnamed s (suc k) i os o e
    ∙ ap (λ n. some (empty_snap unnamed s n o)) next

-- What a pass adds to the output of one owner.
get_elem?-add :
    (owner : Option ℕ) (f : OutputSnap → OutputSnap) (os : List OutputSnap) (i : ℕ) (x : OutputSnap)
    → get_elem? os i ≡ some x
    → get_elem? (elim owner [ none ↦ os | some j ↦ modify os j f ]) i
      ≡ some (if same_opt owner (some i) then f x else x)
get_elem?-add none f os i x e = e
get_elem?-add (some j) f os i x e = get_elem?-modify os j i f x e

module _ (i : ℕ) where
  owned_one :
      (b : Bool) (t : ℕ) (tags : List Tag) (x : OutputSnap)
      → let x' = if b then add_owned t x else x in
        record x' { owned_mask = owned_from i x'.owned_mask (suc t) tags } ≡ record x {
          owned_mask =
              owned_from i
                (if b then bit_or x.owned_mask (tag_bit t) else x.owned_mask)
                (suc t)
                tags;
        }
  unfolding add_owned
  owned_one true t tags x = refl
  owned_one false t tags x = refl

  -- The pass over the tags adds to each output its own.
  get_elem?-mark_owned :
      (t : ℕ) (tags : List Tag) (os : List OutputSnap) (x : OutputSnap)
      → get_elem? os i ≡ some x
      → get_elem? (mark_owned t tags os) i
        ≡ some (record x { owned_mask = owned_from i x.owned_mask t tags })
  unfolding mark_owned owned_from
  get_elem?-mark_owned t [] os x e = e
  get_elem?-mark_owned t (tag ∷ tags) os x e =
      get_elem?-mark_owned (suc t) tags _ _ (get_elem?-add tag.output (add_owned t) os i x e)
      ∙ ap some (owned_one (same_opt tag.output (some i)) t tags x)

  -- The windows that are added to an output.
  abbrev with_windows : List Window → OutputSnap → OutputSnap
  with_windows ws x = record x {
    occupied_mask = occupied_from x.occupied_mask ws;
    windows = x.windows ++ map window_snap ws;
  }

  windows_one :
      (b : Bool) (w : Window) (ws : List Window) (x : OutputSnap)
      → with_windows ws (if b then add_window w x else x)
        ≡ with_windows (if b then w ∷ ws else ws) x
  unfolding add_window occupied_from
  windows_one true w ws x =
      ap
        (λ l. record x {
          occupied_mask = occupied_from (bit_or x.occupied_mask (tag_bit w.tag)) ws;
          windows = l;
        })
        (append_assoc x.windows (window_snap w ∷ []) (map window_snap ws))
  windows_one false w ws x = refl

  append_nil : (l : List WindowSnap) → l ≡ l ++ []
  append_nil [] = refl
  append_nil (w ∷ l) = ap (λ m. w ∷ m) (append_nil l)

  no_windows : (x : OutputSnap) → x ≡ with_windows [] x
  unfolding occupied_from
  no_windows x = ap (λ l. record x { windows = l }) (append_nil x.windows)

  -- The pass over the windows adds to each output those on its tags.
  get_elem?-mark_windows :
      (s : State) (ws : List Window) (os : List OutputSnap) (x : OutputSnap)
      → get_elem? os i ≡ some x
      → get_elem? (mark_windows s ws os) i ≡ some (with_windows (retain (is_on s i) ws) x)
  unfolding mark_windows
  get_elem?-mark_windows s [] os x e = e ∙ ap some (no_windows x)
  get_elem?-mark_windows s (w ∷ ws) os x e =
      get_elem?-mark_windows s ws _ _ (get_elem?-add (tag_owner s w.tag) (add_window w) os i x e)
      ∙ ap some (windows_one (is_on s i w) w (retain (is_on s i) ws) x)

length-empty_snaps :
    (unnamed : ℕ → String) (s : State) (k : ℕ) (os : List Output)
    → length (empty_snaps unnamed s k os) ≡ length os
unfolding empty_snaps
length-empty_snaps unnamed s k [] = refl
length-empty_snaps unnamed s k (o ∷ os) = ap suc (length-empty_snaps unnamed s (suc k) os)

length-add :
    (owner : Option ℕ) (f : OutputSnap → OutputSnap) (os : List OutputSnap)
    → length (elim owner [ none ↦ os | some j ↦ modify os j f ]) ≡ length os
length-add none f os = refl
length-add (some j) f os = length-modify os j f

length-mark_owned :
    (t : ℕ) (tags : List Tag) (os : List OutputSnap) → length (mark_owned t tags os) ≡ length os
unfolding mark_owned
length-mark_owned t [] os = refl
length-mark_owned t (tag ∷ tags) os =
    length-mark_owned (suc t) tags _ ∙ length-add tag.output (add_owned t) os

length-mark_windows :
    (s : State) (ws : List Window) (os : List OutputSnap)
    → length (mark_windows s ws os) ≡ length os
unfolding mark_windows
length-mark_windows s [] os = refl
length-mark_windows s (w ∷ ws) os =
    length-mark_windows s ws _ ∙ length-add (tag_owner s w.tag) (add_window w) os

-- The snapshot of the status has one entry for each output, and that of an output shows, in one
-- pass over the tags and one over the windows, what the output is described by: its name, whether
-- it is the active one, its active tag, the tags that it owns, and the windows on these tags, in
-- order, with their tags.
pub build_snapshot-output_snap :
    (unnamed : ℕ → String) (s : State) (i : ℕ) (o : Output)
    → get_elem? s.outputs i ≡ some o
    → (get_elem? (build_snapshot unnamed s).outputs i ≡ some (output_snap unnamed s i o))
      × (length (build_snapshot unnamed s).outputs ≡ length s.outputs)
unfolding build_snapshot output_snap empty_snap occupied_mask
build_snapshot-output_snap unnamed s i o e =
    let first : 0 + i ≡ i = omega arith in
    let empty =
      get_elem?-empty_snaps unnamed s 0 i s.outputs o e
      ∙ ap (λ n. some (empty_snap unnamed s n o)) first in
    (
      get_elem?-mark_windows i s s.windows _ _ (get_elem?-mark_owned i 0 s.tags _ _ empty),
      length-mark_windows s s.windows _
          ∙ length-mark_owned 0 s.tags _
          ∙ length-empty_snaps unnamed s 0 s.outputs,
    )
