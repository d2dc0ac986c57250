-- ===== src/State/Ranges.antt =====
-- A window manager state in range (src/state.rs): nine tags, owners and the focused output in range, tags of outputs and windows in range, and the
-- geometry of the outputs in a range where sums of two do not wrap.
use streamwm.Base.{
  ℕ, ◌^◌, ◌<◌, ◌≤◌, ◌≡◌, refl, sym, Option, none, some, List, [], ◌∷◌, arith, length, get_elem?,
  modify, All, All-get, All-modify, length-modify, subst,
}
use streamwm.Base.Int.{ℤ, pos_part, neg_part}
use streamwm.State.{
  State, Seat, Window, Output, Tag, num_tags, tag_owner, own_tag, update_first, update_window,
}

-- The index, if there is one, is below `n`.
abbrev pub Below : ℕ → Option ℕ → Type 0
Below n none = Unit
Below n (some i) = i < n

abbrev pub TagsFit : ℕ → List Tag → Type 0
TagsFit n tags = All (λ t. Below n t.output) tags

-- A coordinate and an extent that leave room for one sum on 32 bits.
abbrev pub Coordinate : ℤ → Type 0
Coordinate z = (pos_part z ≤ 2 ^ 30) × (neg_part z ≤ 2 ^ 30)

abbrev pub Extent : ℕ → Type 0
Extent n = n < 2 ^ 30

abbrev pub OutputFits : Output → Type 0
OutputFits o =
    (o.active_tag < num_tags)
    × (Coordinate o.x × Coordinate o.y × Extent o.width × Extent o.height)
    × (Coordinate o.usable_x
        × Coordinate o.usable_y
        × Extent o.usable_width
        × Extent o.usable_height)

abbrev pub OutputsFit : List Output → Type 0
OutputsFit os = All OutputFits os

abbrev pub WindowsFit : List Window → Type 0
WindowsFit ws = All (λ w. w.tag < num_tags) ws

pub record Ranged (s : State) : Type 0 where
  pub tag_count : length s.tags ≡ num_tags
  pub owned : TagsFit (length s.outputs) s.tags
  pub focus : Below (length s.outputs) s.focused_output
  pub shown : OutputsFit s.outputs
  pub placed : WindowsFit s.windows

pub own_tag-TagsFit :
    (n tag idx : ℕ) (tags : List Tag) → idx < n → TagsFit n tags → TagsFit n (own_tag tag idx tags)
unfolding own_tag
own_tag-TagsFit n tag idx tags h fit = All-modify _ tags tag _ (λ t _. h) fit

pub length-own_tag : (tag idx : ℕ) (tags : List Tag) → length (own_tag tag idx tags) ≡ length tags
unfolding own_tag
length-own_tag tag idx tags = length-modify tags tag _

-- An owner that the table gives is in range.
pub tag_owner-lt :
    (s : State) (tag o : ℕ) → Ranged s → tag_owner s tag ≡ some o → o < length s.outputs
unfolding tag_owner
tag_owner-lt s tag o v e = go (get_elem? s.tags tag) refl
  where
    go : (t : Option Tag) → get_elem? s.tags tag ≡ t → o < length s.outputs
    go none m = ground arith
    go (some t) m =
        let owner : t.output ≡ some o = ground arith in
        subst (Below (length s.outputs)) owner (All-get _ s.tags tag t m v.owned)

pub update_first-WindowsFit :
    (f : Window → Window) (id : ℕ) (ws : List Window)
    → ((w : Window) → w.tag < num_tags → (f w).tag < num_tags)
    → WindowsFit ws
    → WindowsFit (update_first f id ws)
unfolding update_first
update_first-WindowsFit f id [] k h = tt
update_first-WindowsFit f id (w ∷ ws) k h =
    ground (arith, k w h.0, update_first-WindowsFit f id ws k h.1)

-- A change of a window that leaves tags in range.
pub update_window-Ranged :
    (s : State) (id : ℕ) (f : Window → Window)
    → ((w : Window) → w.tag < num_tags → (f w).tag < num_tags)
    → Ranged s
    → Ranged (update_window s id f)
unfolding update_window
update_window-Ranged s id f k v = record {
  tag_count = v.tag_count;
  owned = v.owned;
  focus = v.focus;
  shown = v.shown;
  placed = update_first-WindowsFit f id s.windows k v.placed;
}

-- A change of one output that leaves its active tag and its geometry in range.
pub modify_output-Ranged :
    (s : State) (idx : ℕ) (f : Output → Output)
    → ((o : Output) → OutputFits o → OutputFits (f o))
    → Ranged s
    → Ranged (record s { outputs = modify s.outputs idx f })
modify_output-Ranged s idx f k v = record {
  tag_count = v.tag_count;
  owned = subst (λ n. TagsFit n s.tags) (sym (length-modify s.outputs idx f)) v.owned;
  focus = subst (λ n. Below n s.focused_output) (sym (length-modify s.outputs idx f)) v.focus;
  shown = All-modify _ s.outputs idx f k v.shown;
  placed = v.placed;
}

pub own_tag-Ranged :
    (s : State) (tag idx : ℕ)
    → idx < length s.outputs
    → Ranged s
    → Ranged (record s { tags = own_tag tag idx s.tags })
own_tag-Ranged s tag idx h v = record {
  tag_count = omega (arith, length-own_tag tag idx s.tags, v.tag_count);
  owned = own_tag-TagsFit _ tag idx s.tags h v.owned;
  focus = v.focus;
  shown = v.shown;
  placed = v.placed;
}

pub focus-Ranged :
    (s : State) (f : Option ℕ)
    → Below (length s.outputs) f
    → Ranged s
    → Ranged (record s { focused_output = f })
focus-Ranged s f h v = record {
  tag_count = v.tag_count;
  owned = v.owned;
  focus = h;
  shown = v.shown;
  placed = v.placed;
}

pub windows-Ranged :
    (s : State) (ws : List Window) → WindowsFit ws → Ranged s → Ranged (record s { windows = ws })
windows-Ranged s ws h v = record {
  tag_count = v.tag_count;
  owned = v.owned;
  focus = v.focus;
  shown = v.shown;
  placed = h;
}

pub seats-Ranged : (s : State) (ss : List Seat) → Ranged s → Ranged (record s { seats = ss })
seats-Ranged s ss v = ground arith
