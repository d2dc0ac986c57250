-- ===== src/State/Invariant.antt =====
-- The well-formedness of a window manager state: indices, tags and geometry in range, and every
-- output on a tag that it owns, unless it owns none and no tag is free.
use streamwm.Base.{ℕ, ◌<◌, ◌≡◌, sym, subst, Option, List, length, modify}
use streamwm.State.{State, Window, Output, Seat, num_tags, update_window}
use streamwm.State.Ranges.{
  Ranged, Below, OutputFits, WindowsFit, update_window-Ranged, modify_output-Ranged, focus-Ranged,
  windows-Ranged, seats-Ranged,
}
use streamwm.State.Owners.{SettledIn, Settled, shown-modify}

pub record WellFormed (s : State) : Type 0 where
  pub ranged : Ranged s
  pub settled : (j : ℕ) → Settled s j

-- A change of a window that leaves tags in range.
pub update_window-WellFormed :
    (s : State) (id : ℕ) (f : Window → Window)
    → ((w : Window) → w.tag < num_tags → (f w).tag < num_tags)
    → WellFormed s
    → WellFormed (update_window s id f)
unfolding update_window
update_window-WellFormed s id f k v = record {
  ranged = update_window-Ranged s id f k v.ranged;
  settled = v.settled;
}

pub modify_output-WellFormed :
    (s : State) (idx : ℕ) (f : Output → Output)
    → ((o : Output) → OutputFits o → OutputFits (f o))
    → ((o : Output) → (f o).active_tag ≡ o.active_tag)
    → WellFormed s
    → WellFormed (record s { outputs = modify s.outputs idx f })
modify_output-WellFormed s idx f k same v = record {
  ranged = modify_output-Ranged s idx f k v.ranged;
  settled = λ j. subst (SettledIn s.tags j) (sym (shown-modify s idx f same j)) (v.settled j);
}

pub focus-WellFormed :
    (s : State) (f : Option ℕ)
    → Below (length s.outputs) f
    → WellFormed s
    → WellFormed (record s { focused_output = f })
focus-WellFormed s f h v = record { ranged = focus-Ranged s f h v.ranged; settled = v.settled }

pub windows-WellFormed :
    (s : State) (ws : List Window)
    → WindowsFit ws
    → WellFormed s
    → WellFormed (record s { windows = ws })
windows-WellFormed s ws h v = record {
  ranged = windows-Ranged s ws h v.ranged;
  settled = v.settled;
}

-- A change of the seats alone.
pub seats-WellFormed :
    (s : State) (ss : List Seat) → WellFormed s → WellFormed (record s { seats = ss })
seats-WellFormed s ss v = record { ranged = seats-Ranged s ss v.ranged; settled = v.settled }
