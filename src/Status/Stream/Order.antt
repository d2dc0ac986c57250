-- ===== src/Status/Stream/Order.antt =====
-- The order of the snapshots that a client is sent (src/status.rs).
use streamwm.Base.{
  ℕ, suc, ◌≤◌, subst, true, false, Option, none, some, List, [], ◌∷◌, arith, All, All-imp,
}
use streamwm.Status.Stream.{
  Shared, start, Phase, connecting, asking, waiting, answered, cleared, drained, listening, woken,
  holding, gone, Move, changes, stores, sends, answers, registers, asks, times_out, receives,
  clears, drains, finds_no_token, writes_first, fails_first, wakes, finds_nothing, takes, writes,
  fails, Moves, here, later, written,
}

abbrev AtMost : Option ℕ → ℕ → Type 0
AtMost none v = Unit
AtMost (some n) v = n ≤ v

abbrev AtLeast : ℕ → Option ℕ → Type 0
AtLeast n none = Unit
AtLeast n (some m) = n ≤ m

-- Newest first: no snapshot is older than one that stands behind it.
abbrev pub Descending : List ℕ → Type 0
Descending [] = Unit
Descending (n ∷ ns) = All (λ k. k ≤ n) ns × Descending ns

-- What has been written is at most the newest state and what waits in the cell.
abbrev Written : Shared → List ℕ → Type 0
Written m ws = Descending ws × All (λ w. (w ≤ m.version) × AtLeast w m.slot) ws

abbrev PhaseFits : Shared → Phase → Type 0
PhaseFits m connecting = Unit
PhaseFits m asking = Unit
PhaseFits m waiting = Unit
PhaseFits m (answered n) = n ≤ m.version
PhaseFits m (cleared n) = (n ≤ m.version) × AtLeast n m.slot
PhaseFits m (drained n) = (n ≤ m.version) × AtLeast n m.slot
PhaseFits m (listening ws) = Written m ws
PhaseFits m (woken ws) = Written m ws
PhaseFits m (holding n ws) = Written m (n ∷ ws)
PhaseFits m (gone ws) = Descending ws

pub record Fits (m : Shared) (p : Phase) : Type 0 where
  pub slot : AtMost m.slot m.version
  pub answer : AtMost m.answer m.version
  pub phase : PhaseFits m p

AtMost-suc : (o : Option ℕ) (v : ℕ) → AtMost o v → AtMost o (suc v)
AtMost-suc none v h = tt
AtMost-suc (some n) v h = omega arith

-- More room above keeps the phase.
PhaseFits-imp :
    (m m' : Shared) (p : Phase)
    → m.version ≤ m'.version
    → ((n : ℕ) → n ≤ m.version → AtLeast n m.slot → AtLeast n m'.slot)
    → PhaseFits m p
    → PhaseFits m' p
PhaseFits-imp m m' connecting h k f = tt
PhaseFits-imp m m' asking h k f = tt
PhaseFits-imp m m' waiting h k f = tt
PhaseFits-imp m m' (answered n) h k f = omega arith
PhaseFits-imp m m' (cleared n) h k f = (omega (arith, f.0), k n f.0 f.1)
PhaseFits-imp m m' (drained n) h k f = (omega (arith, f.0), k n f.0 f.1)
PhaseFits-imp m m' (listening ws) h k f =
    (f.0, All-imp ws (λ w g. (omega (arith, g.0), k w g.0 g.1)) f.1)
PhaseFits-imp m m' (woken ws) h k f =
    (f.0, All-imp ws (λ w g. (omega (arith, g.0), k w g.0 g.1)) f.1)
PhaseFits-imp m m' (holding n ws) h k f =
    (f.0, All-imp (n ∷ ws) (λ w g. (omega (arith, g.0), k w g.0 g.1)) f.1)
PhaseFits-imp m m' (gone ws) h k f = f

Move-Fits : {m m' : Shared} {p p' : Phase} → Move m p m' p' → Fits m p → Fits m' p'
Move-Fits {m} {p} (changes e) f = record {
  slot = AtMost-suc m.slot m.version f.slot;
  answer = AtMost-suc m.answer m.version f.answer;
  phase =
      PhaseFits-imp m (record m { version = suc m.version }) p (omega arith) (λ n h k. k) f.phase;
}
Move-Fits {m} {p} (stores e r) f = record {
  slot = omega arith;
  answer = f.answer;
  phase =
      PhaseFits-imp m (record m { slot = some m.version; published = m.version; sending = true }) p
        (omega arith) (λ n h k. h) f.phase;
}
Move-Fits {m} {p} (sends e) f = record {
  slot = f.slot;
  answer = f.answer;
  phase =
      PhaseFits-imp m (record m { token = true; sending = false }) p (omega arith) (λ n h k. k)
        f.phase;
}
Move-Fits {m} {p} (answers e r) f = record {
  slot = f.slot;
  answer = omega arith;
  phase =
      PhaseFits-imp m (record m { answer = some m.version; requested = false }) p (omega arith)
        (λ n h k. k) f.phase;
}
Move-Fits (registers e) f = record { slot = tt; answer = f.answer; phase = tt }
Move-Fits asks f = record { slot = f.slot; answer = f.answer; phase = tt }
Move-Fits (times_out e) f = record { slot = f.slot; answer = f.answer; phase = tt }
Move-Fits (receives e) f = record { slot = f.slot; answer = tt; phase = rw e at f.answer }
Move-Fits clears f = record { slot = tt; answer = f.answer; phase = (f.phase, tt) }
Move-Fits (drains e) f = record { slot = f.slot; answer = f.answer; phase = f.phase }
Move-Fits (finds_no_token e) f = record { slot = f.slot; answer = f.answer; phase = f.phase }
Move-Fits writes_first f = record {
  slot = f.slot;
  answer = f.answer;
  phase = ((tt, tt), (f.phase, tt));
}
Move-Fits (fails_first e) f = record { slot = f.slot; answer = f.answer; phase = tt }
Move-Fits (wakes e) f = record { slot = f.slot; answer = f.answer; phase = f.phase }
Move-Fits (finds_nothing e) f = record { slot = f.slot; answer = f.answer; phase = f.phase }
Move-Fits {m} (takes {ws = ws} {n = n} e) f =
    let below : n ≤ m.version = subst (λ o. AtMost o m.version) e f.slot in
    record {
      slot = tt;
      answer = f.answer;
      phase = (
        (All-imp ws (λ w g. subst (λ o. AtLeast w o) e g.1) f.phase.1, f.phase.0),
        ((below, tt), All-imp ws (λ w g. (g.0, tt)) f.phase.1),
      );
    }
Move-Fits writes f = record { slot = f.slot; answer = f.answer; phase = f.phase }
Move-Fits (fails e) f = record { slot = f.slot; answer = f.answer; phase = f.phase.0.1 }

Moves-Fits : {m : Shared} {p : Phase} → Moves start connecting m p → Fits m p
Moves-Fits here = record { slot = tt; answer = tt; phase = tt }
Moves-Fits (later ms mv) = Move-Fits mv (Moves-Fits ms)

Fits-Descending : (m : Shared) (p : Phase) → PhaseFits m p → Descending (written p)
unfolding written
Fits-Descending m connecting f = tt
Fits-Descending m asking f = tt
Fits-Descending m waiting f = tt
Fits-Descending m (answered n) f = tt
Fits-Descending m (cleared n) f = tt
Fits-Descending m (drained n) f = tt
Fits-Descending m (listening ws) f = f.0
Fits-Descending m (woken ws) f = f.0
Fits-Descending m (holding n ws) f = f.0.1
Fits-Descending m (gone ws) f = f

-- A subscribed client is never sent an older state after a newer one, in any order of the moves
-- of its thread and of the thread of the window manager.
pub Moves-Descending :
    {m : Shared} {p : Phase} → Moves start connecting m p → Descending (written p)
Moves-Descending {m} {p} ms = Fits-Descending m p (Moves-Fits ms).phase
