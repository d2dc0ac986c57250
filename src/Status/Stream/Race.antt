-- ===== src/Status/Stream/Race.antt =====
-- The window between the answer to the first request and the clearing of the cell (src/status.rs).
use streamwm.Base.{ℕ, zero, suc, refl, true, false, none, [], ◌∷◌}
use streamwm.Status.Stream.{
  Shared, start, connecting, listening, changes, stores, sends, answers, registers, asks, receives,
  clears, drains, finds_no_token, writes_first, Moves, here, later,
}

-- The state of the program after `n` changes, with nothing in flight and no client.
abbrev changed : ℕ → Shared
changed n = record start { version = n }

changing : (n : ℕ) → Moves start connecting (changed n) connecting
changing zero = here
changing (suc n) = later (changing n) (changes refl)

-- The client has written the snapshot of `n` changes, that of `n + 1` was published, and nothing is
-- in flight: no request, no answer, no token, and an empty cell.
abbrev pub stale : ℕ → Shared
stale n = record {
  version = suc n;
  published = suc n;
  sending = false;
  registered = true;
  slot = none;
  token = false;
  requested = false;
  answer = none;
}

-- After any number of changes, a subscribed client can end up with the snapshot before the last
-- change, while the last change was published and nothing is in flight that would wake it.
pub stale-reached : (n : ℕ) → Moves start connecting (stale n) (listening (n ∷ []))
stale-reached n =
    let asked = later (later (changing n) (registers refl)) asks in
    let published =
      later (later (later (later asked (answers refl refl)) (changes refl)) (stores refl refl))
        (sends refl) in
    later
      (later (later (later (later published (receives refl)) clears) (drains refl))
        (finds_no_token refl))
      writes_first
