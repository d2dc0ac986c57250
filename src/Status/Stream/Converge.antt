-- ===== src/Status/Stream/Converge.antt =====
-- What a client that is being served (src/status.rs) ends with.
use streamwm.Base.{
  ℕ, ◌≡◌, refl, sym, subst, Bool, true, false, Option, none, some, List, [], ◌∷◌, ◌⊎◌, inl, inr,
}
use streamwm.Status.Stream.{
  Shared, Phase, connecting, asking, waiting, answered, cleared, drained, listening, woken, holding,
  gone, Move, changes, stores, sends, answers, registers, asks, times_out, receives, clears, drains,
  finds_no_token, writes_first, fails_first, wakes, finds_nothing, takes, writes, fails, Moves,
  here, later,
}

-- The newest snapshot is the one that was published last.
abbrev Newest : ℕ → List ℕ → Type 0
Newest last [] = ⊥
Newest last (n ∷ ns) = n ≡ last

-- The cell holds what was published last, or the client has it.
abbrev Held : ℕ → Option ℕ → List ℕ → Type 0
Held last none ws = Newest last ws
Held last (some n) ws = n ≡ last

-- A token is there, or on its way, while something waits in the cell.
abbrev Announced : Bool → Bool → Option ℕ → Type 0
Announced token sending none = Unit
Announced token sending (some n) = (token ≡ true) ⊎ (sending ≡ true)

abbrev CurrentAt : ℕ → Option ℕ → Bool → Bool → Phase → Type 0
CurrentAt last slot token sending (listening ws) = Held last slot ws × Announced token sending slot
CurrentAt last slot token sending (woken ws) = Held last slot ws
CurrentAt last slot token sending (holding n ws) =
    Held last slot (n ∷ ws) × Announced token sending slot
CurrentAt last slot token sending (gone ws) = Unit
CurrentAt last slot token sending p = ⊥

-- The client is in its loop, or was dropped from it, and will write what was published last.
abbrev pub Current : Shared → Phase → Type 0
Current m p = CurrentAt m.published m.slot m.token m.sending p

announced :
    (token sending : Bool) (slot : Option ℕ)
    → Announced token sending slot
    → Announced true false slot
announced token sending none a = tt
announced token sending (some n) a = inl refl

token-Current :
    (last : ℕ) (slot : Option ℕ) (token sending : Bool) (p : Phase)
    → CurrentAt last slot token sending p
    → CurrentAt last slot true false p
token-Current last slot token sending (listening ws) c = (c.0, announced token sending slot c.1)
token-Current last slot token sending (woken ws) c = c
token-Current last slot token sending (holding n ws) c = (c.0, announced token sending slot c.1)
token-Current last slot token sending (gone ws) c = tt
token-Current last slot token sending connecting c = c
token-Current last slot token sending asking c = c
token-Current last slot token sending waiting c = c
token-Current last slot token sending (answered n) c = c
token-Current last slot token sending (cleared n) c = c
token-Current last slot token sending (drained n) c = c

-- The client is in its loop.
abbrev pub InLoop : Phase → Type 0
InLoop (listening ws) = Unit
InLoop (woken ws) = Unit
InLoop (holding n ws) = Unit
InLoop p = ⊥

-- A publication that finds the client in its loop, or one that it will write anyway.
store-Current : (v : ℕ) (token : Bool) (p : Phase) → InLoop p → CurrentAt v (some v) token true p
store-Current v token (listening ws) l = (refl, inr refl)
store-Current v token (woken ws) l = refl
store-Current v token (holding n ws) l = (refl, inr refl)
store-Current v token connecting l = elim l [ ]
store-Current v token asking l = elim l [ ]
store-Current v token waiting l = elim l [ ]
store-Current v token (answered n) l = elim l [ ]
store-Current v token (cleared n) l = elim l [ ]
store-Current v token (drained n) l = elim l [ ]
store-Current v token (gone ws) l = elim l [ ]

restore-Current :
    (last v : ℕ) (slot : Option ℕ) (token sending : Bool) (p : Phase)
    → CurrentAt last slot token sending p
    → CurrentAt v (some v) token true p
restore-Current last v slot token sending (listening ws) c = (refl, inr refl)
restore-Current last v slot token sending (woken ws) c = refl
restore-Current last v slot token sending (holding n ws) c = (refl, inr refl)
restore-Current last v slot token sending (gone ws) c = tt
restore-Current last v slot token sending connecting c = elim c [ ]
restore-Current last v slot token sending asking c = elim c [ ]
restore-Current last v slot token sending waiting c = elim c [ ]
restore-Current last v slot token sending (answered n) c = elim c [ ]
restore-Current last v slot token sending (cleared n) c = elim c [ ]
restore-Current last v slot token sending (drained n) c = elim c [ ]

Move-Current : {m m' : Shared} {p p' : Phase} → Move m p m' p' → Current m p → Current m' p'
Move-Current (changes e) c = c
Move-Current {m} {p = p} (stores e r) c =
    restore-Current m.published m.version m.slot m.token m.sending p c
Move-Current {m} {p = p} (sends e) c = token-Current m.published m.slot m.token m.sending p c
Move-Current (answers e r) c = c
Move-Current (registers e) c = elim c [ ]
Move-Current asks c = elim c [ ]
Move-Current (times_out e) c = elim c [ ]
Move-Current (receives e) c = elim c [ ]
Move-Current clears c = elim c [ ]
Move-Current (drains e) c = elim c [ ]
Move-Current (finds_no_token e) c = elim c [ ]
Move-Current writes_first c = elim c [ ]
Move-Current (fails_first e) c = elim c [ ]
Move-Current (wakes e) c = c.0
Move-Current {m} (finds_nothing {ws = ws} e) c = (c, subst (Announced m.token m.sending) (sym e) tt)
Move-Current {m} (takes {ws = ws} e) c = (subst (λ o. Held m.published o ws) e c, tt)
Move-Current writes c = c
Move-Current (fails e) c = tt

Moves-Current :
    {m : Shared} {p : Phase} {m' : Shared} {p' : Phase}
    → Moves m p m' p'
    → Current m p
    → Current m' p'
Moves-Current here c = c
Moves-Current (later ms mv) c = Move-Current mv (Moves-Current ms c)

-- Nothing is left to do but to wait for the next change or publication.
idle-Newest :
    (last : ℕ) (slot : Option ℕ) (ws : List ℕ)
    → CurrentAt last slot false false (listening ws)
    → Newest last ws × (slot ≡ none)
idle-Newest last none ws c = (c.0, refl)
idle-Newest last (some n) ws (h, inl e) = cc
idle-Newest last (some n) ws (h, inr e) = cc

-- No wakeup of a subscribed client is lost: once a snapshot is stored while the client is in the
-- loop over its wake tokens, and whatever the two threads do then, when no token and no
-- publication is in flight and the client listens, the newest snapshot that it wrote is the one
-- published last and its cell is empty.
pub published-Newest :
    (m : Shared) (p : Phase) (m' : Shared) (ws : List ℕ)
    → InLoop p
    → Moves
        (record m { slot = some m.version; published = m.version; sending = true })
        p
        m'
        (listening ws)
    → m'.token ≡ false
    → m'.sending ≡ false
    → Newest m'.published ws × (m'.slot ≡ none)
published-Newest m p m' ws l ms no_token idle = idle-Newest m'.published m'.slot ws (
    subst (λ b. CurrentAt m'.published m'.slot b false (listening ws)) no_token
      (subst (λ b. CurrentAt m'.published m'.slot m'.token b (listening ws)) idle
        (Moves-Current ms (store-Current m.version m.token p l))))
