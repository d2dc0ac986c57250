-- ===== src/Lid/Clamshell.antt =====
-- The commands that the loop runs (src/lid.rs), and when it may run them.
use Prim.Native.String.{String}
use streamwm.Base.{
  same_bool, ◌≡◌, refl, ap, ◌∙◌, Bool, true, false, not, ◌&&◌, ◌||◌, is_some, Option, none, some,
  List, [], ◌∷◌, ◌++◌, if◌then◌else◌, ◌⊎◌, inl, inr, All, All-append, append_assoc, sym,
}
use streamwm.Config.{Lid}
use streamwm.Lid.Topology.{DisplayTopology, display_topology}
use streamwm.Lid.Profiles.{
  Call, Log, panel_on, switch_to, profile_candidates, run_command, try_candidates,
  switch_kanshi_profile, apply_profile, clamshell_available, recover_undocked, apply_closed_profile,
  recover_open_outputs, apply_current_profile, should_recover_undocked,
}
use streamwm.Lid.Ticks.{
  LidState, Tick, lid_closed, reopen, on_lid, retry_recovery, retry_due, follow_open,
  follow_outputs, round, tick_once, topology_changed,
}

-- The later log has the calls of the earlier one, and before them some for which `P` holds.
abbrev pub Extends : (Call → Type 0) → Log → Log → Type 0
Extends P log log' = (new : Log) × (log' ≡ new ++ log) × All P new

module _ {P : Call → Type 0} where
  Extends-refl : (log : Log) → Extends P log log
  Extends-refl log = ([], refl, tt)

  Extends-trans : (a b c : Log) → Extends P a b → Extends P b c → Extends P a c
  Extends-trans a b c (new, e, h) (new', e', h') = (
    new' ++ new,
    e' ∙ ap (λ l. new' ++ l) e ∙ sym (append_assoc new' new a),
    All-append P new' new h' h,
  )

  -- A call, and what is run after it.
  Extends-call :
      (call : Call) (log later : Log) → P call → Extends P (call ∷ log) later → Extends P log later
  Extends-call call log later p h =
      Extends-trans log (call ∷ log) later (call ∷ [], refl, (p, tt)) h

  -- Both branches are looked at with the test known.
  if-Extends :
      {A : Type 0} (f : A → Log) (log : Log) (b : Bool) (x y : A)
      → (b ≡ true → Extends P log (f x))
      → (b ≡ false → Extends P log (f y))
      → Extends P log (f (if b then x else y))
  if-Extends f log true x y h k = h refl
  if-Extends f log false x y h k = k refl

-- A switch to one of the profiles.
abbrev pub Among : Call → List String → Type 0
Among c [] = ⊥
Among c (p ∷ ps) = (c ≡ switch_to p) ⊎ Among c ps

-- The panel is enabled or the undocked profile chosen; or the profile for an open lid; or that for
-- a closed lid, with another output.
abbrev pub Justified : Lid → Bool → DisplayTopology → Call → Type 0
Justified lid closed t c =
    (c ≡ panel_on lid)
    ⊎ Among c (profile_candidates lid.undocked_profile)
    ⊎ ((closed ≡ false) × Among c (profile_candidates lid.open_profile))
    ⊎ ((closed ≡ true)
        × (t.external_connected ≡ true)
        × Among c (profile_candidates lid.close_profile))

not_closed : (closed known : Bool) → (not closed && known) ≡ true → closed ≡ false
not_closed true known e = cc
not_closed false known e = refl

closed_or_first :
    (closed known changed : Bool)
    → (not closed && known) ≡ false
    → (known && changed) ≡ true
    → closed ≡ true
closed_or_first true known changed e h = refl
closed_or_first false true changed e h = cc
closed_or_first false false changed e h = cc

module _ (succeeds : Log → Call → Bool) where
  try_candidates-Extends :
      {P : Call → Type 0} (profiles : List String) (log : Log)
      → ((c : Call) → Among c profiles → P c)
      → Extends P log (try_candidates succeeds profiles log).1
  unfolding try_candidates run_command
  try_candidates-Extends [] log h = Extends-refl log
  try_candidates-Extends (p ∷ ps) log h =
      Extends-call (switch_to p) log _ (h (switch_to p) (inl refl)) (
        if-Extends {A = Bool × Log} (λ r. r.1) (switch_to p ∷ log) (succeeds log (switch_to p)) _ _
          (λ ran. Extends-refl (switch_to p ∷ log))
          (λ ran. try_candidates-Extends ps (switch_to p ∷ log) λ c a. h c (inr a)))

  module _ (lid : Lid) (closed : Bool) (t : DisplayTopology) where
    recover_undocked-Extends :
        (log : Log) → Extends (Justified lid closed t) log (recover_undocked succeeds lid log).1
    unfolding recover_undocked run_command switch_kanshi_profile
    recover_undocked-Extends log = Extends-call (panel_on lid) log _ (inl refl) (
        try_candidates-Extends (profile_candidates lid.undocked_profile) (panel_on lid ∷ log)
          λ c a. inr (inl a))

    open_profile-Extends :
        (log : Log)
        → closed ≡ false
        → Extends (Justified lid closed t) log (apply_profile succeeds lid.open_profile log).1
    unfolding apply_profile switch_kanshi_profile
    open_profile-Extends log e =
        try_candidates-Extends (profile_candidates lid.open_profile) log
          λ c a. inr (inr (inl (e, a)))

    apply_closed_profile-Extends :
        (log : Log)
        → closed ≡ true
        → Extends (Justified lid closed t) log (apply_closed_profile succeeds lid t log).1
    unfolding apply_closed_profile clamshell_available apply_profile switch_kanshi_profile
    apply_closed_profile-Extends log e =
        if-Extends {A = Bool × Log} (λ r. r.1) log t.external_connected _ _
          (λ docked.
            try_candidates-Extends (profile_candidates lid.close_profile) log
              λ c a. inr (inr (inr (e, docked, a))))
          (λ alone. recover_undocked-Extends log)

    -- For any topology `u`, also one that was read later.
    recover_open_outputs-Extends :
        (u : DisplayTopology) (log : Log)
        → closed ≡ false
        → Extends (Justified lid closed t) log (recover_open_outputs succeeds lid u log).1
    unfolding recover_open_outputs
    recover_open_outputs-Extends u log e =
        if-Extends {A = Bool × Log} (λ r. r.1) log
          (u.internal_connected && not u.external_connected) _ _
          (λ alone. recover_undocked-Extends log) (λ docked. open_profile-Extends log e)

    apply_current_profile-Extends :
        (log : Log)
        → Extends (Justified lid closed t) log (apply_current_profile succeeds lid closed t log).1
    unfolding apply_current_profile
    apply_current_profile-Extends log =
        if-Extends {A = Bool × Log} (λ r. r.1) log closed _ _ (apply_closed_profile-Extends log)
          λ opened.
            if-Extends {A = Bool × Log} (λ r. r.1) log
              (t.internal_connected && not t.external_connected) _ _
              (λ alone. recover_undocked-Extends log) (λ docked. open_profile-Extends log opened)

    reopen-Extends :
        (tick : Tick) (log : Log)
        → closed ≡ false
        → Extends (Justified lid closed t) log (reopen succeeds lid tick log)
    unfolding reopen
    reopen-Extends tick log e =
        Extends-trans log _ _
          (recover_open_outputs-Extends (display_topology lid.internal_output tick.debounced) log e)
          (recover_open_outputs-Extends (display_topology lid.internal_output tick.delayed) _ e)

    on_lid-Extends :
        (prev : Option Bool) (tick : Tick) (log : Log)
        → Extends (Justified lid closed t) log (on_lid succeeds lid prev closed t tick log)
    unfolding on_lid
    on_lid-Extends none tick log = apply_current_profile-Extends log
    on_lid-Extends (some prev) tick log =
        if-Extends (λ l. l) log (same_bool closed prev) _ _ (λ same. Extends-refl log)
          λ moved.
            if-Extends (λ l. l) log closed _ _ (apply_closed_profile-Extends log)
              (reopen-Extends tick log)

    follow_open-Extends :
        (changed : Bool) (tick : Tick) (s : LidState)
        → closed ≡ false
        → Extends (Justified lid closed t) s.log (follow_open succeeds lid t changed tick s).log
    unfolding follow_open retry_recovery
    follow_open-Extends changed tick s e =
        if-Extends {A = LidState} (λ u. u.log) s.log
          (should_recover_undocked false t changed (retry_due s tick)) _ _
          (λ recover. recover_undocked-Extends s.log)
          λ other.
            if-Extends {A = LidState} (λ u. u.log) s.log (changed && t.external_connected) _ _
              (λ docked. open_profile-Extends s.log e)
              λ same.
                if-Extends {A = LidState} (λ u. u.log) s.log
                  (not t.internal_connected || t.external_connected) _ _
                  (λ docked. Extends-refl s.log) (λ waiting. Extends-refl s.log)

    follow_outputs-Extends :
        (tick : Tick) (s : LidState)
        → Extends (Justified lid closed t) s.log (follow_outputs succeeds lid closed t tick s).log
    unfolding follow_outputs
    follow_outputs-Extends tick s =
        if-Extends {A = LidState} (λ u. u.log) s.log (not closed && is_some s.prev_topology) _ _
          (λ opened. follow_open-Extends (topology_changed s t) tick s (not_closed closed _ opened))
          λ other.
            if-Extends {A = LidState} (λ u. u.log) s.log
              (is_some s.prev_topology && topology_changed s t) _ _
              (λ changed.
                apply_closed_profile-Extends s.log (closed_or_first closed _ _ other changed))
              (λ same. Extends-refl s.log)

    round-Extends :
        (tick : Tick) (s : LidState)
        → Extends (Justified lid closed t) s.log (round succeeds lid closed t tick s).log
    unfolding round
    round-Extends tick s =
        Extends-trans s.log _ _ (on_lid-Extends s.prev_lid_closed tick s.log)
          (follow_outputs-Extends tick _)

-- In each round of the lid listener, whatever the commands return, every command that is run
-- enables the panel, or switches to an undocked profile, or, with the lid open, to an open
-- profile, or, with the lid closed and an external output connected, to a closed profile.
pub tick_once-Justified :
    (succeeds : Log → Call → Bool) (lid : Lid) (tick : Tick) (s : LidState)
    → Extends
        (Justified lid (lid_closed s tick) (display_topology lid.internal_output tick.entries))
        s.log
        (tick_once succeeds lid tick s).log
unfolding tick_once
tick_once-Justified succeeds lid tick s = round-Extends succeeds lid _ _ tick s
