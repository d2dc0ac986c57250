-- ===== src/App/Requests.antt =====
-- The requests that a handler appends to those sent before.
use streamwm.Base.{
  arith, ◌≡◌, refl, sym, ap, ◌∙◌, Bool, true, false, some, List, [], ◌∷◌, ◌++◌, inl, inr, map,
  if◌then◌else◌, All, All-append, append_assoc, append_nil, Option-cases,
}
use streamwm.Protocol.{Request}
use streamwm.Protocol.Sequence.{Stage, idle, managing, rendering, allowed, follow, follow_all}
use streamwm.App.{AppData, send, request_manage}

-- All are allowed within the stage.
abbrev pub Within : Stage → List Request → Type 0
Within p rs = All (λ r. allowed p r ≡ true) rs

abbrev pub Adds : Stage → List Request → List Request → Type 0
Adds p before after = (added : List Request) × (after ≡ before ++ added) × Within p added

follow-allowed : (p : Stage) (r : Request) → allowed p r ≡ true → follow p r ≡ some p
follow-allowed idle r h = rw h refl
follow-allowed managing r h = ground arith
follow-allowed rendering r h = ground arith

module _ (p : Stage) where
  pub Adds-refl : (rs : List Request) → Adds p rs rs
  Adds-refl rs = ([], sym (append_nil rs), tt)

  pub Adds-more : (rs added : List Request) → Within p added → Adds p rs (rs ++ added)
  Adds-more rs added h = (added, refl, h)

  pub Adds-trans : (a b c : List Request) → Adds p a b → Adds p b c → Adds p a c
  Adds-trans a b c (new, e, h) (new', e', h') = (
    new ++ new',
    e' ∙ (ap (λ l. l ++ new') e ∙ append_assoc a new new'),
    All-append _ new new' h h',
  )

  pub map-Within {ℓ} :
      {A : Type ℓ} (f : A → Request) (xs : List A)
      → ((x : A) → allowed p (f x) ≡ true)
      → Within p (map f xs)
  map-Within f [] k = tt
  map-Within f (x ∷ xs) k = (k x, map-Within f xs k)

  pub if-Within :
      (b : Bool) (xs ys : List Request)
      → Within p xs
      → Within p ys
      → Within p (if b then xs else ys)
  if-Within true xs ys h k = h
  if-Within false xs ys h k = k

  -- One of two steps on a window, with its requests.
  pub if-sent-Within {ℓ} :
      {A : Type ℓ} (b : Bool) (x y : A × List Request)
      → Within p x.1
      → Within p y.1
      → Within p (if b then x else y).1
  if-sent-Within true x y h k = h
  if-sent-Within false x y h k = k

  -- Requests within a stage leave it to those behind them.
  pub follow_all-append :
      (xs ys : List Request) → Within p xs → follow_all p (xs ++ ys) ≡ follow_all p ys
  follow_all-append [] ys h = refl
  follow_all-append (x ∷ xs) ys h = rw (follow-allowed p x h.0) (follow_all-append xs ys h.1)

-- The requests behind those of before, from the stage to the end of its sequence.
abbrev pub Answers : Stage → List Request → List Request → Type 0
Answers p before after =
    (added : List Request) × (after ≡ before ++ added) × (follow_all p added ≡ some idle)

pub Adds-Answers : (p : Stage) (a b c : List Request) → Adds p a b → Answers p b c → Answers p a c
Adds-Answers p a b c (new, e, h) (new', e', h') = (
  new ++ new',
  e' ∙ (ap (λ l. l ++ new') e ∙ append_assoc a new new'),
  follow_all-append p new new' h ∙ h',
)

-- Outside of any sequence, nothing has to be ended.
pub idle-Answers : (a b : List Request) → Adds idle a b → Answers idle a b
idle-Answers a b v = Adds-Answers idle a b b v ([], sym (append_nil b), refl)

pub if-Adds :
    (p : Stage) (before : List Request) (b : Bool) (x y : AppData)
    → Adds p before x.sent
    → Adds p before y.sent
    → Adds p before (if b then x else y).sent
if-Adds p before true x y h k = h
if-Adds p before false x y h k = k

-- A handler that starts after the given requests, and adds none that needs a sequence.
abbrev pub Quiet : List Request → AppData → Type 0
Quiet before d = Adds idle before d.sent

pub send-Quiet :
    (before rs : List Request) (d : AppData)
    → Within idle rs
    → Quiet before d
    → Quiet before (send rs d)
unfolding send
send-Quiet before rs d h v =
    Adds-trans idle before d.sent (d.sent ++ rs) v (Adds-more idle d.sent rs h)

pub request_manage-Quiet :
    (before : List Request) (d : AppData) → Quiet before d → Quiet before (request_manage d)
unfolding request_manage
request_manage-Quiet before d v = elim (Option-cases d.wm) [
  | inl e ↦ rw (e, request_manage) v
  | inr (wm, e) ↦ rw (e, request_manage) (send-Quiet before _ d (refl, tt) v)
]

pub if-Quiet :
    (before : List Request) (b : Bool) (x y : AppData)
    → Quiet before x
    → Quiet before y
    → Quiet before (if b then x else y)
if-Quiet before b x y h k = if-Adds idle before b x y h k
