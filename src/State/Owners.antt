-- ===== src/State/Owners.antt =====
-- The owners of the tags (src/state.rs), the tags that outputs show, and what giving a tag away
-- changes.
use streamwm.Base.{
  ℕ, zero, suc, ◌+◌, ◌<◌, ◌≡◌, ◌≢◌, refl, sym, ap, ◌∙◌, Bool, true, false, Option, none, some, List,
  [], ◌∷◌, ◌⊎◌, inl, inr, arith, length, get_elem?, map_opt, and_then, ◌==◌, Bool-cases,
  index-of_lt, get_elem?-modify_self, get_elem?-modify_ne, get_elem?-of_lt, get_elem?-lt,
  position_from, position, same_opt, modify, subst,
}
use streamwm.State.{State, Output, Tag, own_tag}
use streamwm.State.Focus.{set_active}

abbrev pub owner : List Tag → ℕ → Option ℕ
owner tags t = and_then (get_elem? tags t) (λ tag. tag.output)

abbrev pub unowned : Tag → Bool
unowned t = elim t.output [ none ↦ true | some o ↦ false ]

-- No tag is owned by the output, and none is free.
abbrev pub Stuck : List Tag → ℕ → Type 0
Stuck tags j = ((t : ℕ) → owner tags t ≢ some j) × (position unowned tags ≡ none)

abbrev pub SettledIn : List Tag → ℕ → Option ℕ → Type 0
SettledIn tags j none = Unit
SettledIn tags j (some tag) = (owner tags tag ≡ some j) ⊎ Stuck tags j

abbrev pub shown : State → ℕ → Option ℕ
shown s j = map_opt (λ o. o.active_tag) (get_elem? s.outputs j)

-- The output shows a tag that it owns, if there is one that it owns or that is free.
abbrev pub Settled : State → ℕ → Type 0
Settled s j = SettledIn s.tags j (shown s j)

pub same_opt-eq : (a : Option ℕ) (b : ℕ) → same_opt a (some b) ≡ true → a ≡ some b
same_opt-eq none b e = cc
same_opt-eq (some a) b e = ap some (ground arith)

pub same_opt-ne : (a : Option ℕ) (b : ℕ) → same_opt a (some b) ≡ false → a ≢ some b
same_opt-ne none b e h = cc
same_opt-ne (some a) b e h = let same : a ≡ b = cc in ground arith

module _ {ℓ} {A : Type ℓ} (p : A → Bool) where
  pub position_from-none :
      (i : ℕ) (xs : List A) (k : ℕ) (x : A)
      → position_from i p xs ≡ none
      → get_elem? xs k ≡ some x
      → p x ≡ false
  position_from-none i [] k x e h = cc
  position_from-none i (y ∷ xs) zero x e h = ground arith
  position_from-none i (y ∷ xs) (suc k) x e h = ground (arith, position_from-none (suc i) xs k x)

  pub position_from-some :
      (i : ℕ) (xs : List A) (j : ℕ)
      → position_from i p xs ≡ some j
      → (k : ℕ) × (x : A) × (j ≡ i + k) × (get_elem? xs k ≡ some x) × (p x ≡ true)
  position_from-some i [] j e = cc
  position_from-some i (y ∷ xs) j e = elim (Bool-cases (p y)) [
    | inl here ↦ (0, y, ground arith, refl, here)
    | inr on ↦
        let (k, x, at, found, good) = position_from-some (suc i) xs j (ground arith) in
        (suc k, x, omega (arith, at), found, good)
  ]

pub set_active-shown :
    (s : State) (idx tag : ℕ) (tags : List Tag)
    → idx < length s.outputs
    → shown (record s { tags = tags; outputs = set_active idx tag s.outputs }) idx ≡ some tag
unfolding set_active
set_active-shown s idx tag tags h =
    let (o, found, _) = index-of_lt s.outputs idx h in
    rw (get_elem?-modify_self s.outputs idx (λ out. record out { active_tag = tag }) o found) refl

pub set_active-others :
    (s : State) (idx tag j : ℕ) (tags : List Tag)
    → idx ≢ j
    → shown (record s { tags = tags; outputs = set_active idx tag s.outputs }) j ≡ shown s j
unfolding set_active
set_active-others s idx tag j tags h =
    ap (map_opt (λ o. o.active_tag)) (get_elem?-modify_ne s.outputs idx j _ h)

pub owner-own_tag :
    (tags : List Tag) (tag idx : ℕ)
    → tag < length tags
    → owner (own_tag tag idx tags) tag ≡ some idx
unfolding own_tag
owner-own_tag tags tag idx h =
    let (t, e) = get_elem?-of_lt tags tag h in
    rw (get_elem?-modify_self tags tag (λ x. record x { output = some idx }) t e) refl

-- A tag with an owner keeps it when a free tag is given away.
pub owner-kept :
    (tags : List Tag) (tag idx t j : ℕ)
    → owner tags tag ≡ none
    → owner tags t ≡ some j
    → owner (own_tag tag idx tags) t ≡ some j
unfolding own_tag
owner-kept tags tag idx t j free owns =
    let other : tag ≢ t = λ e. cc in
    ap (λ o. and_then o λ x. x.output) (get_elem?-modify_ne tags tag t _ other) ∙ owns

unowned-of_none : (o : Option ℕ) → o ≡ none → (elim o [ none ↦ true | some i ↦ false ]) ≢ false
unowned-of_none none e h = cc
unowned-of_none (some i) e h = cc

pub SettledIn-own_tag :
    (tags : List Tag) (tag idx j : ℕ) (x : Option ℕ)
    → tag < length tags
    → owner tags tag ≡ none
    → SettledIn tags j x
    → SettledIn (own_tag tag idx tags) j x
SettledIn-own_tag tags tag idx j none h free v = tt
SettledIn-own_tag tags tag idx j (some t) h free (inl owns) =
    inl (owner-kept tags tag idx t j free owns)
SettledIn-own_tag tags tag idx j (some t) h free (inr (no_tag, none_free)) =
    let (x, e) = get_elem?-of_lt tags tag h in
    let owned = position_from-none unowned 0 tags tag x none_free e in
    absurd (unowned-of_none x.output (ground arith) owned)

unowned-none : (o : Option ℕ) → (elim o [ none ↦ true | some i ↦ false ]) ≡ true → o ≡ none
unowned-none none e = refl
unowned-none (some i) e = cc

-- The first free tag is a tag, and has no owner.
pub free_tag-unowned :
    (tags : List Tag) (tag : ℕ)
    → position unowned tags ≡ some tag
    → (tag < length tags) × (owner tags tag ≡ none)
free_tag-unowned tags tag e =
    let (k, x, at, found, good) = position_from-some unowned 0 tags tag e in
    let same : tag ≡ k = omega (arith, at) in
    rw same (get_elem?-lt tags k x found, rw found (unowned-none x.output good))

map_opt-modify {ℓ} :
    {A B : Type ℓ} (g : A → B) (f : A → A) (xs : List A) (i j : ℕ)
    → ((x : A) → g (f x) ≡ g x)
    → map_opt g (get_elem? (modify xs i f) j) ≡ map_opt g (get_elem? xs j)
map_opt-modify g f [] i j same = refl
map_opt-modify g f (x ∷ xs) zero zero same = ap some (same x)
map_opt-modify g f (x ∷ xs) zero (suc j) same = refl
map_opt-modify g f (x ∷ xs) (suc i) zero same = refl
map_opt-modify g f (x ∷ xs) (suc i) (suc j) same = map_opt-modify g f xs i j same

position_from-modify {ℓ} :
    {A : Type ℓ} (p : A → Bool) (f : A → A) (i : ℕ) (xs : List A) (k : ℕ)
    → ((x : A) → p (f x) ≡ p x)
    → position_from i p (modify xs k f) ≡ position_from i p xs
position_from-modify p f i [] k same = refl
position_from-modify p f i (x ∷ xs) zero same = rw (same x) refl
position_from-modify p f i (x ∷ xs) (suc k) same =
    rw (position_from-modify p f (suc i) xs k same) refl

and_then-map_opt :
    (o : Option Tag) → and_then (map_opt (λ t. t.output) o) (λ x. x) ≡ and_then o (λ t. t.output)
and_then-map_opt none = refl
and_then-map_opt (some t) = refl

owner-modify :
    (tags : List Tag) (k : ℕ) (f : Tag → Tag) (t : ℕ)
    → ((x : Tag) → (f x).output ≡ x.output)
    → owner (modify tags k f) t ≡ owner tags t
owner-modify tags k f t same =
    sym (and_then-map_opt (get_elem? (modify tags k f) t))
    ∙ (ap (λ o. and_then o (λ x. x)) (map_opt-modify (λ x. x.output) f tags k t same)
        ∙ and_then-map_opt (get_elem? tags t))

-- A change of a tag that leaves its owner settles what was settled.
pub SettledIn-modify :
    (tags : List Tag) (k : ℕ) (f : Tag → Tag) (j : ℕ) (x : Option ℕ)
    → ((t : Tag) → (f t).output ≡ t.output)
    → SettledIn tags j x
    → SettledIn (modify tags k f) j x
SettledIn-modify tags k f j none same v = tt
SettledIn-modify tags k f j (some t) same (inl owns) = inl (owner-modify tags k f t same ∙ owns)
SettledIn-modify tags k f j (some t) same (inr (no_tag, none_free)) = inr (
  λ u e. no_tag u (sym (owner-modify tags k f u same) ∙ e),
  position_from-modify unowned f 0 tags k
        (λ t. ap (λ o. elim o [ none ↦ true | some i ↦ false ]) (same t))
      ∙ none_free,
)

-- What an output shows, when one is changed but not its active tag.
pub shown-modify :
    (s : State) (idx : ℕ) (f : Output → Output)
    → ((o : Output) → (f o).active_tag ≡ o.active_tag)
    → (j : ℕ) → shown (record s { outputs = modify s.outputs idx f }) j ≡ shown s j
shown-modify s idx f same j = map_opt-modify (λ o. o.active_tag) f s.outputs idx j same

-- Showing a tag on the output that owns it.
pub set_active-Settled :
    (s : State) (idx tag : ℕ)
    → idx < length s.outputs
    → owner s.tags tag ≡ some idx
    → ((j : ℕ) → Settled s j)
    → (j : ℕ) → Settled (record s { outputs = set_active idx tag s.outputs }) j
set_active-Settled s idx tag h owns v j = elim (Bool-cases (idx == j)) [
  | inl same ↦
      let e : idx ≡ j = ground arith in
      subst
        (λ k. SettledIn s.tags k (shown (record s { outputs = set_active idx tag s.outputs }) k)) e
        (rw (set_active-shown s idx tag s.tags h) (inl owns))
  | inr other ↦
      subst (SettledIn s.tags j) (sym (set_active-others s idx tag j s.tags (λ e. ground arith)))
        (v j)
]

-- Giving a free tag away leaves every output on its tag.
pub own_tag-Settled :
    (s : State) (tag idx : ℕ)
    → tag < length s.tags
    → owner s.tags tag ≡ none
    → ((j : ℕ) → Settled s j)
    → (j : ℕ) → Settled (record s { tags = own_tag tag idx s.tags }) j
own_tag-Settled s tag idx h free v j = SettledIn-own_tag s.tags tag idx j (shown s j) h free (v j)
