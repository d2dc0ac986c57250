-- ===== src/Base/Panic.antt =====
-- A call that returns, or that panics: Rust's index out of bounds, and `clamp` with `min > max`.
use Prim.Native.Nat.{ℕ, ◌<◌}
use mathlib.Core.Path.{◌≡◌, refl, subst}
use mathlib.Core.Bool.{Bool, true, false}
use mathlib.Core.List.{List}
use mathlib.Core.Option.{none, some}
use streamwm.Base.Tests.{if◌then◌else◌}
use streamwm.Base.Lists.{length, get_elem?, get_elem?-of_lt}

pub data Outcome {ℓ} (A : Type ℓ) : Type ℓ where
  done : A → Outcome A
  panic : Outcome A

infixl 5 ◌>>=◌
abbrev pub ◌>>=◌ {ℓ κ} : {A : Type ℓ} {B : Type κ} → Outcome A → (A → Outcome B) → Outcome B
done a >>= f = f a
panic >>= f = panic

-- `xs[i]`
abbrev pub index {ℓ} : {A : Type ℓ} → List A → ℕ → Outcome A
index xs i = elim (get_elem? xs i) [ some x ↦ done x | none ↦ panic ]

-- The call returns, and its result satisfies `P`: total correctness.
abbrev pub Returns {ℓ} : {A : Type ℓ} → Outcome A → (A → Type 0) → Type 0
Returns (done a) P = P a
Returns panic P = ⊥

module _ {ℓ κ} {A : Type ℓ} {B : Type κ} where
  pub Returns-bind :
      (m : Outcome A) (f : A → Outcome B) (P : A → Type 0) (Q : B → Type 0)
      → Returns m P
      → ((a : A) → P a → Returns (f a) Q)
      → Returns (m >>= f) Q
  Returns-bind (done a) f P Q h k = k a h
  Returns-bind panic f P Q h k = elim h [ ]

module _ {ℓ} {A : Type ℓ} where
  pub Returns-mono :
      (m : Outcome A) (P Q : A → Type 0) → Returns m P → ((a : A) → P a → Q a) → Returns m Q
  Returns-mono (done a) P Q h k = k a h
  Returns-mono panic P Q h k = elim h [ ]

  pub Returns-and :
      (m : Outcome A) (P Q : A → Type 0) → Returns m P → Returns m Q → Returns m (λ a. P a × Q a)
  Returns-and (done a) P Q h k = (h, k)
  Returns-and panic P Q h k = elim h [ ]

  pub Returns-eq : (m : Outcome A) (P : A → Type 0) (a : A) → m ≡ done a → P a → Returns m P
  Returns-eq (done b) P a e p = subst P (cc) p
  Returns-eq panic P a e p = cc

  pub done_of_Returns :
      (m : Outcome A) (P : A → Type 0) → Returns m P → (a : A) × (m ≡ done a) × P a
  done_of_Returns (done a) P h = (a, refl, h)
  done_of_Returns panic P h = elim h [ ]

  pub index-of_lt :
      (xs : List A) (i : ℕ)
      → i < length xs
      → (x : A) × (get_elem? xs i ≡ some x) × (index xs i ≡ done x)
  index-of_lt xs i h = let (x, e) = get_elem?-of_lt xs i h in (x, e, rw (e, index))

-- If the call returns, its result satisfies `P`: partial correctness.
abbrev pub IfDone {ℓ} : {A : Type ℓ} → Outcome A → (A → Type 0) → Type 0
IfDone (done a) P = P a
IfDone panic P = Unit

module _ {ℓ κ} {A : Type ℓ} {B : Type κ} where
  pub IfDone-bind :
      (m : Outcome A) (f : A → Outcome B) (Q : B → Type 0)
      → ((a : A) → IfDone (f a) Q)
      → IfDone (m >>= f) Q
  IfDone-bind (done a) f Q k = k a
  IfDone-bind panic f Q k = tt

  pub IfDone-then :
      (m : Outcome A) (f : A → Outcome B) (P : A → Type 0) (Q : B → Type 0)
      → IfDone m P
      → ((a : A) → P a → IfDone (f a) Q)
      → IfDone (m >>= f) Q
  IfDone-then (done a) f P Q h k = k a h
  IfDone-then panic f P Q h k = tt

module _ {ℓ} {A : Type ℓ} where
  -- Partial correctness of a call that returns.
  pub Returns-IfDone : (m : Outcome A) (P Q : A → Type 0) → Returns m P → IfDone m Q → Returns m Q
  Returns-IfDone (done a) P Q h k = k
  Returns-IfDone panic P Q h k = elim h [ ]

  pub IfDone-of_Returns : (m : Outcome A) (P : A → Type 0) → Returns m P → IfDone m P
  IfDone-of_Returns (done a) P h = h
  IfDone-of_Returns panic P h = tt

  pub IfDone-mono :
      (m : Outcome A) (P Q : A → Type 0) → IfDone m P → ((a : A) → P a → Q a) → IfDone m Q
  IfDone-mono (done a) P Q h k = k a h
  IfDone-mono panic P Q h k = tt

  pub if-IfDone :
      (b : Bool) (x y : Outcome A) (P : A → Type 0)
      → IfDone x P
      → IfDone y P
      → IfDone (if b then x else y) P
  if-IfDone true x y P h k = h
  if-IfDone false x y P h k = k
