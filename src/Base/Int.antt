-- ===== src/Base/Int.antt =====
-- Signed integers over the native numbers, and the machine integers `i32` and `u32`: an `i32` is
-- an integer that each operation wraps, a `u32` is a number below 2 ^ 32.
use Prim.Native.Nat.{ℕ, suc, ◌+◌, ◌-◌, ◌*◌, ◌/◌, ◌%◌, ◌^◌, ◌≤◌, ◌<◌}
use mathlib.Core.Path.{◌≡◌, refl}
use mathlib.Core.Logic.{◌⊎◌, inl, inr}
use mathlib.Core.Bool.{Bool}
use native.Mathlib.Omega.{arith}
use streamwm.Base.Tests.{ltb, leb, if◌then◌else◌}

-- `negsuc n` is -(n + 1).
pub data ℤ : Type 0 where
  pos : ℕ → ℤ
  negsuc : ℕ → ℤ

abbrev pub pos_part : ℤ → ℕ
pos_part (pos n) = n
pos_part (negsuc n) = 0

abbrev pub neg_part : ℤ → ℕ
neg_part (pos n) = 0
neg_part (negsuc n) = suc n

abbrev pub sub_ℕ : ℕ → ℕ → ℤ
sub_ℕ a b = if leb b a then pos (a - b) else negsuc (b - a - 1)

abbrev pub ltb_ℤ : ℤ → ℤ → Bool
ltb_ℤ a b = ltb (pos_part a + neg_part b) (pos_part b + neg_part a)

infix 50 ◌≤ℤ◌
abbrev pub ◌≤ℤ◌ : ℤ → ℤ → Type 0
a ≤ℤ b = pos_part a + neg_part b ≤ pos_part b + neg_part a

infixl 65 ◌+ℤ◌ ◌-ℤ◌
infixl 70 ◌*ℤ◌
unfoldable pub ◌+ℤ◌ : ℤ → ℤ → ℤ
a +ℤ b = sub_ℕ (pos_part a + pos_part b) (neg_part a + neg_part b)

unfoldable pub ◌-ℤ◌ : ℤ → ℤ → ℤ
a -ℤ b = sub_ℕ (pos_part a + neg_part b) (neg_part a + pos_part b)

unfoldable pub ◌*ℤ◌ : ℤ → ℤ → ℤ
a *ℤ b =
    sub_ℕ (pos_part a * pos_part b + neg_part a * neg_part b)
      (pos_part a * neg_part b + neg_part a * pos_part b)

-- `x as u32` of an `i32`, and of any integer: its value modulo 2 ^ 32.
unfoldable pub to_u32 : ℤ → ℕ
to_u32 (pos n) = n % 2 ^ 32
to_u32 (negsuc n) = 2 ^ 32 - 1 - n % 2 ^ 32

-- `x as i32` of a `u32`: two's complement.
unfoldable pub to_i32 : ℕ → ℤ
to_i32 w = if ltb w (2 ^ 31) then pos w else negsuc (2 ^ 32 - 1 - w)

-- An exact result brought back into the range of `i32`.
unfoldable pub wrap_i32 : ℤ → ℤ
unfolding to_u32 to_i32
wrap_i32 z = to_i32 (to_u32 z)

-- The range of `i32`.
abbrev pub FitsI32 : ℤ → Type 0
FitsI32 z = (pos_part z < 2 ^ 31) × (neg_part z ≤ 2 ^ 31)

pub wrap_i32-fits : (z : ℤ) → FitsI32 z → wrap_i32 z ≡ z
unfolding wrap_i32
wrap_i32-fits z h = ground arith

pub wrap_i32-FitsI32 : (z : ℤ) → FitsI32 (wrap_i32 z)
unfolding wrap_i32
wrap_i32-FitsI32 z = ground arith

-- `a + b`, `a - b`, `a * b` and `a / 2` on `i32`, as a release build computes them.
unfoldable pub add_i32 : ℤ → ℤ → ℤ
unfolding ◌+ℤ◌ wrap_i32
add_i32 a b = wrap_i32 (a +ℤ b)

unfoldable pub sub_i32 : ℤ → ℤ → ℤ
unfolding ◌-ℤ◌ wrap_i32
sub_i32 a b = wrap_i32 (a -ℤ b)

unfoldable pub mul_i32 : ℤ → ℤ → ℤ
unfolding ◌*ℤ◌ wrap_i32
mul_i32 a b = wrap_i32 (a *ℤ b)

-- Division truncates towards zero.
unfoldable pub half_i32 : ℤ → ℤ
half_i32 (pos n) = pos (n / 2)
half_i32 (negsuc n) = sub_ℕ 0 (suc n / 2)

-- `a.max(b)` and `a.min(b)`
unfoldable pub max_ℤ : ℤ → ℤ → ℤ
max_ℤ a b = if ltb_ℤ a b then b else a

unfoldable pub min_ℤ : ℤ → ℤ → ℤ
min_ℤ a b = if ltb_ℤ b a then b else a

-- `a * b` and `a + b` on `u32`
unfoldable pub mul_u32 : ℕ → ℕ → ℕ
mul_u32 a b = (a * b) % 2 ^ 32

-- `x.max(0) as u32`
unfoldable pub clip_u32 : ℤ → ℕ
clip_u32 (pos n) = n % 2 ^ 32
clip_u32 (negsuc n) = 0

-- The parts of a sum and of a difference that fit: what `omega` reads with the operations shut.
pub add_i32_parts :
    (a b : ℤ)
    → pos_part a + pos_part b < 2 ^ 31 + neg_part a + neg_part b
    → neg_part a + neg_part b ≤ 2 ^ 31 + pos_part a + pos_part b
    → pos_part (add_i32 a b) + neg_part a + neg_part b
      ≡ neg_part (add_i32 a b) + pos_part a + pos_part b
unfolding add_i32
add_i32_parts a b h k = ground arith

pub sub_i32_parts :
    (a b : ℤ)
    → pos_part a + neg_part b < 2 ^ 31 + neg_part a + pos_part b
    → neg_part a + pos_part b ≤ 2 ^ 31 + pos_part a + neg_part b
    → pos_part (sub_i32 a b) + neg_part a + pos_part b
      ≡ neg_part (sub_i32 a b) + pos_part a + neg_part b
unfolding sub_i32
sub_i32_parts a b h k = ground arith

pub parts_excl : (a : ℤ) → (pos_part a ≡ 0) ⊎ (neg_part a ≡ 0)
parts_excl (pos n) = inr refl
parts_excl (negsuc n) = inl refl

pub eq_of_parts : (a b : ℤ) → pos_part a + neg_part b ≡ pos_part b + neg_part a → a ≡ b
eq_of_parts a b h = ground arith

pub to_i32-small : (w : ℕ) → w < 2 ^ 31 → to_i32 w ≡ pos w
unfolding to_i32
to_i32-small w h = ground arith
