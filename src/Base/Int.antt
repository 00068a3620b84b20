-- ===== src/Base/Int.antt =====
-- Go's `int`: signed integers over the native numbers, and the wrap-around of 64-bit addition.
use Prim.Native.Nat.{ℕ, zero, suc, ◌+◌, ◌-◌, ◌%◌, ◌^◌, ◌≤◌, ◌<◌}
use mathlib.Core.Path.{◌≡◌, refl}
use mathlib.Core.Logic.{◌↔◌}
use mathlib.Core.Bool.{Bool, true}
use native.Mathlib.Omega.{arith}
use zerohttp_example.Base.Tests.{leb, ltb, if◌then◌else◌}

-- `negsuc n` is -(n + 1).
pub data ℤ : Type 0 where
  pos : ℕ → ℤ
  negsuc : ℕ → ℤ

abbrev pub pos_part : ℤ → ℕ
pos_part (pos n) = n
pos_part (negsuc _) = 0

abbrev pub neg_part : ℤ → ℕ
neg_part (pos _) = 0
neg_part (negsuc n) = suc n

-- a - b, as an integer.
abbrev pub sub_ℕ : ℕ → ℕ → ℤ
sub_ℕ a b = if leb b a then pos (a - b) else negsuc (b - a - 1)

infixl 65 ◌+ℤ◌ ◌-ℤ◌
infix 50 ◌≤ℤ◌
unfoldable pub ◌+ℤ◌ : ℤ → ℤ → ℤ
a +ℤ b = sub_ℕ (pos_part a + pos_part b) (neg_part a + neg_part b)

unfoldable pub ◌-ℤ◌ : ℤ → ℤ → ℤ
a -ℤ b = sub_ℕ (pos_part a + neg_part b) (neg_part a + pos_part b)

abbrev pub ◌≤ℤ◌ : ℤ → ℤ → Type 0
a ≤ℤ b = pos_part a + neg_part b ≤ pos_part b + neg_part a

abbrev pub ltb_ℤ : ℤ → ℤ → Bool
ltb_ℤ a b = ltb (pos_part a + neg_part b) (pos_part b + neg_part a)

abbrev pub leb_ℤ : ℤ → ℤ → Bool
leb_ℤ a b = leb (pos_part a + neg_part b) (pos_part b + neg_part a)

abbrev pub eq_ℤ : ℤ → ℤ → Bool
eq_ℤ a b = if leb_ℤ a b then leb_ℤ b a else leb_ℤ a b

pub eq_ℤ_zero : (a : ℤ) → (eq_ℤ a (pos 0) ≡ true) ↔ (a ≡ pos 0)
eq_ℤ_zero (pos zero) = (λ _. refl, λ _. refl)
eq_ℤ_zero (pos (suc n)) = (λ h. ground arith, λ h. absurd (cc h))
eq_ℤ_zero (negsuc n) = (λ h. ground arith, λ h. absurd (cc h))

pub +ℤ_parts :
    (a b : ℤ)
    → pos_part (a +ℤ b) + neg_part a + neg_part b ≡ neg_part (a +ℤ b) + pos_part a + pos_part b
unfolding ◌+ℤ◌
+ℤ_parts a b = ground arith

pub -ℤ_parts :
    (a b : ℤ)
    → pos_part (a -ℤ b) + neg_part a + pos_part b ≡ neg_part (a -ℤ b) + pos_part a + neg_part b
unfolding ◌-ℤ◌
-ℤ_parts a b = ground arith

pub eq_of_parts : (a b : ℤ) → pos_part a + neg_part b ≡ pos_part b + neg_part a → a ≡ b
eq_of_parts a b h = ground arith

pub ruleset int_laws = (arith, +ℤ_parts, -ℤ_parts, eq_of_parts)

-- The value of an int64 is its residue modulo 2 ^ 64 in the range -2 ^ 63 ≤ z < 2 ^ 63.
unfoldable pub wrap64 : ℤ → ℤ
wrap64 (pos n) = sub_ℕ ((n + 2 ^ 63) % 2 ^ 64) (2 ^ 63)
wrap64 (negsuc n) = sub_ℕ (2 ^ 64 - 1 - (n + 2 ^ 63) % 2 ^ 64) (2 ^ 63)

-- Go's `a + b` on `int`.
unfoldable pub add_int : ℤ → ℤ → ℤ
unfolding wrap64
add_int a b = wrap64 (a +ℤ b)

pub wrap64-eq : (z : ℤ) → z ≤ℤ pos (2 ^ 63 - 1) → negsuc (2 ^ 63 - 1) ≤ℤ z → wrap64 z ≡ z
unfolding wrap64
wrap64-eq z h k = ground arith

pub add_int-pos : (a b : ℕ) → a + b < 2 ^ 63 → add_int (pos a) (pos b) ≡ pos (a + b)
unfolding add_int ◌+ℤ◌
add_int-pos a b h = ground arith
