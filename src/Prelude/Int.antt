-- ===== src/Prelude/Int.antt =====
-- The C `int`: signed integers over the native numbers, under the library's names.
use Prim.Native.Nat.{ℕ, suc, ◌+◌, ◌-◌, ◌%◌, ◌≤◌, ◌<◌}
use mathlib.Core.Path.{◌≡◌}
use mathlib.Core.Bool.{Bool, true}
use native.Mathlib.Omega.{arith}
use pyramid.Prelude.Tests.{ltb, leb, if◌then◌else◌}

-- `negsuc n` is -(n + 1).
pub data ℤ : Type 0 where
  pos : ℕ → ℤ
  negsuc : ℕ → ℤ

abbrev pub pos_part : ℤ → ℕ
pos_part (pos n) = n
pos_part (negsuc n) = 0

abbrev pub neg_part : ℤ → ℕ
neg_part (pos n) = 0
neg_part (negsuc n) = suc n

-- a - b, as an integer.
abbrev pub sub_ℕ : ℕ → ℕ → ℤ
sub_ℕ a b = if leb b a then pos (a - b) else negsuc (b - a - 1)

infixl 65 ◌-ℤ◌
unfoldable pub ◌-ℤ◌ : ℤ → ℤ → ℤ
a -ℤ b = sub_ℕ (pos_part a + neg_part b) (neg_part a + pos_part b)

abbrev pub ltb_ℤ : ℤ → ℤ → Bool
ltb_ℤ a b = ltb (pos_part a + neg_part b) (pos_part b + neg_part a)

abbrev pub leb_ℤ : ℤ → ℤ → Bool
leb_ℤ a b = leb (pos_part a + neg_part b) (pos_part b + neg_part a)

pub pos_sub : (a b : ℕ) → b ≤ a → pos a -ℤ pos b ≡ pos (a - b)
unfolding ◌-ℤ◌
pos_sub a b h = ground arith

-- The `int` with this bit pattern.
abbrev pub to_int : ℕ → ℤ
to_int w = if ltb w 2147483648 then pos w else negsuc (4294967295 - w)

-- The `int` that a C integer is cut to.
unfoldable pub as_int : ℤ → ℤ
as_int (pos n) = to_int (n % 4294967296)
as_int (negsuc n) = to_int (4294967295 - n % 4294967296)

pub as_int-small : (n : ℕ) → n < 2147483648 → as_int (pos n) ≡ pos n
unfolding as_int
as_int-small n h = ground arith

-- The values of an `int`.
abbrev pub IsInt : ℤ → Type 0
IsInt n = (leb_ℤ (negsuc 2147483647) n ≡ true) × (leb_ℤ n (pos 2147483647) ≡ true)

pub as_int-IsInt : (n : ℤ) → IsInt (as_int n)
unfolding as_int
as_int-IsInt (pos n) = ground arith
as_int-IsInt (negsuc n) = ground arith

pub as_int-of_IsInt : (n : ℤ) → IsInt n → as_int n ≡ n
unfolding as_int
as_int-of_IsInt (pos n) h = ground arith
as_int-of_IsInt (negsuc n) h = ground arith
