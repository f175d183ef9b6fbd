-- ===== src/Base/Int.antt =====
-- Signed integers over the native numbers, under the library's names.
use Prim.Native.Nat.{ℕ, suc, ◌+◌, ◌-◌, ◌*◌, ◌≤◌, ◌^◌}
use mathlib.Core.Bool.{Bool}
use package.go_goodwe.Base.Tests.{ltb, leb, if◌then◌else◌}

-- `negsuc n` is -(n + 1).
pub data ℤ : Type 0 where
  pos : ℕ → ℤ
  negsuc : ℕ → ℤ

abbrev pub pos_part : ℤ → ℕ
pos_part (pos n) = n
pos_part (negsuc n) = 0

abbrev pub neg_part : ℤ → ℕ
neg_part (pos n) = 0
neg_part (negsuc n) = suc n

-- a - b, as an integer.
abbrev pub sub_ℕ : ℕ → ℕ → ℤ
sub_ℕ a b = if leb b a then pos (a - b) else negsuc (b - a - 1)

infixl 65 ◌+ℤ◌ ◌-ℤ◌
infixl 70 ◌*ℤ◌
infix 50 ◌≤ℤ◌
unfoldable pub ◌+ℤ◌ : ℤ → ℤ → ℤ
a +ℤ b = sub_ℕ (pos_part a + pos_part b) (neg_part a + neg_part b)

unfoldable pub ◌-ℤ◌ : ℤ → ℤ → ℤ
a -ℤ b = sub_ℕ (pos_part a + neg_part b) (neg_part a + pos_part b)

unfoldable pub ◌*ℤ◌ : ℤ → ℤ → ℤ
a *ℤ b =
    sub_ℕ (pos_part a * pos_part b + neg_part a * neg_part b)
      (pos_part a * neg_part b + neg_part a * pos_part b)

abbrev pub ◌≤ℤ◌ : ℤ → ℤ → Type 0
a ≤ℤ b = pos_part a + neg_part b ≤ pos_part b + neg_part a

abbrev pub ltb_ℤ : ℤ → ℤ → Bool
ltb_ℤ a b = ltb (pos_part a + neg_part b) (pos_part b + neg_part a)

abbrev pub leb_ℤ : ℤ → ℤ → Bool
leb_ℤ a b = leb (pos_part a + neg_part b) (pos_part b + neg_part a)

-- `int8(b)`, `int16(w)`, `int32(d)`: the integer that a bit pattern stands for.
abbrev pub signed8 : ℕ → ℤ
signed8 w = if ltb w (2 ^ 7) then pos w else negsuc (2 ^ 8 - w - 1)

abbrev pub signed16 : ℕ → ℤ
signed16 w = if ltb w (2 ^ 15) then pos w else negsuc (2 ^ 16 - w - 1)

abbrev pub signed32 : ℕ → ℤ
signed32 w = if ltb w (2 ^ 31) then pos w else negsuc (2 ^ 32 - w - 1)
