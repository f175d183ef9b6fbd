-- ===== src/Base/Text/Decimal.antt =====
-- Decimal digits read back.
use Prim.Native.Nat.{ℕ, zero, suc, ◌+◌, ◌-◌, ◌*◌, ◌/◌, ◌%◌, ◌≤◌, ◌<◌, ◌^◌}
use mathlib.Core.Path.{◌≡◌, ◌∙◌, refl, ap}
use mathlib.Core.Logic.{◌≢◌, inl, inr}
use mathlib.Core.Bool.{Bool, true, false, ◌&&◌}
use mathlib.Core.List.{[], ◌∷◌, ◌++◌}
use native.Mathlib.Omega.{arith}
use package.go_goodwe.Base.Tests.{
  ltb, leb, ltb→lt, ltb_false→le, lt→ltb, ◌==◌, if◌then◌else◌, Bool-cases,
}
use mathlib.Core.Option.{Option, none, some}
use package.go_goodwe.Base.Int.{ℤ, pos, sub_ℕ}
use package.go_goodwe.Base.Lists.{All}
use package.go_goodwe.Base.Text.{Text, decimal, decimal_from}

abbrev pub is_digit : ℕ → Bool
is_digit c = leb b'0' c && leb c b'9'

abbrev pub IsDigit : ℕ → Type 0
IsDigit c = (48 ≤ c) × (c ≤ 57)

-- The digits that a text begins with.
unfoldable pub digits_prefix : Text → Text
digits_prefix [] = []
digits_prefix (c ∷ s) = let more = digits_prefix s in if is_digit c then c ∷ more else []

-- The number that digits write, behind the number `v`.
unfoldable pub value_from : ℕ → Text → ℕ
value_from v [] = v
value_from v (c ∷ s) = value_from (v * 10 + (c - b'0')) s

digits_prefix-append :
    (s rest : Text) (c : ℕ) → All IsDigit s → is_digit c ≡ false → digits_prefix (s ++ c ∷ rest) ≡ s
unfolding digits_prefix
digits_prefix-append [] rest c h stop = ground (arith, stop)
digits_prefix-append (d ∷ s) rest c (here, h) stop =
    ground (arith, digits_prefix-append s rest c h stop)

decimal_from-All : (f n : ℕ) (acc : Text) → All IsDigit acc → All IsDigit (decimal_from f n acc)
unfolding decimal_from
decimal_from-All zero n acc h = h
decimal_from-All (suc f) n acc h = elim (Bool-cases (ltb n 10)) [
  | inl small ↦ rw small (let d = ltb→lt n 10 small in (omega arith, h))
  | inr large ↦ rw large (decimal_from-All f (n / 10) ((b'0' + n % 10) ∷ acc) (omega arith, h))
]

decimal_from-value :
    (f n : ℕ) (acc : Text) → n < f → value_from 0 (decimal_from f n acc) ≡ value_from n acc
unfolding decimal_from value_from
decimal_from-value zero n acc h = elim h [ ]
decimal_from-value (suc f) n acc h = elim (Bool-cases (ltb n 10)) [
  | inl small ↦ rw small (ap (λ v. value_from v acc) (omega arith))
  | inr large ↦
      let big = ltb_false→le n 10 large in
      let split : n / 10 * 10 + (48 + n % 10 - 48) ≡ n = omega arith in
      rw large (
        decimal_from-value f (n / 10) ((b'0' + n % 10) ∷ acc) (omega arith)
        ∙ ap (λ v. value_from v acc) split)
]

decimal_from-ne-nil : (f n c : ℕ) (acc : Text) → decimal_from f n (c ∷ acc) ≢ []
unfolding decimal_from
decimal_from-ne-nil zero n c acc e = cc
decimal_from-ne-nil (suc f) n c acc e =
    ground (arith, decimal_from-ne-nil f (n / 10) (b'0' + n % 10) (c ∷ acc), e)

-- The decimal text of a number is not empty, its digits are all that is read of it in front of
-- another character, and they write that number.
pub decimal-ne-nil : (n : ℕ) → decimal n ≢ []
unfolding decimal
decimal-ne-nil n = ground (arith, decimal_from-ne-nil n (n / 10) (b'0' + n % 10) [])

pub digits_prefix-decimal :
    (n c : ℕ) (rest : Text) → is_digit c ≡ false → digits_prefix (decimal n ++ c ∷ rest) ≡ decimal n
unfolding decimal
digits_prefix-decimal n c rest stop =
    digits_prefix-append (decimal n) rest c (decimal_from-All (suc n) n [] tt) stop

pub value_from-decimal : (n : ℕ) → value_from 0 (decimal n) ≡ n
unfolding decimal value_from
value_from-decimal n = decimal_from-value (suc n) n [] (omega arith)

abbrev pub all_digits : Text → Bool
all_digits [] = true
all_digits (c ∷ s) = is_digit c && all_digits s

-- `strconv.ParseInt(s, 10, 64)`, which is `strconv.Atoi` where an int has 64 bits; `none` is an
-- error.
abbrev pub parse_digits : (ℕ → Option ℤ) → Text → Option ℤ
parse_digits signed [] = none
parse_digits signed (c ∷ s) = if all_digits (c ∷ s) then signed (value_from 0 (c ∷ s)) else none

abbrev pub positive : ℕ → Option ℤ
positive n = if ltb n (2 ^ 63) then some (pos n) else none

abbrev pub negative : ℕ → Option ℤ
negative n = if leb n (2 ^ 63) then some (sub_ℕ 0 n) else none

unfoldable pub parse_int : Text → Option ℤ
parse_int [] = none
parse_int (c ∷ s) =
    if c == b'-'
    then parse_digits negative s
    else if c == b'+'
    then parse_digits positive s
    else parse_digits positive (c ∷ s)

all_digits-All : (s : Text) → All IsDigit s → all_digits s ≡ true
all_digits-All [] h = refl
all_digits-All (c ∷ s) (h, hs) = ground (arith, h, all_digits-All s hs)

parse_int-digits :
    (s : Text)
    → s ≢ []
    → All IsDigit s
    → value_from 0 s < 2 ^ 63
    → parse_int s ≡ some (pos (value_from 0 s))
unfolding parse_int
parse_int-digits [] nonempty h small = absurd (nonempty refl)
parse_int-digits (c ∷ s) nonempty (h, hs) small =
    ground (arith, h, all_digits-All (c ∷ s) (h, hs), lt→ltb (value_from 0 (c ∷ s)) (2 ^ 63) small)

pub parse_int-decimal : (n : ℕ) → n < 2 ^ 63 → parse_int (decimal n) ≡ some (pos n)
unfolding decimal
parse_int-decimal n small =
    let value = value_from-decimal n in
    parse_int-digits (decimal n) (decimal-ne-nil n) (decimal_from-All (suc n) n [] tt)
      (omega (arith, value, small))
    ∙ ap (λ v. some (pos v)) value
