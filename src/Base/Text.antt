-- ===== src/Base/Text.antt =====
-- Text as the list of its bytes, and what the program uses of `strings` and `fmt`.
pub mod Decimal
use Prim.Native.Nat.{ℕ, zero, suc, ◌+◌, ◌-◌, ◌/◌, ◌%◌}
use Prim.Native.Char.{code}
use Prim.Native.String.{String}
use mathlib.Core.Bool.{Bool, true, false, ◌&&◌, ◌||◌}
use mathlib.Core.List.{List, [], ◌∷◌, ◌++◌}
use package.go_goodwe.Base.Tests.{ltb, ◌==◌, if◌then◌else◌}

abbrev pub Text : Type 0
Text = List ℕ

abbrev pub codes : String → Text
codes String.[] = []
codes (String.◌∷◌ c s) = code c ∷ codes s

-- `strings.HasPrefix`, `strings.Contains`
abbrev pub starts_with : Text → Text → Bool
starts_with s [] = true
starts_with [] (p ∷ ps) = false
starts_with (c ∷ s) (p ∷ ps) = c == p && starts_with s ps

abbrev pub contains : Text → Text → Bool
contains [] p = starts_with [] p
contains (c ∷ s) p = starts_with (c ∷ s) p || contains s p

-- `%02X` and `%04X` of a byte and of a 16-bit word
abbrev pub hex_digit : ℕ → ℕ
hex_digit d = if ltb d 10 then b'0' + d else b'A' + (d - 10)

abbrev pub hex2 : ℕ → Text
hex2 b = hex_digit (b / 16) ∷ hex_digit (b % 16) ∷ []

abbrev pub hex4 : ℕ → Text
hex4 w = hex2 (w / 256) ++ hex2 (w % 256)

-- `%d` of a number that is not negative; a number has no more decimal digits than its value plus one.
decimal_from : ℕ → ℕ → Text → Text
decimal_from zero n acc = acc
decimal_from (suc f) n acc =
    let more = decimal_from f (n / 10) ((b'0' + n % 10) ∷ acc) in
    if ltb n 10 then (b'0' + n) ∷ acc else more

unfoldable pub decimal : ℕ → Text
unfolding decimal_from
decimal n = decimal_from (suc n) n []

-- `==` on strings, and the test against "".
abbrev pub equal_text : Text → Text → Bool
equal_text [] [] = true
equal_text [] (b ∷ bs) = false
equal_text (a ∷ rest) [] = false
equal_text (a ∷ rest) (b ∷ bs) = a == b && equal_text rest bs

abbrev pub is_empty : Text → Bool
is_empty [] = true
is_empty (c ∷ cs) = false

abbrev pub any_byte : (ℕ → Bool) → Text → Bool
any_byte p [] = false
any_byte p (c ∷ s) = p c || any_byte p s
