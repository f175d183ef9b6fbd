-- ===== src/Et/Info.antt =====
-- decodeGoodweString of et/et.go, with what it uses of Go's strings: the conversion of runes, the
-- hexadecimal encoding, TrimRight and SplitN.
pub mod Texts
use go_goodwe.Base.{
  ℕ, zero, suc, ◌+◌, ◌*◌, ◌-◌, ◌/◌, ◌%◌, ltb, leb, ◌==◌, ◌&&◌, ◌||◌, Bool, if◌then◌else◌, List, [],
  ◌∷◌, ◌++◌, Option, none, some,
}
use go_goodwe.Base.Text.{Text, is_empty, any_byte}

-- `string([]rune{r})` of a 16-bit value: UTF-8, and U+FFFD for a surrogate.
unfoldable pub utf8_rune : ℕ → Text
utf8_rune r =
    if ltb r 0x80
    then r ∷ []
    else (if ltb r 0x800
        then (0xC0 + r / 64) ∷ (0x80 + r % 64) ∷ []
        else (if leb 0xD800 r && leb r 0xDFFF
            then 0xEF ∷ 0xBF ∷ 0xBD ∷ []
            else (0xE0 + r / 4096) ∷ (0x80 + r / 64 % 64) ∷ (0x80 + r % 64) ∷ []))

-- The loop over two bytes at a time; a zero is skipped, and a last odd byte is left out.
unfoldable pub utf16_text : Text → Text
unfolding utf8_rune
utf16_text [] = []
utf16_text (hi ∷ []) = []
utf16_text (hi ∷ lo ∷ rest) =
    (if hi * 256 + lo == 0 then [] else utf8_rune (hi * 256 + lo)) ++ utf16_text rest

-- The cutset " \t\n\r\x00".
abbrev pub is_blank : ℕ → Bool
is_blank c = c == 32 || c == 9 || c == 10 || c == 13 || c == 0

unfoldable pub trim_right : Text → Text
trim_right [] = []
trim_right (c ∷ s) = let t = trim_right s in if is_blank c && is_empty t then [] else c ∷ t

abbrev pub hex_lower : ℕ → ℕ
hex_lower d = if ltb d 10 then b'0' + d else b'a' + (d - 10)

unfoldable pub hex_text : Text → Text
hex_text [] = []
hex_text (b ∷ s) = hex_lower (b / 16) ∷ hex_lower (b % 16) ∷ hex_text s

abbrev pub is_low : ℕ → Bool
is_low b = ltb b 32

abbrev pub is_unprintable : ℕ → Bool
is_unprintable b = ltb b 32 || ltb 126 b

unfoldable pub decode_goodwe_string : Text → Text
unfolding utf16_text trim_right hex_text
decode_goodwe_string bytes =
    if any_byte is_low bytes
    then trim_right (utf16_text bytes)
    else (if any_byte is_unprintable bytes then hex_text bytes else trim_right bytes)

-- The text in front of the first separator, and behind it.
unfoldable pub cut : ℕ → Text → Option (Text × Text)
cut sep [] = none
cut sep (c ∷ s) = elim (c == sep) [
  | Bool.true ↦ some ([], s)
  | Bool.false ↦ elim (cut sep s) [ none ↦ none | some (before, after) ↦ some (c ∷ before, after) ]
]

-- `strings.SplitN(s, sep, n)` for a positive `n`.
unfoldable pub split_n : ℕ → ℕ → Text → List Text
unfolding cut
split_n sep zero s = []
split_n sep (suc zero) s = s ∷ []
split_n sep (suc (suc n)) s = elim (cut sep s) [
  | none ↦ s ∷ []
  | some (before, after) ↦ before ∷ split_n sep (suc n) after
]
