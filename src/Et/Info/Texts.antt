-- ===== src/Et/Info/Texts.antt =====
-- Which texts the decoder gives back.
use go_goodwe.Base.{ℕ, zero, suc, ◌≤◌, false, [], ◌∷◌, ◌++◌, All, ◌≡◌, ◌≢◌, refl, ◌∙◌, ap, arith}
use go_goodwe.Base.Text.{Text, any_byte}
use go_goodwe.Et.Info.{
  utf8_rune, utf16_text, trim_right, is_low, is_unprintable, decode_goodwe_string,
}

-- A visible ASCII character.
abbrev pub IsVisible : ℕ → Type 0
IsVisible c = (33 ≤ c) × (c ≤ 126)

-- The text as UTF-16BE, and `n` times a padding byte.
abbrev pub wide : Text → Text
wide [] = []
wide (c ∷ s) = 0 ∷ c ∷ wide s

abbrev pub padding : ℕ → ℕ → Text
padding pad zero = []
padding pad (suc n) = pad ∷ padding pad n

visible-trim : (s t : Text) → All IsVisible s → trim_right t ≡ [] → trim_right (s ++ t) ≡ s
unfolding trim_right
visible-trim [] t h e = e
visible-trim (c ∷ s) t (v, h) e = ground (arith, visible-trim s t h e)

visible_trimmed : (s : Text) → All IsVisible s → trim_right s ≡ s
unfolding trim_right
visible_trimmed [] h = refl
visible_trimmed (c ∷ s) (v, h) = ground (arith, visible_trimmed s h)

spaces-trim : (n : ℕ) → trim_right (padding 32 n) ≡ []
unfolding trim_right
spaces-trim zero = refl
spaces-trim (suc n) = ground (arith, spaces-trim n)

no_low_byte : (s : Text) → All IsVisible s → any_byte is_low s ≡ false
no_low_byte [] h = refl
no_low_byte (c ∷ s) (v, h) = ground (arith, no_low_byte s h)

no_unprintable_byte : (s : Text) → All IsVisible s → any_byte is_unprintable s ≡ false
no_unprintable_byte [] h = refl
no_unprintable_byte (c ∷ s) (v, h) = ground (arith, no_unprintable_byte s h)

none_low : (s : Text) (n : ℕ) → All IsVisible s → any_byte is_low (s ++ padding 32 n) ≡ false
none_low [] zero h = refl
none_low [] (suc n) h = none_low [] n tt
none_low (c ∷ s) n (v, h) = ground (arith, none_low s n h)

all_printable :
    (s : Text) (n : ℕ) → All IsVisible s → any_byte is_unprintable (s ++ padding 32 n) ≡ false
all_printable [] zero h = refl
all_printable [] (suc n) h = all_printable [] n tt
all_printable (c ∷ s) n (v, h) = ground (arith, all_printable s n h)

wide_text : (s : Text) (n : ℕ) → All IsVisible s → utf16_text (wide s ++ wide (padding 0 n)) ≡ s
unfolding utf16_text utf8_rune
wide_text [] zero h = refl
wide_text [] (suc n) h = wide_text [] n tt
wide_text (c ∷ s) n (v, h) = ground (arith, wide_text s n h)

-- Plain bytes with nothing behind them.
pub decode_plain : (s : Text) → All IsVisible s → decode_goodwe_string s ≡ s
unfolding decode_goodwe_string
decode_plain s h = ground (arith, no_low_byte s h, no_unprintable_byte s h, visible_trimmed s h)

decode_wide :
    (s : Text) (n : ℕ)
    → All IsVisible s
    → s ≢ []
    → decode_goodwe_string (wide s ++ wide (padding 0 n)) ≡ s
unfolding decode_goodwe_string
decode_wide [] n h filled = absurd (filled refl)
decode_wide (c ∷ s) n (v, h) filled =
    ap trim_right (wide_text (c ∷ s) n (v, h)) ∙ visible_trimmed (c ∷ s) (v, h)

-- A text of visible ASCII characters is decoded to itself from plain bytes with any number of
-- spaces behind it, and, if it is not empty, from UTF-16 with any number of zero characters.
pub decode_goodwe_string_visible :
    (s : Text) (n : ℕ)
    → All IsVisible s
    → (decode_goodwe_string (s ++ padding 32 n) ≡ s)
      × (s ≢ [] → decode_goodwe_string (wide s ++ wide (padding 0 n)) ≡ s)
unfolding decode_goodwe_string
decode_goodwe_string_visible s n h = (
  ground
      (arith, none_low s n h, all_printable s n h, visible-trim s (padding 32 n) h (spaces-trim n)),
  decode_wide s n h,
)
