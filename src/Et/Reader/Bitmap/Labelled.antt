-- ===== src/Et/Reader/Bitmap/Labelled.antt =====
-- The labels of the bits that are set.
use go_goodwe.Base.{
  ℕ, zero, suc, ◌+◌, ◌/◌, ◌%◌, ◌^◌, ◌==◌, bit_and, List, [], ◌∷◌, ◌++◌, String, Option, none, some,
  Bool-cases, inl, inr, ◌≡◌, ◌≢◌, refl, sym, subst, ap, ◌∙◌, arith,
}
use Prim.Native.Nat.{min, digits, bit_and-bitwise}
use native.Mathlib.Nat.{div-div-eq-div-mul, pow-suc}
use mathlib.Core.List.{append_assoc}
use go_goodwe.Base.Picks.{Picks, done, taken, passed}
use go_goodwe.Base.Text.{Text, codes}
use go_goodwe.Et.Labels.Table.{Labels, find_label}
use go_goodwe.Et.Reader.Bitmap.{label_part, bitmap_parts, append_parts, join_parts, decode_bitmap}

digits_zero_lem : (n a : ℕ) → digits (λ b. zero) min n a 0 ≡ 0
digits_zero_lem zero zero = refl
digits_zero_lem zero (suc a) = refl
digits_zero_lem (suc n) zero = refl
digits_zero_lem (suc n) (suc a) = omega (arith, digits_zero_lem n (suc a / 2))

lowest_bit : (v : ℕ) → bit_and v 1 ≡ v % 2
lowest_bit zero = refl
lowest_bit (suc v) = omega (arith, bit_and-bitwise (suc v) 1, digits_zero_lem v (suc v / 2))

-- The bits from `i` on, `count` of them.
abbrev pub bits_from : ℕ → ℕ → List ℕ
bits_from zero i = []
bits_from (suc count) i = i ∷ bits_from count (i + 1)

-- The bit is set in `v`, and has a label that is not empty.
abbrev pub IsShown : ℕ → Labels → ℕ → Text → Type 0
IsShown v labels i part =
    (v / 2 ^ i % 2 ≡ 1)
    × ((label : String) × (find_label i labels ≡ some label) × (codes label ≡ part))
    × (part ≢ [])

-- Texts with ", " between them.
abbrev pub listed : List Text → Text
listed [] = []
listed (p ∷ []) = p
listed (p ∷ q ∷ parts) = p ++ (codes ", " ++ listed (q ∷ parts))

halved : (v i : ℕ) → v / 2 ^ i / 2 ≡ v / 2 ^ (i + 1)
halved v i =
    let next : suc i ≡ i + 1 = omega arith in
    div-div-eq-div-mul v (2 ^ i) 2 ∙ ap (λ d. v / d) (sym (pow-suc 2 i)) ∙ ap (λ k. v / 2 ^ k) next

label_part-Picks :
    (v i : ℕ) (labels : Labels) (bits : List ℕ) (parts : List Text)
    → v / 2 ^ i % 2 ≡ 1
    → Picks (IsShown v labels) bits parts
    → Picks (IsShown v labels) (i ∷ bits) (label_part i labels ++ parts)
unfolding label_part
label_part-Picks v i labels bits parts set picks = by_label (find_label i labels) refl
  where
    by_codes :
        (label : String) (part : Text)
        → find_label i labels ≡ some label
        → codes label ≡ part
        → Picks (IsShown v labels) (i ∷ bits) (label_part i labels ++ parts)
    by_codes label [] found empty =
        subst (λ more. Picks (IsShown v labels) (i ∷ bits) (more ++ parts)) {x = []}
          (ground (arith, found, empty))
          (passed
            (λ part (set, (other, found', same), filled).
              (let equal : codes other ≡ codes label = cc (found, found') in
                filled (sym same ∙ equal ∙ empty)))
            picks)
    by_codes label (c ∷ cs) found filled =
        subst (λ more. Picks (IsShown v labels) (i ∷ bits) (more ++ parts)) {x = (c ∷ cs) ∷ []}
          (ground (arith, found, filled))
          (taken {y = c ∷ cs} (set, (label, found, filled), λ e. cc) picks)

    by_label :
        (o : Option String)
        → find_label i labels ≡ o
        → Picks (IsShown v labels) (i ∷ bits) (label_part i labels ++ parts)
    by_label none missing =
        subst (λ more. Picks (IsShown v labels) (i ∷ bits) (more ++ parts)) {x = []}
          (ground (arith, missing)) (passed (λ part (set, (other, found, same), filled). cc) picks)
    by_label (some label) found = by_codes label (codes label) found refl

bitmap_parts-Picks :
    (count i v : ℕ) (labels : Labels)
    → Picks (IsShown v labels) (bits_from count i) (bitmap_parts count i (v / 2 ^ i) labels)
unfolding bitmap_parts
bitmap_parts-Picks zero i v labels = done
bitmap_parts-Picks (suc count) i v labels =
    let rest =
      subst
        (λ w.
          Picks (IsShown v labels) (bits_from count (i + 1)) (bitmap_parts count (i + 1) w labels))
        (sym (halved v i)) (bitmap_parts-Picks count (i + 1) v labels) in
    by_bit rest (v / 2 ^ i % 2) refl
  where
    by_bit :
        Picks
          (IsShown v labels)
          (bits_from count (i + 1))
          (bitmap_parts count (i + 1) (v / 2 ^ i / 2) labels)
        → (b : ℕ) → v / 2 ^ i % 2 ≡ b
        → Picks
            (IsShown v labels)
            (bits_from (suc count) i)
            (bitmap_parts (suc count) i (v / 2 ^ i) labels)
    by_bit rest b here = elim (Bool-cases (bit_and (v / 2 ^ i) 1 == 1)) [
      | inl set ↦
          subst
            (λ more.
              Picks (IsShown v labels) (bits_from (suc count) i)
                (more ++ bitmap_parts count (i + 1) (v / 2 ^ i / 2) labels))
            {x = label_part i labels} (ground (arith, set))
            (label_part-Picks v i labels (bits_from count (i + 1)) _
              (ground (arith, set, lowest_bit (v / 2 ^ i))) rest)
      | inr clear ↦
          subst
            (λ more.
              Picks (IsShown v labels) (bits_from (suc count) i)
                (more ++ bitmap_parts count (i + 1) (v / 2 ^ i / 2) labels))
            {x = []} (ground (arith, clear))
            (passed (λ part (set, _, _). ground (arith, clear, set, lowest_bit (v / 2 ^ i))) rest)
    ]

listed-append :
    (p x : Text) (parts : List Text) → listed ((p ++ x) ∷ parts) ≡ p ++ listed (x ∷ parts)
listed-append p x [] = refl
listed-append p x (q ∷ parts) = append_assoc p x (codes ", " ++ listed (q ∷ parts))

append_parts-listed : (p : Text) (parts : List Text) → append_parts p parts ≡ listed (p ∷ parts)
unfolding append_parts
append_parts-listed p [] = refl
append_parts-listed p (r ∷ parts) =
    append_parts-listed (p ++ (codes ", " ++ r)) parts
    ∙ listed-append p (codes ", " ++ r) parts
    ∙ ap (λ t. p ++ t) (listed-append (codes ", ") r parts)

join_parts-listed : (parts : List Text) → join_parts parts ≡ listed parts
unfolding join_parts
join_parts-listed [] = refl
join_parts-listed (p ∷ parts) = append_parts-listed p parts

-- A 32-bit bitmap is decoded to the labels of its set bits, the lowest bit first, with ", " between
-- them; a bit without a label, or with an empty one, adds nothing.
pub decode_bitmap-listed :
    (v : ℕ) (labels : Labels)
    → (parts : List Text) × Picks (IsShown v labels) (bits_from 32 0) parts
      × (decode_bitmap v labels ≡ listed parts)
unfolding decode_bitmap
decode_bitmap-listed v labels = (
  bitmap_parts 32 0 v labels,
  subst (λ w. Picks (IsShown v labels) (bits_from 32 0) (bitmap_parts 32 0 w labels)) (sym whole)
      (bitmap_parts-Picks 32 0 v labels),
  join_parts-listed (bitmap_parts 32 0 v labels),
)
  where
    whole : v ≡ v / 2 ^ 0
    whole = omega arith
