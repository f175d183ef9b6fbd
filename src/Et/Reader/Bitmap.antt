-- ===== src/Et/Reader/Bitmap.antt =====
-- decodeBitmap of et/registry.go.
pub mod Labelled
use go_goodwe.Base.{ℕ, zero, suc, ◌+◌, ◌/◌, ◌==◌, if◌then◌else◌, bit_and, none, some}
use go_goodwe.Base.{List, [], ◌∷◌, ◌++◌}
use go_goodwe.Base.Text.{Text, codes}
use go_goodwe.Et.Labels.Table.{Labels, find_label}

-- `if s, ok := labels[i]; ok && s != ""`
unfoldable pub label_part : ℕ → Labels → List Text
label_part i labels = elim (find_label i labels) [
  | none ↦ []
  | some label ↦ elim (codes label) [ [] ↦ [] | c ∷ cs ↦ (c ∷ cs) ∷ [] ]
]

-- The loop over `i`, with `fuel` rounds left: the parts found from bit `i` on.
unfoldable pub bitmap_parts : ℕ → ℕ → ℕ → Labels → List Text
bitmap_parts zero i v labels = []
bitmap_parts (suc fuel) i v labels =
    (if bit_and v 1 == 1 then label_part i labels else [])
    ++ bitmap_parts fuel (i + 1) (v / 2) labels

-- The parts with ", " between them.
unfoldable pub append_parts : Text → List Text → Text
append_parts result [] = result
append_parts result (p ∷ parts) = append_parts (result ++ (codes ", " ++ p)) parts

unfoldable pub join_parts : List Text → Text
unfolding append_parts
join_parts [] = []
join_parts (p ∷ parts) = append_parts p parts

unfoldable pub decode_bitmap : ℕ → Labels → Text
unfolding join_parts bitmap_parts label_part
decode_bitmap v labels = join_parts (bitmap_parts 32 0 v labels)
