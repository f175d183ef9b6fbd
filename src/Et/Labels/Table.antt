-- ===== src/Et/Labels/Table.antt =====
-- A label dictionary, and its lookup.
use go_goodwe.Base.{ℕ, List, [], ◌∷◌, String, Option, none, some, ◌==◌, if◌then◌else◌}
use go_goodwe.Base.Int.{ℤ, pos, negsuc}

abbrev pub Labels : Type 0
Labels = List (ℕ × String)

unfoldable pub find_label : ℕ → Labels → Option String
find_label k [] = none
find_label k ((j, label) ∷ labels) = if j == k then some label else find_label k labels

-- No dictionary has a negative key.
unfoldable pub find_label_ℤ : ℤ → Labels → Option String
unfolding find_label
find_label_ℤ (pos k) labels = find_label k labels
find_label_ℤ (negsuc k) labels = none
