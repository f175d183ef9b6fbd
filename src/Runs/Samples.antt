-- ===== src/Runs/Samples.antt =====
-- Runs of the API's downsampling.
use go_goodwe.Base.{ℕ, ◌≡◌, ◌≤◌, ◌*◌, refl, arith, List, [], ◌∷◌, length, get_elem?}
use go_goodwe.Api.Downsample.{every, downsample}
use go_goodwe.Api.Downsample.Even.{downsample_even}

abbrev five : List ℕ
five = 10 ∷ 20 ∷ 30 ∷ 40 ∷ 50 ∷ []

two_of_five : downsample five 2 ≡ 10 ∷ 40 ∷ []
unfolding downsample every
two_of_five = refl

downsample_even_example :
    (length (downsample five 2) ≤ 2) × (get_elem? (downsample five 2) 1 ≡ get_elem? five (1 * 3))
downsample_even_example = downsample_even five 2 1 (omega arith) (omega arith)
