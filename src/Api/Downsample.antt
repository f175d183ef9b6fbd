-- ===== src/Api/Downsample.antt =====
-- downsample of pkg/api/handler.go.
pub mod Even
use go_goodwe.Base.{
  ℕ, zero, suc, ◌+◌, ◌-◌, ◌/◌, leb, if◌then◌else◌, List, [], ◌∷◌, Option, none, some, length,
  get_elem?,
}

module _ {ℓ} {A : Type ℓ} where
  -- The loop `for i := 0; i < len(samples); i += step` from index `i` on; its fuel counts rounds.
  unfoldable pub every : ℕ → ℕ → ℕ → List A → List A
  every zero step i samples = []
  every (suc rounds) step i samples = elim (get_elem? samples i) [
    | none ↦ []
    | some x ↦ x ∷ every rounds step (i + step) samples
  ]

  -- The index grows in every round, so there are at most as many rounds as samples.
  unfoldable pub downsample : List A → ℕ → List A
  unfolding every
  downsample samples max =
      if leb (length samples) max
      then samples
      else every (length samples) ((length samples + max - 1) / max) 0 samples
