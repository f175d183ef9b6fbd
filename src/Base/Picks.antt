-- ===== src/Base/Picks.antt =====
-- What a query takes from a table.
use mathlib.Core.List.{List, [], ◌∷◌}
use go_goodwe.Base.Lists.{All}

-- The second list has one item for each item of the first that is related to any, in their order.
pub data Picks {ℓ κ} {A : Type ℓ} {B : Type κ} (Q : A → B → Type 0)
    : List A → List B → Type (ℓ ⊔ κ) where
  done : Picks Q [] []
  taken :
      {x : A} {y : B} {xs : List A} {ys : List B}
      → Q x y
      → Picks Q xs ys
      → Picks Q (x ∷ xs) (y ∷ ys)
  passed :
      {x : A} {xs : List A} {ys : List B}
      → ((y : B) → ¬ (Q x y))
      → Picks Q xs ys
      → Picks Q (x ∷ xs) ys

module _ {ℓ κ} {A : Type ℓ} {B : Type κ} (Q : A → B → Type 0) where
  -- What is picked has what the related items have.
  pub Picks-All :
      (P : A → Type 0) (R : B → Type 0)
      → ((x : A) (y : B) → P x → Q x y → R y)
      → (xs : List A) (ys : List B) → Picks Q xs ys
      → All P xs
      → All R ys
  Picks-All P R carry [] _ done h = tt
  Picks-All P R carry (x ∷ xs) _ (taken {y = y} q picks) (h, hs) =
      (carry x y h q, Picks-All P R carry xs _ picks hs)
  Picks-All P R carry (x ∷ xs) ys (passed _ picks) (h, hs) = Picks-All P R carry xs ys picks hs
