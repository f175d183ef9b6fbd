-- ===== src/Db/Prune/Batches.antt =====
-- Deleting in batches: what one batch leaves, and when no batch is left.
use go_goodwe.Base.{
  ℕ, zero, suc, ◌≤◌, Bool, true, false, not, Bool-cases, List, [], ◌∷◌, length, inl, inr, ◌≡◌, refl,
  arith,
}
use go_goodwe.Db.Tables.{keep}
use go_goodwe.Db.Prune.{remove}

module _ {ℓ} {A : Type ℓ} where
  pub length-remove : (n : ℕ) (p : A → Bool) (xs : List A) → length (remove n p xs) ≤ length xs
  length-remove zero p xs = omega arith
  length-remove (suc n) p [] = omega arith
  length-remove (suc n) p (x ∷ xs) = elim (Bool-cases (p x)) [
    | inl taken ↦ ground (arith, taken, length-remove n p xs)
    | inr left ↦ ground (arith, left, length-remove (suc n) p xs)
  ]

  -- The rows that no batch is to delete stay.
  pub keep-remove :
      (n : ℕ) (p q : A → Bool) (xs : List A)
      → ((x : A) → p x ≡ true → q x ≡ false)
      → keep q (remove n p xs) ≡ keep q xs
  keep-remove zero p q xs h = refl
  keep-remove (suc n) p q [] h = refl
  keep-remove (suc n) p q (x ∷ xs) h = elim (Bool-cases (p x)) [
    | inl taken ↦ ground (arith, taken, h x taken, keep-remove n p q xs h)
    | inr left ↦ ground (arith, left, keep-remove (suc n) p q xs h)
  ]

  -- A batch that deletes nothing was the last.
  pub remove_last :
      (n : ℕ) (p : A → Bool) (xs : List A)
      → length (remove (suc n) p xs) ≡ length xs
      → keep (λ x. not (p x)) xs ≡ xs
  remove_last n p [] same = refl
  remove_last n p (x ∷ xs) same = elim (Bool-cases (p x)) [
    | inl taken ↦ absurd (ground (arith, taken, same, length-remove n p xs))
    | inr left ↦ ground (arith, left, remove_last n p xs (ground (arith, left, same)))
  ]

  pub remove_same :
      (n : ℕ) (p : A → Bool) (xs : List A) → length (remove n p xs) ≡ length xs → remove n p xs ≡ xs
  remove_same zero p xs same = refl
  remove_same (suc n) p [] same = refl
  remove_same (suc n) p (x ∷ xs) same = elim (Bool-cases (p x)) [
    | inl taken ↦ absurd (ground (arith, taken, same, length-remove n p xs))
    | inr left ↦ ground (arith, left, remove_same (suc n) p xs (ground (arith, left, same)))
  ]
