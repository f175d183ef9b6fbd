-- ===== src/Db/Keep.antt =====
-- The rows that a test holds of.
use go_goodwe.Base.{
  ◌≤◌, ◌&&◌, Bool, true, false, not, Bool-cases, if◌then◌else◌, List, [], ◌∷◌, map, length, All,
  All-if, inl, inr, ◌≡◌, refl, arith,
}
use go_goodwe.Base.Picks.{Picks, done, taken, passed}
use go_goodwe.Db.Tables.{keep}

module _ {ℓ} {A : Type ℓ} where
  pub keep-keep :
      (p q r : A → Bool) (xs : List A)
      → ((x : A) → r x ≡ (p x && q x))
      → keep q (keep p xs) ≡ keep r xs
  keep-keep p q r [] h = refl
  keep-keep p q r (x ∷ xs) h = elim (Bool-cases (p x)) [
    | inl held ↦ elim (Bool-cases (q x)) [
      | inl both ↦ ground (arith, held, both, h x, keep-keep p q r xs h)
      | inr one ↦ ground (arith, held, one, h x, keep-keep p q r xs h)
    ]
    | inr dropped ↦ ground (arith, dropped, h x, keep-keep p q r xs h)
  ]

  pub keep_same : (p q : A → Bool) (xs : List A) → All (λ x. p x ≡ q x) xs → keep p xs ≡ keep q xs
  keep_same p q [] h = refl
  keep_same p q (x ∷ xs) (h, hs) = elim (Bool-cases (q x)) [
    | inl held ↦ ground (arith, held, h, keep_same p q xs hs)
    | inr dropped ↦ ground (arith, dropped, h, keep_same p q xs hs)
  ]

  pub keep_all : (p : A → Bool) (xs : List A) → All (λ x. p x ≡ true) xs → keep p xs ≡ xs
  keep_all p [] h = refl
  keep_all p (x ∷ xs) (h, hs) = ground (arith, h, keep_all p xs hs)

  pub keep_any : (p : A → Bool) (xs : List A) → ((x : A) → p x ≡ true) → keep p xs ≡ xs
  keep_any p [] h = refl
  keep_any p (x ∷ xs) h = ground (arith, h x, keep_any p xs h)

  pub length-keep : (p : A → Bool) (xs : List A) → length (keep p xs) ≤ length xs
  length-keep p [] = omega arith
  length-keep p (x ∷ xs) = ground (arith, length-keep p xs)

  -- Rows that a test has left all, and rows of which it has left none.
  pub keep_full :
      (p : A → Bool) (xs : List A) → length (keep p xs) ≡ length xs → All (λ x. p x ≡ true) xs
  keep_full p [] same = tt
  keep_full p (x ∷ xs) same = elim (Bool-cases (p x)) [
    | inl held ↦ (held, keep_full p xs (ground (arith, held, same)))
    | inr dropped ↦ absurd (ground (arith, dropped, same, length-keep p xs))
  ]

  pub keep_same_length :
      (p : A → Bool) (xs : List A) → length (keep p xs) ≡ length xs → keep p xs ≡ xs
  keep_same_length p xs same = keep_all p xs (keep_full p xs same)

  pub keep_none : (p : A → Bool) (xs : List A) → keep p xs ≡ [] → keep (λ x. not (p x)) xs ≡ xs
  keep_none p [] none = refl
  keep_none p (x ∷ xs) none = elim (Bool-cases (p x)) [
    | inl held ↦ absurd (ground (arith, held, none))
    | inr dropped ↦ ground (arith, dropped, keep_none p xs (ground (arith, dropped, none)))
  ]

  pub keep-All {κ} : (P : A → Type κ) (p : A → Bool) (xs : List A) → All P xs → All P (keep p xs)
  keep-All P p [] h = tt
  keep-All P p (x ∷ xs) (h, hs) =
      All-if P (p x) (x ∷ keep p xs) (keep p xs) (h, keep-All P p xs hs) (keep-All P p xs hs)

  pub keep_holds : (p : A → Bool) (xs : List A) → All (λ x. p x ≡ true) (keep p xs)
  keep_holds p [] = tt
  keep_holds p (x ∷ xs) = by_test (p x) refl (keep_holds p xs)
    where
      by_test :
          (b : Bool)
          → p x ≡ b
          → All (λ y. p y ≡ true) (keep p xs)
          → All (λ y. p y ≡ true) (if b then x ∷ keep p xs else keep p xs)
      by_test true e hs = (e, hs)
      by_test false e hs = hs

module _ {ℓ κ} {A : Type ℓ} {B : Type κ} (p : A → Bool) (f : A → B) (Q : A → B → Type 0) where
  -- Where the test tells the related rows, the rows that it leaves are picked.
  pub keep-Picks :
      ((x : A) → p x ≡ true → Q x (f x))
      → ((x : A) (y : B) → p x ≡ false → ¬ (Q x y))
      → (xs : List A) → Picks Q xs (map f (keep p xs))
  keep-Picks accepts rejects [] = done
  keep-Picks accepts rejects (x ∷ xs) = by_test (p x) refl (keep-Picks accepts rejects xs)
    where
      by_test :
          (b : Bool)
          → p x ≡ b
          → Picks Q xs (map f (keep p xs))
          → Picks Q (x ∷ xs) (map f (if b then x ∷ keep p xs else keep p xs))
      by_test true e picks = taken (accepts x e) picks
      by_test false e picks = passed (λ y. rejects x y e) picks
