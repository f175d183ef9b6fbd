-- ===== src/Base/Lists.antt =====
-- Lists measured and indexed by native numbers, under the library's names.
use Prim.Native.Nat.{ℕ, zero, suc, ◌+◌, ◌-◌, ◌≤◌, ◌<◌, min}
use mathlib.Core.Path.{◌≡◌, refl, sym, ap, subst, ◌∙◌}
use mathlib.Core.List.{List, [], ◌∷◌, ◌++◌, map, reverse, reverse-cons}
use mathlib.Core.Option.{Option, none, some}
use mathlib.Core.Bool.{Bool, true, false}
use package.go_goodwe.Base.Tests.{if◌then◌else◌}
use native.Mathlib.Omega.{arith}

module _ {ℓ} {A : Type ℓ} where
  abbrev pub length : List A → ℕ
  length [] = 0
  length (x ∷ xs) = suc (length xs)

  abbrev pub get_elem? : List A → ℕ → Option A
  get_elem? [] i = none
  get_elem? (x ∷ xs) zero = some x
  get_elem? (x ∷ xs) (suc i) = get_elem? xs i

  abbrev pub take : ℕ → List A → List A
  take zero xs = []
  take (suc n) [] = []
  take (suc n) (x ∷ xs) = x ∷ take n xs

  abbrev pub drop : ℕ → List A → List A
  drop zero xs = xs
  drop (suc n) [] = []
  drop (suc n) (x ∷ xs) = drop n xs

  pub length-append : (xs ys : List A) → length (xs ++ ys) ≡ length xs + length ys
  length-append [] ys = omega arith
  length-append (x ∷ xs) ys = omega (arith, length-append xs ys)

  pub length-take : (n : ℕ) (xs : List A) → length (take n xs) ≡ min n (length xs)
  length-take zero xs = omega arith
  length-take (suc n) [] = omega arith
  length-take (suc n) (x ∷ xs) = omega (arith, length-take n xs)

  pub length-drop : (n : ℕ) (xs : List A) → length (drop n xs) ≡ length xs - n
  length-drop zero xs = omega arith
  length-drop (suc n) [] = omega arith
  length-drop (suc n) (x ∷ xs) = omega (arith, length-drop n xs)

  pub take_all : (n : ℕ) (xs : List A) → length xs ≤ n → take n xs ≡ xs
  take_all zero [] h = refl
  take_all zero (x ∷ xs) h = absurd (omega arith)
  take_all (suc n) [] h = refl
  take_all (suc n) (x ∷ xs) h = ap (λ t. x ∷ t) (take_all n xs (omega arith))

  pub take-append-drop : (n : ℕ) (xs : List A) → take n xs ++ drop n xs ≡ xs
  take-append-drop zero xs = refl
  take-append-drop (suc n) [] = refl
  take-append-drop (suc n) (x ∷ xs) = ap (λ t. x ∷ t) (take-append-drop n xs)

  pub length-reverse : (xs : List A) → length (reverse xs) ≡ length xs
  length-reverse [] = refl
  length-reverse (x ∷ xs) =
      ap length (reverse-cons x xs)
      ∙ omega (arith, length-append (reverse xs) (x ∷ []), length-reverse xs)

  -- What stands in front of an append is found there.
  pub take-append_left : (xs ys : List A) → take (length xs) (xs ++ ys) ≡ xs
  take-append_left [] ys = refl
  take-append_left (x ∷ xs) ys = ap (λ t. x ∷ t) (take-append_left xs ys)

  pub drop-append_left : (xs ys : List A) → drop (length xs) (xs ++ ys) ≡ ys
  drop-append_left [] ys = refl
  drop-append_left (x ∷ xs) ys = drop-append_left xs ys

  pub get_elem?-append_middle :
      (xs ys : List A) (y : A) → get_elem? (xs ++ y ∷ ys) (length xs) ≡ some y
  get_elem?-append_middle [] ys y = refl
  get_elem?-append_middle (x ∷ xs) ys y = get_elem?-append_middle xs ys y

  pub get_elem?-append_second :
      (xs ys : List A) (y z : A) → get_elem? (xs ++ y ∷ z ∷ ys) (suc (length xs)) ≡ some z
  get_elem?-append_second [] ys y z = refl
  get_elem?-append_second (x ∷ xs) ys y z = get_elem?-append_second xs ys y z

  pub get_elem?-append_left :
      (xs ys : List A) (i : ℕ) → i < length xs → get_elem? (xs ++ ys) i ≡ get_elem? xs i
  get_elem?-append_left [] ys i h = elim h [ ]
  get_elem?-append_left (x ∷ xs) ys zero h = refl
  get_elem?-append_left (x ∷ xs) ys (suc i) h = get_elem?-append_left xs ys i (omega arith)

  -- An index in range has an element.
  pub get_elem?-some : (xs : List A) (i : ℕ) → i < length xs → (x : A) × (get_elem? xs i ≡ some x)
  get_elem?-some [] i h = elim h [ ]
  get_elem?-some (x ∷ xs) zero h = (x, refl)
  get_elem?-some (x ∷ xs) (suc i) h = get_elem?-some xs i (omega arith)

  pub get_elem?-none : (xs : List A) (i : ℕ) → length xs ≤ i → get_elem? xs i ≡ none
  get_elem?-none [] i h = refl
  get_elem?-none (x ∷ xs) zero h = absurd (omega arith)
  get_elem?-none (x ∷ xs) (suc i) h = get_elem?-none xs i (omega arith)

module _ {ℓ} {A : Type ℓ} where
  abbrev pub All {κ} : (A → Type κ) → List A → Type κ
  All P [] = Unit {κ}
  All P (x ∷ xs) = P x × All P xs

module _ {ℓ κ} {A : Type ℓ} (P : A → Type κ) where
  pub All-append : (xs ys : List A) → All P xs → All P ys → All P (xs ++ ys)
  All-append [] ys hx hy = hy
  All-append (x ∷ xs) ys hx hy = (hx.0, All-append xs ys hx.1 hy)

  pub take-All : (n : ℕ) (xs : List A) → All P xs → All P (take n xs)
  take-All zero xs h = tt
  take-All (suc n) [] h = tt
  take-All (suc n) (x ∷ xs) (h, hs) = (h, take-All n xs hs)

  pub All-if : (b : Bool) (xs ys : List A) → All P xs → All P ys → All P (if b then xs else ys)
  All-if true xs ys hx hy = hx
  All-if false xs ys hx hy = hy

  pub All-append_left : (xs ys : List A) → All P (xs ++ ys) → All P xs
  All-append_left [] ys h = tt
  All-append_left (x ∷ xs) ys h = (h.0, All-append_left xs ys h.1)

  pub All-append_right : (xs ys : List A) → All P (xs ++ ys) → All P ys
  All-append_right [] ys h = h
  All-append_right (x ∷ xs) ys h = All-append_right xs ys h.1

  pub get_elem?-All : (xs : List A) (i : ℕ) (x : A) → All P xs → get_elem? xs i ≡ some x → P x
  get_elem?-All [] i x h e = cc
  get_elem?-All (y ∷ xs) zero x h e = subst P (cc) (h.0)
  get_elem?-All (y ∷ xs) (suc i) x h e = get_elem?-All xs i x h.1 e

  pub reverse-All : (xs : List A) → All P xs → All P (reverse xs)
  reverse-All [] h = tt
  reverse-All (x ∷ xs) (h, hs) =
      subst (All P) (sym (reverse-cons x xs))
        (All-append (reverse xs) (x ∷ []) (reverse-All xs hs) (h, tt))

pub All-map {ℓ κ ι} :
    {A : Type ℓ} {B : Type κ} (f : A → B) (R : B → Type ι) (P : A → Type ι)
    → ((a : A) → P a → R (f a))
    → (xs : List A) → All P xs
    → All R (map f xs)
All-map f R P carry [] h = tt
All-map f R P carry (x ∷ xs) (h, hs) = (carry x h, All-map f R P carry xs hs)
