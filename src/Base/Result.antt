-- ===== src/Base/Result.antt =====
-- Go's (value, error) pair, and the run-time panic of an index out of range.
-- An error is the text of its message: the program reads nothing else of it, and `%w` keeps the
-- text of the wrapped error inside the new one.
use Prim.Native.Nat.{ℕ, ◌-◌, ◌+◌, ◌≤◌}
use native.Mathlib.Omega.{arith}
use mathlib.Core.Path.{◌≡◌, ◌∙◌}
use mathlib.Core.Bool.{Bool, true, false, ◌&&◌}
use mathlib.Core.Option.{Option, none, some}
use mathlib.Core.List.{List, ◌++◌}
use package.go_goodwe.Base.Tests.{leb, if◌then◌else◌, le→leb}
use package.go_goodwe.Base.Lists.{
  length, get_elem?, take, drop, length-append, drop-append_left, take-append_left,
}

pub data Result {ℓ} (A : Type ℓ) : Type ℓ where
  ok : A → Result A
  err : List ℕ → Result A
  panic : Result A

infixl 5 ◌>>=◌
abbrev pub ◌>>=◌ {ℓ κ} : {A : Type ℓ} {B : Type κ} → Result A → (A → Result B) → Result B
ok a >>= f = f a
err e >>= f = err e
panic >>= f = panic

-- `xs[i]`
abbrev pub of_option {ℓ} : {A : Type ℓ} → Option A → Result A
of_option none = panic
of_option (some a) = ok a

abbrev pub index {ℓ} : {A : Type ℓ} → List A → ℕ → Result A
index xs i = of_option (get_elem? xs i)

-- `xs[lo:hi]`
abbrev pub slice {ℓ} : {A : Type ℓ} → List A → ℕ → ℕ → Result (List A)
slice xs lo hi = if leb lo hi && leb hi (length xs) then ok (take (hi - lo) (drop lo xs)) else panic

-- A slice within the bounds, and the slice that a list with three named parts shows.
pub slice_ok {ℓ} :
    {A : Type ℓ} (xs : List A) (lo hi : ℕ)
    → lo ≤ hi
    → hi ≤ length xs
    → slice xs lo hi ≡ ok (take (hi - lo) (drop lo xs))
slice_ok xs lo hi h k = ground (arith, le→leb lo hi h, le→leb hi (length xs) k)

pub slice_middle {ℓ} :
    {A : Type ℓ} (front mid back : List A) (lo hi : ℕ)
    → lo ≡ length front
    → hi ≡ length front + length mid
    → slice (front ++ (mid ++ back)) lo hi ≡ ok mid
slice_middle front mid back lo hi elo ehi =
    let count : hi - lo ≡ length mid = omega arith in
    slice_ok (front ++ (mid ++ back)) lo hi (omega arith)
      (omega (arith, length-append front (mid ++ back), length-append mid back))
    ∙ rw (count, elo, drop-append_left front (mid ++ back), take-append_left mid back)

abbrev pub is_ok {ℓ} : {A : Type ℓ} → Result A → Bool
is_ok (ok a) = true
is_ok (err e) = false
is_ok panic = false
