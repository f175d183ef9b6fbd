-- ===== src/Base/Program.antt =====
-- Code that reads and changes a state and may fail: the state of the moment is kept on an error.
use package.go_goodwe.Base.Result.{Result, ok, err, panic}

abbrev pub Program {ℓ} : Type 0 → Type ℓ → Type ℓ
Program S A = S → Result A × S

infixl 5 ◌>>=◌ ◌>>◌
abbrev pub ◌>>=◌ {ℓ κ} :
    {S : Type 0} {A : Type ℓ} {B : Type κ} → Program S A → (A → Program S B) → Program S B
◌>>=◌ m f s = let (r, t) = m s in elim r [ ok a ↦ f a t | err e ↦ (err e, t) | panic ↦ (panic, t) ]

abbrev pub ◌>>◌ {ℓ} : {S : Type 0} {B : Type ℓ} → Program S (Unit {0}) → Program S B → Program S B
m >> k = m >>= λ _. k

abbrev pub pure {ℓ} : {S : Type 0} {A : Type ℓ} → A → Program S A
pure a s = (ok a, s)
