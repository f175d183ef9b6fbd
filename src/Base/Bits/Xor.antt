-- ===== src/Base/Bits/Xor.antt =====
-- Exclusive or at every width, from its definition on binary digits.
use Prim.Native.Nat.{ℕ, zero, suc, ◌+◌, ◌*◌, ◌/◌, ◌%◌, ◌≤◌, ◌<◌, ◌^◌}
use Prim.Native.Nat.{bit_xor, bit_xor-bitwise, digits, differ}
use mathlib.Core.Path.{◌≡◌, refl, sym, ap, ◌∙◌}
use native.Mathlib.Nat.{pow-suc}
use native.Mathlib.Omega.{arith}

abbrev xor_digits : ℕ → ℕ → ℕ → ℕ
xor_digits n a b = digits (λ y. y) differ n a b

xor_digits_fuel : (n m a b : ℕ) → a ≤ n → a ≤ m → xor_digits n a b ≡ xor_digits m a b
xor_digits_fuel zero zero a b p q = refl
xor_digits_fuel zero (suc m) zero b p q = refl
xor_digits_fuel zero (suc m) (suc a) b p q = absurd (omega arith)
xor_digits_fuel (suc n) zero zero b p q = refl
xor_digits_fuel (suc n) zero (suc a) b p q = absurd (omega arith)
xor_digits_fuel (suc n) (suc m) zero b p q = refl
xor_digits_fuel (suc n) (suc m) (suc a) b p q =
    rw (xor_digits_fuel n m (suc a / 2) (b / 2) (omega arith) (omega arith))

zero-bit_xor : (b : ℕ) → bit_xor 0 b ≡ b
zero-bit_xor b = bit_xor-bitwise 0 b

-- One equation for the lowest digit.
bit_xor_step : (a b : ℕ) → bit_xor a b ≡ bit_xor (a / 2) (b / 2) * 2 + differ (a % 2) (b % 2)
bit_xor_step zero b = omega (arith, zero-bit_xor b, zero-bit_xor (b / 2))
bit_xor_step (suc a) b = omega (
  arith,
  bit_xor-bitwise (suc a) b,
  bit_xor-bitwise (suc a / 2) (b / 2),
  xor_digits_fuel a (suc a / 2) (suc a / 2) (b / 2) (omega arith) (omega arith),
)

differ_digit : (x y : ℕ) → x < 2 → y < 2 → (differ x y < 2) × (differ (differ x y) y ≡ x)
differ_digit zero zero p q = omega arith
differ_digit zero (suc zero) p q = omega arith
differ_digit (suc zero) zero p q = omega arith
differ_digit (suc zero) (suc zero) p q = omega arith
differ_digit x (suc (suc y)) p q = absurd (omega arith)
differ_digit (suc (suc x)) zero p q = absurd (omega arith)
differ_digit (suc (suc x)) (suc zero) p q = absurd (omega arith)

differ_comm : (x y : ℕ) → x < 2 → y < 2 → differ x y ≡ differ y x
differ_comm zero zero p q = refl
differ_comm zero (suc zero) p q = refl
differ_comm (suc zero) zero p q = refl
differ_comm (suc zero) (suc zero) p q = refl
differ_comm x (suc (suc y)) p q = absurd (omega arith)
differ_comm (suc (suc x)) zero p q = absurd (omega arith)
differ_comm (suc (suc x)) (suc zero) p q = absurd (omega arith)

-- Quotient and remainder of the result.
bit_xor_parts :
    (a b : ℕ)
    → (bit_xor a b / 2 ≡ bit_xor (a / 2) (b / 2)) × (bit_xor a b % 2 ≡ differ (a % 2) (b % 2))
bit_xor_parts a b =
    let small = differ_digit (a % 2) (b % 2) (omega arith) (omega arith) in
    (omega (arith, bit_xor_step a b, small.0), omega (arith, bit_xor_step a b, small.0))

bit_xor_self_fuel : (n a b : ℕ) → a + b ≤ n → bit_xor (bit_xor a b) b ≡ a
bit_xor_self_fuel zero a b h =
    let ea : a ≡ 0 = omega arith in let eb : b ≡ 0 = omega arith in rw (ea, eb)
bit_xor_self_fuel (suc n) a b h = ground (
  arith,
  bit_xor_step (bit_xor a b) b,
  bit_xor_parts a b,
  differ_digit (a % 2) (b % 2) (omega arith) (omega arith),
  bit_xor_self_fuel n (a / 2) (b / 2),
)

-- The same word twice cancels.
pub bit_xor_self : (a b : ℕ) → bit_xor (bit_xor a b) b ≡ a
bit_xor_self a b = bit_xor_self_fuel (a + b) a b (omega arith)

pub bit_xor-lt : (k a b : ℕ) → a < 2 ^ k → b < 2 ^ k → bit_xor a b < 2 ^ k
bit_xor-lt zero a b ha hb =
    let ea : a ≡ 0 = omega arith in let eb : b ≡ 0 = omega arith in rw (ea, eb) (omega arith)
bit_xor-lt (suc k) a b ha hb = omega (
  arith,
  pow-suc 2 k,
  bit_xor_step a b,
  differ_digit (a % 2) (b % 2) (omega arith) (omega arith),
  bit_xor-lt k (a / 2) (b / 2) (omega (arith, pow-suc 2 k)) (omega (arith, pow-suc 2 k)),
)

bit_xor_comm_fuel : (n a b : ℕ) → a + b ≤ n → bit_xor a b ≡ bit_xor b a
bit_xor_comm_fuel zero a b h =
    let ea : a ≡ 0 = omega arith in let eb : b ≡ 0 = omega arith in rw (ea, eb)
bit_xor_comm_fuel (suc n) a b h = ground (
  arith,
  bit_xor_step a b,
  bit_xor_step b a,
  differ_comm (a % 2) (b % 2) (omega arith) (omega arith),
  bit_xor_comm_fuel n (a / 2) (b / 2),
)

bit_xor_comm : (a b : ℕ) → bit_xor a b ≡ bit_xor b a
bit_xor_comm a b = bit_xor_comm_fuel (a + b) a b (omega arith)

pub bit_xor-cancel_left : (s b c : ℕ) → bit_xor s b ≡ bit_xor s c → b ≡ c
bit_xor-cancel_left s b c e =
    sym (bit_xor_self b s)
    ∙ ap (λ (x : ℕ). bit_xor x s) (bit_xor_comm b s ∙ e ∙ bit_xor_comm s c)
    ∙ bit_xor_self c s
