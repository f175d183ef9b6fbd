-- ===== src/Base/Bits.antt =====
-- Masks and exclusive or at variables: the native operations compute at numerals only.
mod Xor
pub use Xor.*
use Prim.Native.Nat.{ℕ, zero, suc, ◌+◌, ◌*◌, ◌/◌, ◌<◌, bit_and}
use mathlib.Core.Path.{◌≡◌, refl}
use mathlib.Core.Bool.{Bool, true, ◌&&◌}
use native.Mathlib.Omega.{arith}
use package.go_goodwe.Base.Tests.{◌==◌, ==_iff}

-- A test that holds at each of the first numbers, found out by running it.
unfoldable pub passes : (ℕ → Bool) → ℕ → Bool
passes test zero = true
passes test (suc last) = passes test last && test last

pub passes_at :
    (test : ℕ → Bool) (bound i : ℕ) → i < bound → passes test bound ≡ true → test i ≡ true
unfolding passes
passes_at test zero i below all = absurd (omega arith)
passes_at test (suc last) i below all = ground (arith, passes_at test last i)

-- The top bit of a byte.
pub top_bit : (b : ℕ) → b < 256 → bit_and b 0x80 ≡ b / 128 * 128
unfolding passes
top_bit b h = (==_iff _ _).0 (passes_at (λ x. bit_and x 0x80 == x / 128 * 128) 256 b h refl)
