-- ===== src/Prelude/Bits.antt =====
-- Masks on a byte as arithmetic, by a check of every byte.
use Prim.Native.Nat.{ℕ, zero, suc, ◌+◌, ◌*◌, ◌/◌, ◌%◌, ◌<◌, bit_and, bit_or}
use mathlib.Core.Path.{◌≡◌, refl}
use mathlib.Core.Bool.{Bool, true, ◌&&◌}
use native.Mathlib.Omega.{arith}
use pajamax.Prelude.Tests.{◌==◌, ==_iff}

-- A test holds of every number below a bound.
unfoldable pub all_below : (ℕ → Bool) → ℕ → Bool
all_below test zero = true
all_below test (suc k) = all_below test k && test k

below : (test : ℕ → Bool) {x : ℕ} (k : ℕ) → x < k → all_below test k ≡ true → test x ≡ true
unfolding all_below
below test zero lt all = absurd (omega arith)
below test {x} (suc k) lt all = ground (arith, below test {x = x} k)

module _ (f g : ℕ → ℕ) (n : ℕ) (h : all_below (λ x. f x == g x) n ≡ true) where
  pub agree_below : (x : ℕ) → x < n → f x ≡ g x
  agree_below x lt = (==_iff (f x) (g x)).0 (below (λ y. f y == g y) n lt h)

pub and-127 : (b : ℕ) → b < 256 → bit_and b 0x7f ≡ b % 128
unfolding all_below
and-127 = agree_below _ _ 256 refl

pub and-128 : (b : ℕ) → b < 256 → bit_and b 0x80 ≡ b / 128 * 128
unfolding all_below
and-128 = agree_below _ _ 256 refl

pub or-128 : (b : ℕ) → b < 256 → bit_or 0x80 b ≡ b % 128 + 128
unfolding all_below
or-128 = agree_below _ _ 256 refl
