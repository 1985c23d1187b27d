-- ===== src/Base/BitAt.antt =====
-- The bits of a number, one by one.
use Prim.Native.Nat.{ℕ, zero, suc, ◌-◌, ◌*◌, ◌/◌, ◌%◌, ◌^◌, ◌≤◌, ◌<◌, min, max, bit_and, bit_or}
use mathlib.Core.Path.{◌≡◌, refl, ◌∙◌}
use native.Mathlib.Omega.{arith}
use native.Mathlib.Nat.{pow-suc}
use pycomm.Base.Tests.{◌==◌, if◌then◌else◌}
use pycomm.Base.Bits.{
  half_pow, even_pow, bit_or_zero, bit_and_zero, bit_or-half, bit_and-half, bit_and-pow,
}

-- `n >> j & 1`
unfoldable pub bit_at : ℕ → ℕ → ℕ
bit_at zero n = n % 2
bit_at (suc j) n = bit_at j (n / 2)

-- `a & ~(1 << i)`
unfoldable pub clear_bit : ℕ → ℕ → ℕ
clear_bit a i = a - bit_and a (2 ^ i)

pub bit_at-lt : (j n : ℕ) → bit_at j n < 2
unfolding bit_at
bit_at-lt zero n = omega arith
bit_at-lt (suc j) n = bit_at-lt j (n / 2)

bit_at_zero : (j : ℕ) → bit_at j 0 ≡ 0
unfolding bit_at
bit_at_zero zero = refl
bit_at_zero (suc j) = bit_at_zero j

pub bit_at-bit_or : (j a b : ℕ) → bit_at j (bit_or a b) ≡ max (bit_at j a) (bit_at j b)
unfolding bit_at
bit_at-bit_or zero a b = omega (arith, bit_or-half a b)
bit_at-bit_or (suc j) a b =
    let half : bit_or a b / 2 ≡ bit_or (a / 2) (b / 2) = omega (arith, bit_or-half a b) in
    rw half (bit_at-bit_or j (a / 2) (b / 2))

pub bit_at-pow : (j i : ℕ) → bit_at j (2 ^ i) ≡ (if i == j then 1 else 0)
unfolding bit_at
bit_at-pow zero zero = refl
bit_at-pow zero (suc i) = ground (arith, pow-suc 2 i)
bit_at-pow (suc j) zero = bit_at_zero j ∙ ground arith
bit_at-pow (suc j) (suc i) =
    let half : 2 ^ suc i / 2 ≡ 2 ^ i = omega (arith, pow-suc 2 i) in
    rw half (bit_at-pow j i ∙ ground arith)

-- Masking with a bit other than the last one leaves the last digit out.
bit_and-pow_step : (i a : ℕ) → bit_and a (2 ^ suc i) ≡ bit_and (a / 2) (2 ^ i) * 2
bit_and-pow_step i a = omega (arith, rw (half_pow i, even_pow i) at (bit_and-half a (2 ^ suc i)))

bit_and-pow-le : (i a : ℕ) → bit_and a (2 ^ i) ≤ a
bit_and-pow-le zero a = omega (arith, bit_and-pow 0 a)
bit_and-pow-le (suc i) a = omega (arith, bit_and-pow_step i a, bit_and-pow-le i (a / 2))

clear_bit-half : (i a : ℕ) → clear_bit a (suc i) / 2 ≡ clear_bit (a / 2) i
unfolding clear_bit
clear_bit-half i a = omega (arith, bit_and-pow_step i a)

clear_bit_last : (i a : ℕ) → clear_bit a (suc i) % 2 ≡ a % 2
unfolding clear_bit
clear_bit_last i a = omega (arith, bit_and-pow_step i a, bit_and-pow-le i (a / 2))

pub bit_at-clear_bit : (j a i : ℕ) → bit_at j (clear_bit a i) ≡ (if i == j then 0 else bit_at j a)
unfolding bit_at
bit_at-clear_bit zero a zero = unfold clear_bit in ground (arith, bit_and-pow 0 a)
bit_at-clear_bit zero a (suc i) = clear_bit_last i a ∙ ground arith
bit_at-clear_bit (suc j) a zero =
    let half : clear_bit a 0 / 2 ≡ a / 2 = unfold clear_bit in omega (arith, bit_and-pow 0 a) in
    rw half (ground arith)
bit_at-clear_bit (suc j) a (suc i) =
    rw (clear_bit-half i a) (bit_at-clear_bit j (a / 2) i ∙ ground arith)

pub bit_at-bit_and : (j a b : ℕ) → bit_at j (bit_and a b) ≡ min (bit_at j a) (bit_at j b)
unfolding bit_at
bit_at-bit_and zero a b = omega (arith, bit_and-half a b)
bit_at-bit_and (suc j) a b =
    let half : bit_and a b / 2 ≡ bit_and (a / 2) (b / 2) = omega (arith, bit_and-half a b) in
    rw half (bit_at-bit_and j (a / 2) (b / 2))

-- The bits of `~n`, in `k` bits.
pub bit_at-complement : (k j n : ℕ) → j < k → n < 2 ^ k → bit_at j (2 ^ k - 1 - n) ≡ 1 - bit_at j n
unfolding bit_at
bit_at-complement zero j n h low = absurd (omega arith)
bit_at-complement (suc k) zero n h low = omega (arith, pow-suc 2 k)
bit_at-complement (suc k) (suc j) n h low =
    let half : (2 ^ suc k - 1 - n) / 2 ≡ 2 ^ k - 1 - n / 2 = omega (arith, pow-suc 2 k) in
    rw half (bit_at-complement k j (n / 2) (omega arith) (omega (arith, pow-suc 2 k)))

pub bit_or-lt : (k a b : ℕ) → a < 2 ^ k → b < 2 ^ k → bit_or a b < 2 ^ k
bit_or-lt zero zero b ha hb = omega (arith, bit_or_zero b)
bit_or-lt zero (suc a) b ha hb = absurd (omega arith)
bit_or-lt (suc k) a b ha hb = omega (
  arith,
  pow-suc 2 k,
  bit_or-half a b,
  bit_or-lt k (a / 2) (b / 2) (omega (arith, pow-suc 2 k)) (omega (arith, pow-suc 2 k)),
)

pub bit_and-lt : (k a b : ℕ) → a < 2 ^ k → bit_and a b < 2 ^ k
bit_and-lt zero zero b h = omega (arith, bit_and_zero b)
bit_and-lt zero (suc a) b h = absurd (omega arith)
bit_and-lt (suc k) a b h = omega (
  arith,
  pow-suc 2 k,
  bit_and-half a b,
  bit_and-lt k (a / 2) (b / 2) (omega (arith, pow-suc 2 k)),
)
