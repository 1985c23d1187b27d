-- ===== src/Base/Bits.antt =====
-- Facts about `bit_or` and `bit_and` at variables, from their digits.
use Prim.Native.Nat.{ℕ, zero, suc, ◌+◌, ◌*◌, ◌/◌, ◌%◌, ◌^◌, ◌≤◌, ◌<◌, min, max, bit_and, bit_or}
use Prim.Native.Nat.{digits, bit_or-bitwise, bit_and-bitwise}
use mathlib.Core.Path.{◌≡◌, refl, ap}
use mathlib.Core.Bool.{Bool, true, ◌&&◌}
use native.Mathlib.Omega.{arith}
use native.Mathlib.Decide.{dec_lt}
use native.Mathlib.Nat.{pow-suc, pow-succ', div-div-eq-div-mul}

abbrev or_count : ℕ → ℕ → ℕ → ℕ
or_count = digits (λ b. b) max

abbrev and_count : ℕ → ℕ → ℕ → ℕ
and_count = digits (λ b. zero) min

-- The count of digits to go does not matter once it covers the number.
or_count_more : (n m a b : ℕ) → a ≤ n → a ≤ m → or_count n a b ≡ or_count m a b
or_count_more zero zero a b p q = refl
or_count_more zero (suc m) zero b p q = refl
or_count_more (suc n) zero zero b p q = refl
or_count_more (suc n) (suc m) zero b p q = refl
or_count_more zero (suc m) (suc a) b p q = absurd (omega arith)
or_count_more (suc n) zero (suc a) b p q = absurd (omega arith)
or_count_more (suc n) (suc m) (suc a) b p q =
    omega (arith, or_count_more n m (suc a / 2) (b / 2) (omega arith) (omega arith))

and_count_more : (n m a b : ℕ) → a ≤ n → a ≤ m → and_count n a b ≡ and_count m a b
and_count_more zero zero a b p q = refl
and_count_more zero (suc m) zero b p q = refl
and_count_more (suc n) zero zero b p q = refl
and_count_more (suc n) (suc m) zero b p q = refl
and_count_more zero (suc m) (suc a) b p q = absurd (omega arith)
and_count_more (suc n) zero (suc a) b p q = absurd (omega arith)
and_count_more (suc n) (suc m) (suc a) b p q =
    omega (arith, and_count_more n m (suc a / 2) (b / 2) (omega arith) (omega arith))

pub bit_or_zero : (b : ℕ) → bit_or 0 b ≡ b
bit_or_zero b = bit_or-bitwise 0 b

pub bit_and_zero : (b : ℕ) → bit_and 0 b ≡ 0
bit_and_zero b = bit_and-bitwise 0 b

-- The last digit, and the rest.
pub bit_or-half : (a b : ℕ) → bit_or a b ≡ bit_or (a / 2) (b / 2) * 2 + max (a % 2) (b % 2)
bit_or-half zero b = omega (arith, bit_or_zero b, bit_or_zero (b / 2))
bit_or-half (suc a) b = omega (
  arith,
  bit_or-bitwise (suc a) b,
  bit_or-bitwise (suc a / 2) (b / 2),
  or_count_more a (suc a / 2) (suc a / 2) (b / 2) (omega arith) (omega arith),
)

pub bit_and-half : (a b : ℕ) → bit_and a b ≡ bit_and (a / 2) (b / 2) * 2 + min (a % 2) (b % 2)
bit_and-half zero b = omega (arith, bit_and_zero b, bit_and_zero (b / 2))
bit_and-half (suc a) b = omega (
  arith,
  bit_and-bitwise (suc a) b,
  bit_and-bitwise (suc a / 2) (b / 2),
  and_count_more a (suc a / 2) (suc a / 2) (b / 2) (omega arith) (omega arith),
)

bit_and_none : (n a : ℕ) → a ≤ n → bit_and a 0 ≡ 0
bit_and_none n zero h = refl
bit_and_none zero (suc a) h = absurd (omega arith)
bit_and_none (suc n) (suc a) h =
    omega (arith, bit_and-half (suc a) 0, bit_and_none n (suc a / 2) (omega arith))

pub half_pow : (i : ℕ) → 2 ^ suc i / 2 ≡ 2 ^ i
half_pow i = omega (arith, pow-suc 2 i)

pub even_pow : (i : ℕ) → 2 ^ suc i % 2 ≡ 0
even_pow i = omega (arith, pow-suc 2 i)

-- Setting a bit above all the digits of a number is adding it.
pub bit_or-pow : (i a : ℕ) → a < 2 ^ i → bit_or a (2 ^ i) ≡ a + 2 ^ i
bit_or-pow zero zero h = refl
bit_or-pow zero (suc a) h = absurd (omega arith)
bit_or-pow (suc i) a h = omega (
  arith,
  pow-suc 2 i,
  rw (half_pow i, even_pow i) at (bit_or-half a (2 ^ suc i)),
  bit_or-pow i (a / 2) (omega (arith, pow-suc 2 i)),
)

-- Masking with one bit.
pub bit_and-pow : (i a : ℕ) → bit_and a (2 ^ i) ≡ a / 2 ^ i % 2 * 2 ^ i
bit_and-pow zero a = omega (arith, bit_and-half a 1, bit_and_none (a / 2) (a / 2) (omega arith))
bit_and-pow (suc i) a =
    rw
      (
        bit_and-half a (2 ^ suc i),
        half_pow i,
        even_pow i,
        bit_and-pow i (a / 2),
        div-div-eq-div-mul a 2 (2 ^ i),
        ← pow-succ' 2 i,
      )
      (omega (arith, ap (λ (t : ℕ). a / 2 ^ suc i % 2 * t) (pow-suc 2 i)))

-- A test passed by every number below a bound, checked by evaluation.
unfoldable pub holds_below : ℕ → (ℕ → Bool) → Bool
holds_below zero p = true
holds_below (suc n) p = p n && holds_below n p

pub holds_below-at : (n : ℕ) (p : ℕ → Bool) → holds_below n p ≡ true → (x : ℕ) → x < n → p x ≡ true
unfolding holds_below
holds_below-at zero p e x h = absurd (omega arith)
holds_below-at (suc n) p e x h = elim (dec_lt x n) [
  | yes less ↦ holds_below-at n p (ground arith) x less
  | no same ↦ let top : x ≡ n = omega arith in rw top (ground arith)
]
