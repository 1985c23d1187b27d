-- ===== src/Base/Ints.antt =====
-- Python integers over the native numbers: `negsuc n` is -(n + 1).
use Prim.Native.Nat.{ℕ}
use Prim.Native.Nat.{suc, zero, ◌+◌, ◌-◌, ◌/◌, ◌%◌}
use mathlib.Core.Bool.{Bool}
use mathlib.Core.List.{[], ◌∷◌}
use pycomm.Base.Tests.{ltb, if◌then◌else◌, Text}

pub data ℤ : Type 0 where
  pos : ℕ → ℤ
  negsuc : ℕ → ℤ

-- `a + b`
infixl 6 ◌+ℤ◌
unfoldable pub ◌+ℤ◌ : ℤ → ℤ → ℤ
(pos m) +ℤ (pos n) = pos (m + n)
(pos m) +ℤ (negsuc n) = if ltb n m then pos (m - suc n) else negsuc (n - m)
(negsuc m) +ℤ (pos n) = if ltb m n then pos (n - suc m) else negsuc (m - n)
(negsuc m) +ℤ (negsuc n) = negsuc (m + suc n)

-- `a // k` and `a % k != 0`, for a positive number.
unfoldable pub floor_div : ℤ → ℕ → ℤ
floor_div (pos n) k = pos (n / k)
floor_div (negsuc n) k = negsuc (n / k)

unfoldable pub has_remainder : ℤ → ℕ → Bool
has_remainder (pos n) k = ltb 0 (n % k)
has_remainder (negsuc n) k = ltb 0 (suc n % k)

-- The decimal digits of a number; a number has at most as many of them as its value and one.
unfoldable pub decimal_from : ℕ → ℕ → Text → Text
decimal_from zero n rest = rest
decimal_from (suc fuel) n rest =
    let shorter = decimal_from fuel (n / 10) ((b'0' + n % 10) ∷ rest) in
    if ltb n 10 then (b'0' + n) ∷ rest else shorter

-- `f"{z}"`
unfoldable pub show_int : ℤ → Text
show_int (pos n) = decimal_from (suc n) n []
show_int (negsuc n) = b'-' ∷ decimal_from (suc (suc n)) (suc n) []
