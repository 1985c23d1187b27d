-- ===== src/DataTypes/Integers.antt =====
-- The integer types of pycomm3/cip/data_types.py: `struct.pack` and `struct.unpack` with the
-- little-endian integer formats.
use pycomm.Base.{
  ℕ, zero, suc, ◌+◌, ◌-◌, ◌*◌, ◌/◌, ◌%◌, ◌^◌, ◌<◌, ◌≡◌, refl, arith, Bool, true, false, [], ◌∷◌,
  ltb, ◌==◌, if◌then◌else◌, Bytes, length, All, Result, ok, err, other_error,
}
use pycomm.Base.Ints.{ℤ, pos, negsuc}
use native.Mathlib.Nat.{pow-suc}

-- The integer types, the time types that only rename one among them.
pub data IntType : Type 0 where
  sint int dint lint usint uint udint ulint : IntType
  stime date time_of_day ftime ltime itime time : IntType

-- The attribute `size` of each class.
abbrev pub size : IntType → ℕ
size sint = 1
size int = 2
size dint = 4
size lint = 8
size usint = 1
size uint = 2
size udint = 4
size ulint = 8
size stime = 4
size date = 2
size time_of_day = 4
size ftime = 4
size ltime = 8
size itime = 2
size time = 4

-- The width of `_format` of each class, of the letters `bB hH iI qQ`.
abbrev pub format_width : IntType → ℕ
format_width sint = 1
format_width int = 2
format_width dint = 4
format_width lint = 8
format_width usint = 1
format_width uint = 2
format_width udint = 4
format_width ulint = 8
format_width stime = 4
format_width date = 2
format_width time_of_day = 4
format_width ftime = 4
format_width ltime = 8
format_width itime = 2
format_width time = 4

-- Whether `_format` is one of `<b <h <i <q`.
abbrev pub is_signed : IntType → Bool
is_signed sint = true
is_signed int = true
is_signed dint = true
is_signed lint = true
is_signed usint = false
is_signed uint = false
is_signed udint = false
is_signed ulint = false
is_signed stime = true
is_signed date = false
is_signed time_of_day = false
is_signed ftime = true
is_signed ltime = true
is_signed itime = true
is_signed time = true

-- The `k` bytes of a number, the lowest first.
unfoldable pub le_bytes : ℕ → ℕ → Bytes
le_bytes zero n = []
le_bytes (suc k) n = n % 256 ∷ le_bytes k (n / 256)

unfoldable pub of_le : Bytes → ℕ
of_le [] = 0
of_le (b ∷ bs) = b + 256 * of_le bs

-- `pack(format, z)` for a format of `k` bytes; out of range it raises struct.error.
unfoldable pub pack_int : Bool → ℕ → ℤ → Result Bytes
pack_int false k (pos n) = if ltb n (256 ^ k) then ok (le_bytes k n) else err other_error
pack_int false k (negsuc n) = err other_error
pack_int true k (pos n) = if ltb n (256 ^ k / 2) then ok (le_bytes k n) else err other_error
pack_int true k (negsuc n) =
    if ltb n (256 ^ k / 2) then ok (le_bytes k (256 ^ k - 1 - n)) else err other_error

abbrev pub of_pattern : Bool → ℕ → ℕ → ℤ
of_pattern false k n = pos n
of_pattern true k n = if ltb n (256 ^ k / 2) then pos n else negsuc (256 ^ k - 1 - n)

-- `unpack(format, data)[0]`: the length must be that of the format.
unfoldable pub unpack_int : Bool → ℕ → Bytes → Result ℤ
unpack_int s k bytes =
    if length bytes == k then ok (of_pattern s k (of_le bytes)) else err other_error

-- The integers that a format of `k` bytes holds.
abbrev pub InRange : Bool → ℕ → ℤ → Type 0
InRange false k (pos n) = n < 256 ^ k
InRange false k (negsuc n) = ⊥
InRange true k (pos n) = n < 256 ^ k / 2
InRange true k (negsuc n) = n < 256 ^ k / 2

pub length-le_bytes : (k n : ℕ) → length (le_bytes k n) ≡ k
unfolding le_bytes
length-le_bytes zero n = refl
length-le_bytes (suc k) n = omega (arith, length-le_bytes k (n / 256))

abbrev pub IsByte : ℕ → Type 0
IsByte b = b < 256

pub le_bytes-IsByte : (k n : ℕ) → All IsByte (le_bytes k n)
unfolding le_bytes
le_bytes-IsByte zero n = tt
le_bytes-IsByte (suc k) n = (omega arith, le_bytes-IsByte k (n / 256))

pub of_le-le_bytes : (k n : ℕ) → n < 256 ^ k → of_le (le_bytes k n) ≡ n
unfolding le_bytes of_le
of_le-le_bytes zero n h = omega arith
of_le-le_bytes (suc k) n h =
    omega (arith, of_le-le_bytes k (n / 256) (omega (arith, pow-suc 256 k)))

pub of_le-lt : (bs : Bytes) → All IsByte bs → of_le bs < 256 ^ length bs
unfolding of_le
of_le-lt [] h = omega arith
of_le-lt (b ∷ bs) h = omega (arith, h.0, of_le-lt bs h.1, pow-suc 256 (length bs))

pub le_bytes-of_le : (bs : Bytes) → All IsByte bs → le_bytes (length bs) (of_le bs) ≡ bs
unfolding le_bytes of_le
le_bytes-of_le [] h = refl
le_bytes-of_le (b ∷ bs) h =
    let low : (b + 256 * of_le bs) % 256 ≡ b = omega (arith, h.0) in
    let high : (b + 256 * of_le bs) / 256 ≡ of_le bs = omega (arith, h.0) in
    rw (low, high, le_bytes-of_le bs h.1)

-- A format reads back the integer that it wrote.
pub unpack_int-pack_int :
    (s : Bool) (k : ℕ) (z : ℤ)
    → InRange s k z
    → (bs : Bytes) × (pack_int s k z ≡ ok bs) × (length bs ≡ k) × (unpack_int s k bs ≡ ok z)
unfolding pack_int unpack_int
unpack_int-pack_int false k (pos n) h = (
  le_bytes k n,
  ground arith,
  length-le_bytes k n,
  ground (arith, length-le_bytes k n, of_le-le_bytes k n),
)
unpack_int-pack_int false k (negsuc n) h = elim h [ ]
unpack_int-pack_int true k (pos n) h = (
  le_bytes k n,
  ground arith,
  length-le_bytes k n,
  ground (arith, length-le_bytes k n, of_le-le_bytes k n),
)
unpack_int-pack_int true k (negsuc n) h = (
  le_bytes k (256 ^ k - 1 - n),
  ground arith,
  length-le_bytes k (256 ^ k - 1 - n),
  ground (arith, length-le_bytes k (256 ^ k - 1 - n), of_le-le_bytes k (256 ^ k - 1 - n)),
)

-- What a format writes was in range.
pub pack_int-InRange :
    (s : Bool) (k : ℕ) (z : ℤ) (bs : Bytes) → pack_int s k z ≡ ok bs → InRange s k z
unfolding pack_int
pack_int-InRange false k (pos n) bs h = ground arith
pack_int-InRange true k (pos n) bs h = ground arith
pack_int-InRange true k (negsuc n) bs h = ground arith
pack_int-InRange false k (negsuc n) bs h = cc
