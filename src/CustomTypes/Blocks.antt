-- ===== src/CustomTypes/Blocks.antt =====
-- The blocks of integers and of Logix strings.
use pycomm.Base.{
  ℕ, ◌+◌, ◌-◌, ◌≤◌, ◌<◌, ◌≡◌, arith, refl, ◌++◌, append_assoc, Text, Bytes, length, replicate, All,
  take-append, length-append, length-replicate, ==-refl,
}
use pycomm.Base.Ints.{ℤ, pos}
use pycomm.DataTypes.Integers.{
  IntType, size, is_signed, InRange, IsByte, unpack_int, unpack_int-pack_int, of_pattern, of_le,
}
use pycomm.DataTypes.Types.{Typ}
use pycomm.DataTypes.Value.{int, str}
use pycomm.DataTypes.Encode.{encode, encode_int, pack_value}
use pycomm.DataTypes.Decode.{decode, decode_int}
use pycomm.DataTypes.RoundTrip.Leaves.{latin1-eq, stream_read-append, size_pos}
use pycomm.CustomTypes.Codecs.{type_codec}
use pycomm.CustomTypes.Encoding.{encode_fixed_string}
use pycomm.CustomTypes.Decoding.{decode_fixed_string, fixed_size_string}
use pycomm.CustomTypes.Layout.{Block, ReadsAny}

-- An integer type reads any bytes of its size.
pub int-ReadsAny : (t : IntType) → ReadsAny (type_codec (Typ.int t)) (size t)
unfolding decode decode_int unpack_int
int-ReadsAny t b len = (
  int (of_pattern (is_signed t) (size t) (of_le b)),
  λ rest. rw (stream_read-append (size t) b rest (size_pos t) len, len, ==-refl (size t)) refl,
)

-- An integer of the type's range has a block of the type's size.
pub int-Block :
    (t : IntType) (z : ℤ)
    → InRange (is_signed t) (size t) z
    → (b : Bytes) × (length b ≡ size t) × Block (type_codec (Typ.int t)) (int z) b
unfolding encode decode pack_value decode_int
int-Block t z range =
    let (b, packed, len, unpacked) = unpack_int-pack_int (is_signed t) (size t) z range in
    (
      b,
      len,
      (
        rw packed refl,
        λ rest. rw (stream_read-append (size t) b rest (size_pos t) len, unpacked) refl,
      ),
    )

-- A text that fits, with its length before it and zeros behind it.
pub fixed_size_string-Block :
    (n : ℕ) (t : IntType) (s : Text)
    → 0 < n
    → length s ≤ n
    → All IsByte s
    → InRange (is_signed t) (size t) (pos (length s))
    → (b : Bytes) × (length b ≡ size t + n) × Block (fixed_size_string n t) (str s) b
unfolding encode_fixed_string decode_fixed_string encode_int decode_int
fixed_size_string-Block n t s positive fits bytes range =
    let (p, packed, len_p, unpacked) =
      unpack_int-pack_int (is_signed t) (size t) (pos (length s)) range in
    let padded = s ++ replicate (n - length s) 0 in
    let len : length padded ≡ n = omega (
      arith,
      length-append s (replicate (n - length s) 0),
      length-replicate {A = ℕ} (n - length s) 0,
    ) in
    (
      p ++ padded,
      omega (arith, length-append p padded, len_p, len),
      (
        rw (packed, latin1-eq s bytes) refl,
        λ rest.
            rw
              (
                append_assoc p padded rest,
                stream_read-append (size t) p (padded ++ rest) (size_pos t) len_p,
                unpacked,
                stream_read-append n padded rest positive len,
                take-append (length s) s (replicate (n - length s) 0) refl,
              )
              refl,
      ),
    )
