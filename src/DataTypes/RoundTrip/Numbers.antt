-- ===== src/DataTypes/RoundTrip/Numbers.antt =====
-- What the unsigned integer types write, byte by byte.
use pycomm.Base.{
  length, ℕ, ◌/◌, ◌%◌, ◌^◌, ◌<◌, ◌≤◌, ◌≡◌, refl, ap, ◌∙◌, arith, [], ◌∷◌, Bytes, lt→ltb, le→ltb, ok,
  err, data_error,
}
use pycomm.Base.Ints.{pos}
use pycomm.DataTypes.Integers.{
  IntType, is_signed, size, InRange, unpack_int-pack_int, le_bytes, of_le, pack_int, usint, uint,
  udint,
}
use pycomm.DataTypes.Encode.{encode_int}
use pycomm.DataTypes.Decode.{decode_int}
use pycomm.DataTypes.RoundTrip.Leaves.{encode_int-Trip}

-- A number is written in 1, 2 or 4 bytes, from which it is read back.
pub encode_unsigned :
    (n : ℕ)
    → (n < 256 → encode_int usint (pos n) ≡ ok (le_bytes 1 n))
      × (n < 65536 → encode_int uint (pos n) ≡ ok (le_bytes 2 n))
      × (n < 2 ^ 32 → encode_int udint (pos n) ≡ ok (le_bytes 4 n))
unfolding encode_int pack_int
encode_unsigned n =
    (λ h. rw (lt→ltb n 256 h), λ h. rw (lt→ltb n 65536 h), λ h. rw (lt→ltb n (2 ^ 32) h))

pub encode_byte : (n : ℕ) → n < 256 → encode_int usint (pos n) ≡ ok (n ∷ [])
encode_byte n h =
    let same : n % 256 ≡ n = omega arith in
    (encode_unsigned n).0 h ∙ unfold le_bytes in ap (λ b. ok (b ∷ [])) same

pub one_byte : (x : ℕ) → of_le (x ∷ []) ≡ x
unfolding of_le
one_byte x = omega arith

pub encode_byte_wide : (n : ℕ) → 256 ≤ n → encode_int usint (pos n) ≡ err data_error
unfolding encode_int pack_int
encode_byte_wide n h = rw (le→ltb n 256 h)

ok-injective : (a b : Bytes) → ok a ≡ ok b → a ≡ b
ok-injective a b h = cc

-- A UINT is two bytes, which are read back.
pub uint_two_bytes :
    (n : ℕ)
    → n < 65536
    → (encode_int uint (pos n) ≡ ok (n % 256 ∷ n / 256 % 256 ∷ []))
      × ((rest : Bytes) → decode_int uint (n % 256 ∷ n / 256 % 256 ∷ rest) ≡ (ok (pos n), rest))
uint_two_bytes n h =
    let written : encode_int uint (pos n) ≡ ok (n % 256 ∷ n / 256 % 256 ∷ []) =
      (encode_unsigned n).1 h ∙ unfold le_bytes in refl in
    let (b, e, d) = encode_int-Trip uint (pos n) h in
    let same : b ≡ n % 256 ∷ n / 256 % 256 ∷ [] = ok-injective b _ (cc) in
    (written, λ rest. rw same at (d rest))

pub encode_uint_wide : (n : ℕ) → 65536 ≤ n → encode_int uint (pos n) ≡ err data_error
unfolding encode_int pack_int
encode_uint_wide n h = rw (le→ltb n 65536 h)

pub udint_four_bytes :
    (n : ℕ)
    → n < 2 ^ 32
    → (a b c d : ℕ) × (encode_int udint (pos n) ≡ ok (a ∷ b ∷ c ∷ d ∷ []))
      × ((rest : Bytes) → decode_int udint (a ∷ b ∷ c ∷ d ∷ rest) ≡ (ok (pos n), rest))
udint_four_bytes n h =
    let (bs, e, d) = encode_int-Trip udint (pos n) h in
    let written = (encode_unsigned n).2 h in
    let same : bs ≡ le_bytes 4 n = ok-injective bs _ (cc) in
    (
      n % 256,
      n / 256 % 256,
      n / 256 / 256 % 256,
      n / 256 / 256 / 256 % 256,
      written ∙ unfold le_bytes in refl,
      λ rest. unfold le_bytes in rw same at (d rest),
    )

-- A number that an integer type holds is written to as many bytes as the type has.
pub encode-InRange :
    (t : IntType) (n : ℕ)
    → InRange (is_signed t) (size t) (pos n)
    → (b : Bytes) × (encode_int t (pos n) ≡ ok b) × (length b ≡ size t)
unfolding encode_int
encode-InRange t n h =
    let (b, e, l, back) = unpack_int-pack_int (is_signed t) (size t) (pos n) h in (b, rw e refl, l)
