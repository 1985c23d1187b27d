-- ===== src/CustomTypes/Decoding.antt =====
-- `_decode` of `FixedSizeString` and `StructTag` in pycomm3/custom_types.py, and the two types.
use pycomm.Base.{
  Option, ℕ, suc, ◌-◌, Bool, not, List, [], ◌∷◌, none, some, ◌==◌, if◌then◌else◌, Text, Bytes,
  length, get_elem?, take, drop, Result, ok, err, raise_as, data_error, other_error,
}
use pycomm.Base.Ints.{ℤ, pos, negsuc}
use pycomm.Base.BitAt.{bit_at}
use pycomm.DataTypes.Integers.{IntType}
use pycomm.DataTypes.Value.{Value, Fields, str, dict, end, field, Key}
use pycomm.DataTypes.Decode.{decode_int, set_all}
use pycomm.DataTypes.Stream.{Decoder, ◌>>=◌, pure, lift, stream_read, decoding}
use pycomm.CustomTypes.Codecs.{Codec, TagMember, BitMember, Template}
use pycomm.CustomTypes.Encoding.{encode_fixed_string, encode_struct_tag, is_private}

-- `_data[:n]`, where a negative `n` counts from the end.
abbrev pub cut : ℤ → Bytes → Bytes
cut (pos n) chars = take n chars
cut (negsuc n) chars = take (length chars - suc n) chars

unfoldable pub decode_fixed_string : ℕ → IntType → Decoder Value
decode_fixed_string size len_type = do
  len ← decode_int len_type
  chars ← stream_read (some size)
  pure (str (cut len chars))

-- `FixedSizeString(size, len_type)`
abbrev pub fixed_size_string : ℕ → IntType → Codec
fixed_size_string size len_type = record {
  encode_value = λ v. raise_as data_error (encode_fixed_string size len_type v);
  decode_value = decoding (decode_fixed_string size len_type);
}

-- `if stream.tell() < offset: stream.read(offset - stream.tell())`, of the stream over `raw`.
unfoldable pub skip : Bytes → ℕ → Decoder (Unit {0})
skip raw offset s = (ok tt, drop (offset - (length raw - length s)) s)

-- The first loop of `_decode`, as the items that it sets.
unfoldable pub read_members : Bytes → List TagMember → Decoder Fields
read_members raw [] = pure end
read_members raw (m ∷ ms) = do
  u ← skip raw m.offset
  v ← m.codec.decode_value
  fs ← read_members raw ms
  pure (field (some m.member_name) v fs)

-- `bool(raw[offset] & (1 << bit))`; a byte that is not there raises IndexError.
abbrev bit_value : ℕ → Option ℕ → Result Bool
bit_value j none = err other_error
bit_value j (some x) = ok (not (bit_at j x == 0))

abbrev put_bit : Text → Result Bool → Result Fields → Result Fields
put_bit name (ok v) (ok fs) = ok (field (some name) (Value.bool v) fs)
put_bit name (ok v) (err e) = err e
put_bit name (err e) rest = err e

-- The second loop of `_decode`, as the items that it sets.
unfoldable pub read_bits : Bytes → List BitMember → Result Fields
read_bits raw [] = ok end
read_bits raw (m ∷ ms) =
    put_bit m.bit_name (bit_value m.bit (get_elem? raw m.byte_offset)) (read_bits raw ms)

-- The dictionary without the private names; every key is a name.
abbrev pub is_hidden : List Text → Key → Bool
is_hidden private none = Bool.false
is_hidden private (some name) = is_private private name

unfoldable pub public_fields : List Text → Fields → Fields
public_fields private end = end
public_fields private (field k v fs) =
    let rest = public_fields private fs in if is_hidden private k then rest else field k v rest

unfoldable pub struct_fields : Template → Bytes → Decoder Value
struct_fields t raw = do
  fs ← read_members raw t.members
  gs ← lift (read_bits raw t.bit_members)
  pure (dict (public_fields t.private_members (set_all (set_all end fs) gs)))

-- `StructTag._decode` reads the bytes of the structure into a stream of their own.
unfoldable pub decode_struct_tag : Template → Decoder Value
decode_struct_tag t s =
    let raw = take t.struct_size s in
    let (r, s') = struct_fields t raw raw in (r, drop t.struct_size s)

-- `StructTag(*members, bit_members=..., private_members=..., struct_size=...)`
abbrev pub struct_tag : Template → Codec
struct_tag t = record {
  encode_value = λ v. raise_as data_error (encode_struct_tag t v);
  decode_value = decoding (decode_struct_tag t);
}
