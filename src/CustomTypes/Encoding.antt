-- ===== src/CustomTypes/Encoding.antt =====
-- `_encode` of `FixedSizeString` and `StructTag` in pycomm3/custom_types.py.
use pycomm.Base.{
  ℕ, ◌+◌, ◌-◌, ◌^◌, bit_or, Bool, true, false, ◌||◌, List, [], ◌∷◌, ◌++◌, some, ltb, if◌then◌else◌,
  Text, text_eq, Bytes, length, get_elem?, take, drop, replicate, Result, ok, err, ◌>>=◌, ◌>>◌,
  guard, get_or_raise, other_error,
}
use pycomm.Base.Ints.{pos}
use pycomm.Base.BitAt.{clear_bit}
use pycomm.DataTypes.Integers.{IntType}
use pycomm.DataTypes.Value.{Value, Fields, str, dict, get_item, truthy}
use pycomm.DataTypes.Encode.{encode_int, latin1}
use pycomm.CustomTypes.Codecs.{TagMember, BitMember, Template}

-- Nothing is cut: a text that is longer than `size` is written whole.
unfoldable pub encode_fixed_string : ℕ → IntType → Value → Result Bytes
encode_fixed_string size len_type (str s) = do
  prefix ← encode_int len_type (pos (length s))
  chars ← latin1 s
  ok (prefix ++ (chars ++ replicate (size - length s) 0))
encode_fixed_string size len_type v = err other_error

-- `name in private`
unfoldable pub is_private : List Text → Text → Bool
is_private [] name = false
is_private (p ∷ ps) name = text_eq p name || is_private ps name

-- `value[o : o + len(b)] = b`, which appends where `o` is past the end.
abbrev pub splice : ℕ → Bytes → Bytes → Bytes
splice o b buf = take o buf ++ (b ++ drop (o + length b) buf)

unfoldable pub write_member : Fields → TagMember → Bytes → Result Bytes
write_member values m buf = do
  v ← get_item values (some m.member_name)
  b ← m.codec.encode_value v
  ok (splice m.offset b buf)

-- The first loop of `_encode`.
unfoldable pub write_members : List Text → Fields → List TagMember → Bytes → Result Bytes
write_members private values [] buf = ok buf
write_members private values (m ∷ ms) buf = do
  buf' ← if is_private private m.member_name then ok buf else write_member values m buf
  write_members private values ms buf'

-- A byte of a `bytearray` is below 256: anything else raises ValueError.
unfoldable pub set_byte : ℕ → ℕ → Bytes → Result Bytes
set_byte o x buf = do guard (ltb x 256) other_error; ok (splice o (x ∷ []) buf)

-- `|= 1 << bit`, or `&= ~(1 << bit)`
unfoldable pub with_bit : Bool → ℕ → ℕ → ℕ
with_bit true j x = bit_or x (2 ^ j)
with_bit false j x = clear_bit x j

unfoldable pub write_bit : Fields → BitMember → Bytes → Result Bytes
write_bit values m buf = do
  val ← get_item values (some m.bit_name)
  x ← get_or_raise (get_elem? buf m.byte_offset) other_error
  set_byte m.byte_offset (with_bit (truthy val) m.bit x) buf

-- The second loop of `_encode`.
unfoldable pub write_bits : Fields → List BitMember → Bytes → Result Bytes
write_bits values [] buf = ok buf
write_bits values (m ∷ ms) buf = do buf' ← write_bit values m buf; write_bits values ms buf'

-- `StructTag._encode`: a value without `items` raises AttributeError.
unfoldable pub encode_struct_tag : Template → Value → Result Bytes
encode_struct_tag t (dict fs) = do
  buf ← write_members t.private_members fs t.members (replicate t.struct_size 0)
  write_bits fs t.bit_members buf
encode_struct_tag t v = err other_error
