-- ===== src/DataTypes/Decode.antt =====
-- `decode` and `_decode` of the types in pycomm3/cip/data_types.py.
use pycomm.Base.{
  ℕ, zero, suc, ◌+◌, ◌*◌, Bool, true, false, not, List, [], ◌∷◌, Option, none, some, Text, Bytes,
  length, Result, ok, err, other_error, buffer_empty_error, diverges,
}
use pycomm.Base.Ints.{ℤ, pos, negsuc}
use pycomm.DataTypes.Integers.{IntType, size, format_width, is_signed, unpack_int}
use pycomm.DataTypes.BitArrays.{BitType, bit_size, host_type, bools_of}
use pycomm.DataTypes.Types.{
  StringType, len_type, ArrayLength, fixed, counted, unbound, Typ, Members, member, effective,
  chunk_of,
}
use pycomm.DataTypes.Value.{
  Value, Values, Fields, int, str, bytes, list, dict, nil, cons, field, append, set_item, pop_item,
}
use pycomm.DataTypes.Stream.{Decoder, ◌>>=◌, pure, lift, stream_read, decoding}

-- `decode` of an integer type.
unfoldable pub decode_int : IntType → Decoder ℤ
decode_int t =
    decoding
      do raw ← stream_read (some (size t)); lift (unpack_int (is_signed t) (format_width t) raw)

abbrev pub is_zero_byte : Bytes → Bool
is_zero_byte (zero ∷ []) = true
is_zero_byte _ = false

unfoldable pub decode_bool : Decoder Value
decode_bool = do raw ← stream_read (some 1); pure (Value.bool (not (is_zero_byte raw)))

-- The host types are unsigned.
abbrev pub natural : ℤ → ℕ
natural (pos n) = n
natural (negsuc n) = 0

abbrev pub bool_values : List Bool → Values
bool_values [] = nil
bool_values (b ∷ bs) = cons (Value.bool b) (bool_values bs)

unfoldable pub decode_bits : BitType → Decoder Value
decode_bits t = do
  val ← decode_int (host_type t)
  pure (list (bool_values (bools_of (bit_size t * 8) (natural val))))

abbrev pub read_text : ℕ → Decoder Text
read_text n s = elim n [ zero ↦ (ok [], s) | suc m ↦ stream_read (some (suc m)) s ]

-- The text has fewer characters than its length says where the stream ends early.
unfoldable pub decode_string : StringType → Decoder Value
decode_string t = do
  str_len ← decode_int (len_type t)
  chars ← read_text (natural str_len)
  pure (str chars)

unfoldable pub decode_n_bytes : Option ℕ → Decoder Value
decode_n_bytes n = do raw ← stream_read n; pure (bytes raw)

-- `[element_type.decode(stream) for _ in range(n)]`
unfoldable pub decode_first : ℕ → Decoder Value → Decoder Values
decode_first zero dec = pure nil
decode_first (suc n) dec = do v ← dec; vs ← decode_first n dec; pure (cons v vs)

-- `_decode_all`: the loop ends at BufferEmptyError.
abbrev pub on_element : Result Value → (Value → Decoder Values) → Decoder Values
on_element (ok v) more s = more v s
on_element (err buffer_empty_error) more s = (ok nil, s)
on_element (err e) more s = (err e, s)

unfoldable pub decode_all : ℕ → Decoder Value → Decoder Values
decode_all zero dec s = (err diverges, s)
decode_all (suc f) dec s =
    let (r, s') = dec s in on_element r (λ v. decode_all f dec >>= λ vs. pure (cons v vs)) s'

-- `chain.from_iterable`, of the lists that a bit array type decodes to.
abbrev pub flatten : Values → Values
flatten nil = nil
flatten (cons (list vs) ws) = append vs (flatten ws)
flatten (cons v ws) = flatten ws

abbrev pub chained : Option BitType → Values → Values
chained none vs = vs
chained (some t) vs = flatten vs

-- `Array.decode(buffer, length)`. With a type for its length, `range(_length)` raises TypeError.
unfoldable pub decode_array :
    ArrayLength → Result (Option BitType) → Decoder Value → Option ℕ → Decoder Value
decode_array len chunk dec arg = decoding (λ s. elim (effective len arg) [
  | fixed n ↦ (decode_first n dec >>= λ vs. lift chunk >>= λ c. pure (list (chained c vs))) s
  | counted t ↦ (err other_error, s)
  | unbound ↦ (decode_all (length s + 1) dec >>= λ vs. pure (list vs)) s
])

-- The items of a dictionary display, one after the other.
unfoldable pub set_all : Fields → Fields → Fields
set_all acc Fields.end = acc
set_all acc (field k v fs) = set_all (set_item acc k v) fs

-- Members with no name are taken off the result.
unfoldable pub named_fields : Fields → Fields
named_fields fs = pop_item (pop_item (set_all Fields.end fs) (some [])) none

unfoldable mutual
  pub decode : Typ → Decoder Value
  decode Typ.bool = decoding decode_bool
  decode (Typ.int t) = decode_int t >>= λ z. pure (int z)
  decode (Typ.bits t) = decoding (decode_bits t)
  decode (Typ.string t) = decoding (decode_string t)
  decode (Typ.n_bytes n) = decoding (decode_n_bytes n)
  decode (Typ.array len t) = decode_array len (chunk_of t) (decode t) none
  decode (Typ.struct ms) = decoding (decode_members ms >>= λ fs. pure (dict (named_fields fs)))

  pub decode_members : Members → Decoder Fields
  decode_members Members.end = pure Fields.end
  decode_members (member k t ms) = do v ← decode t; fs ← decode_members ms; pure (field k v fs)
