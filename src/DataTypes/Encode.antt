-- ===== src/DataTypes/Encode.antt =====
-- `encode` and `_encode` of the types in pycomm3/cip/data_types.py.
use pycomm.Base.{
  ℕ, zero, suc, ◌*◌, ◌/◌, Bool, true, false, List, [], ◌∷◌, ◌++◌, Option, none, some, ltb, ◌==◌,
  if◌then◌else◌, Text, Bytes, length, take, Result, ok, err, ◌>>=◌, ◌>>◌, guard, raise_as,
  data_error, other_error,
}
use pycomm.Base.Ints.{ℤ, pos}
use pycomm.DataTypes.Integers.{IntType, format_width, is_signed, pack_int}
use pycomm.DataTypes.BitArrays.{BitType, bit_size, host_type, or_bits}
use pycomm.DataTypes.Types.{
  StringType, len_type, ArrayLength, fixed, counted, unbound, Typ, Members, member, effective,
  chunk_of,
}
use pycomm.DataTypes.Value.{
  Value, Values, Fields, int, str, bytes, list, dict, nil, cons, count, count_fields, truthy,
  iterate, take_values, drop_values, get_item,
}

-- `pack(cls._format, value)`; a `bool` is an integer to Python.
unfoldable pub pack_value : IntType → Value → Result Bytes
pack_value t (int z) = pack_int (is_signed t) (format_width t) z
pack_value t (Value.bool true) = pack_int (is_signed t) (format_width t) (pos 1)
pack_value t (Value.bool false) = pack_int (is_signed t) (format_width t) (pos 0)
pack_value t _ = err other_error

-- `encode` of an integer type at a number.
unfoldable pub encode_int : IntType → ℤ → Result Bytes
encode_int t z = raise_as data_error (pack_int (is_signed t) (format_width t) z)

-- `value.encode("iso-8859-1")`
unfoldable pub latin1 : Text → Result Bytes
latin1 [] = ok []
latin1 (c ∷ cs) = do rest ← latin1 cs; guard (ltb c 256) other_error; ok (c ∷ rest)

unfoldable pub encode_string : StringType → Value → Result Bytes
encode_string t (str s) = do
  prefix ← encode_int (len_type t) (pos (length s))
  chars ← latin1 s
  ok (prefix ++ chars)
encode_string t _ = err other_error

-- The slice of `bytes`; of another value it is no `bytes`, and what joins it raises TypeError.
unfoldable pub encode_bytes : Option ℕ → Value → Result Bytes
encode_bytes (some n) (bytes bs) = ok (take n bs)
encode_bytes none (bytes bs) = ok bs
encode_bytes n _ = err other_error

abbrev pub truths : Values → List Bool
truths nil = []
truths (cons v vs) = truthy v ∷ truths vs

unfoldable pub encode_bits : BitType → Value → Result Bytes
encode_bits t v = do
  vs ← iterate v
  guard (count vs == 8 * bit_size t) data_error
  pack_int false (format_width (host_type t)) (pos (or_bits 0 0 (truths vs)))

-- `b"".join(element_type.encode(values[i]) for i in range(n))`
unfoldable pub encode_first : ℕ → (Value → Result Bytes) → Values → Result Bytes
encode_first zero enc vs = ok []
encode_first (suc n) enc nil = err other_error
encode_first (suc n) enc (cons v vs) = do b ← enc v; rest ← encode_first n enc vs; ok (b ++ rest)

-- `[values[i : i + c] for i in range(0, len(values), c)]`, on fuel of `len(values)`.
unfoldable pub chunks : ℕ → ℕ → Values → Values
chunks fuel c nil = nil
chunks zero c vs = nil
chunks (suc f) c vs = cons (list (take_values c vs)) (chunks f c (drop_values c vs))

unfoldable pub encode_items : Option BitType → (Value → Result Bytes) → ℕ → Values → Result Bytes
encode_items none enc n vs = encode_first n enc vs
encode_items (some t) enc n vs =
    let c = bit_size t * 8 in encode_first (count vs / c) enc (chunks (count vs) c vs)

-- The check of the number of values, which stands outside the `try`.
unfoldable pub item_count : ArrayLength → ℕ → Result ℕ
item_count (fixed n) len = if ltb len n then err data_error else ok n
item_count (counted t) len = ok len
item_count unbound len = ok len

-- A dictionary has a length and no items at numbers.
unfoldable pub encode_dict_items : Option BitType → ℕ → ℕ → Result Bytes
encode_dict_items none n len = if n == 0 then ok [] else err other_error
encode_dict_items (some t) n len = if len == 0 then ok [] else err other_error

-- `Array.encode(values, length)`
unfoldable pub encode_array :
    ArrayLength → Result (Option BitType) → (Value → Result Bytes) → Option ℕ → Value → Result Bytes
encode_array len chunk enc arg (dict fs) = do
  n ← item_count (effective len arg) (count_fields fs)
  raise_as data_error (chunk >>= λ c. encode_dict_items c n (count_fields fs))
encode_array len chunk enc arg v = do
  vs ← iterate v
  n ← item_count (effective len arg) (count vs)
  raise_as data_error (chunk >>= λ c. encode_items c enc n vs)

unfoldable mutual
  pub encode : Typ → Value → Result Bytes
  encode Typ.bool v = ok (if truthy v then 0xFF ∷ [] else 0 ∷ [])
  encode (Typ.int t) v = raise_as data_error (pack_value t v)
  encode (Typ.bits t) v = raise_as data_error (encode_bits t v)
  encode (Typ.string t) v = raise_as data_error (encode_string t v)
  encode (Typ.n_bytes n) v = raise_as data_error (encode_bytes n v)
  encode (Typ.array len t) v = encode_array len (chunk_of t) (encode t) none v
  encode (Typ.struct ms) (dict fs) = raise_as data_error (encode_named ms fs)
  encode (Typ.struct ms) v = raise_as data_error (iterate v >>= λ vs. encode_zip ms vs)

  -- the members of a dictionary
  pub encode_named : Members → Fields → Result Bytes
  encode_named Members.end fs = ok []
  encode_named (member k t ms) fs = do
    v ← get_item fs k
    b ← encode t v
    rest ← encode_named ms fs
    ok (b ++ rest)

  -- `zip(cls.members, values)`: the shorter one ends it
  pub encode_zip : Members → Values → Result Bytes
  encode_zip Members.end vs = ok []
  encode_zip (member k t ms) nil = ok []
  encode_zip (member k t ms) (cons v vs) = do
    b ← encode t v
    rest ← encode_zip ms vs
    ok (b ++ rest)
