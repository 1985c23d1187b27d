-- ===== src/Slc/Values.antt =====
-- `writeable_value` and `_parse_read_reply` of pycomm3/slc_driver.py, with the data types of
-- pycomm3/cip/pccc.py.
pub mod Words
pub mod Bits
use pycomm.Base.{
  ℕ, zero, suc, ◌+◌, ◌*◌, ◌^◌, Bool, true, false, not, ◌&&◌, ◌||◌, List, [], ◌∷◌, ◌++◌, Option,
  none, some, ◌==◌, ltb, if◌then◌else◌, Text, Bytes, length, take, drop, Result, ok, err, ◌>>=◌,
  ◌>>◌, guard, raise_as, other_error, request_error, response_error, data_error, diverges,
}
use pycomm.Base.Ints.{ℤ, pos, negsuc}
use pycomm.Base.BitAt.{bit_at}
use pycomm.DataTypes.Integers.{uint, int, dint, IntType}
use pycomm.DataTypes.Types.{Typ}
use pycomm.DataTypes.Value.{
  Value, Values, str, bytes, list, dict, nil, cons, count, truthy, iterate, take_values,
}
use pycomm.DataTypes.Encode.{encode, encode_int, latin1}
use pycomm.DataTypes.Decode.{decode, decode_int}
use pycomm.Slc.Files.{
  FileType, file_n, file_b, file_t, file_c, file_s, file_f, file_st, file_a, file_r, file_o, file_i,
  file_l, data_size, preset, accumulated,
}
use pycomm.Slc.Addresses.{Address}

-- `_slc_string_swap`; a last byte without a partner raises ValueError.
unfoldable pub slc_string_swap : Bytes → Result Bytes
slc_string_swap [] = ok []
slc_string_swap (x ∷ []) = err other_error
slc_string_swap (x1 ∷ x2 ∷ xs) = do rest ← slc_string_swap xs; ok (x2 ∷ x1 ∷ rest)

-- `PCCC_ASCII.encode` and `PCCC_ASCII.decode`, for a `str`.
unfoldable pub encode_ascii : Value → Result Bytes
encode_ascii (str (char1 ∷ char2 ∷ cs)) =
    raise_as data_error
      do second ← latin1 (char2 ∷ []); first ← latin1 (char1 ∷ []); ok (second ++ first)
encode_ascii v = err data_error

unfoldable pub decode_ascii : Bytes → Result Value
decode_ascii raw = raise_as data_error do s ← slc_string_swap (take 2 raw); ok (str s)

-- `PCCC_STRING.encode` and `PCCC_STRING.decode`, for a `str`. The length that is read is not used.
unfoldable pub encode_pccc_string : Value → Result Bytes
encode_pccc_string (str s) = raise_as data_error do
  len ← encode_int uint (pos (length s))
  chars ← latin1 s
  swapped ← slc_string_swap chars
  ok (len ++ swapped)
encode_pccc_string v = err data_error

unfoldable pub decode_pccc_string : Bytes → Result Value
decode_pccc_string raw =
    let (len, rest) = decode_int uint raw in
    len >>= λ _. raise_as data_error (slc_string_swap (take 82 rest) >>= λ s. ok (str s))

-- How `PCCCDataTypes` reads and writes a file's elements.
pub data Format : Type 0 where
  number : IntType → Format
  real ascii pccc_string : Format

-- `PCCCDataTypes`; it has no entry for the other types, which no address has either.
unfoldable pub format : FileType → Option Format
format file_n = some (number int)
format file_b = some (number int)
format file_t = some (number int)
format file_c = some (number int)
format file_s = some (number int)
format file_o = some (number int)
format file_i = some (number int)
format file_f = some real
format file_a = some ascii
format file_r = some (number dint)
format file_st = some pccc_string
format file_l = some (number dint)
format _ = none

-- `tag["file_type"] in {"T", "C"}`
abbrev pub is_counter : FileType → Bool
is_counter file_t = true
is_counter file_c = true
is_counter _ = false

abbrev pub is_word : ℕ → Bool
is_word bit = bit == preset || bit == accumulated

abbrev pub is_bit : Address → Bool
is_bit a = a.address_field == 3

-- `get_bit`: a negative number has the bits of its two's complement.
unfoldable pub get_bit : ℤ → ℕ → Bool
get_bit (pos n) idx = bit_at idx n == 1
get_bit (negsuc n) idx = bit_at idx n == 0

-- Bits of what is no number raise TypeError; `True` is 1.
abbrev pub bit_of : Value → ℕ → Result Value
bit_of (Value.int z) idx = ok (Value.bool (get_bit z idx))
bit_of (Value.bool true) idx = ok (Value.bool (idx == 0))
bit_of (Value.bool false) idx = ok (Value.bool false)
bit_of v idx = err other_error

abbrev is_dict : Value → Bool
is_dict (dict fs) = true
is_dict _ = false

-- `value[:element_count]` of at least so many values; a dictionary has no slices.
abbrev pub first_values : ℕ → Value → Result Values
first_values n v = do
  vs ← iterate v
  _ ← guard (not (ltb (count vs) n)) request_error
  _ ← guard (not (is_dict v && ltb n (count vs))) other_error
  ok (take_values n vs)

-- `element_count` of 0 counts as 1.
abbrev pub elements_of : Address → ℕ
elements_of a = if a.element_count == 0 then 1 else a.element_count

abbrev pub mask_of : Address → Result Bytes
mask_of a = if is_bit a then encode_int uint (pos (2 ^ a.sub_element)) else ok (0xFF ∷ 0xFF ∷ [])

-- A list of one value is that value; without one, `values_list[0]` raises IndexError.
abbrev pub as_value : Values → Result Value
as_value nil = err other_error
as_value (cons v nil) = ok v
as_value (cons v (cons w vs)) = ok (list (cons v (cons w vs)))

-- REAL's format is `struct`'s: it is given by what packs and unpacks a float.
module _ (pack_real : Value → Result Bytes) (unpack_real : Bytes → Result Value) where
  -- `PCCCDataTypes[file_type].encode`
  unfoldable pub pack_func : Option Format → Value → Result Bytes
  pack_func none v = err other_error
  pack_func (some (number t)) v = encode (Typ.int t) v
  pack_func (some real) v = pack_real v
  pack_func (some ascii) v = encode_ascii v
  pack_func (some pccc_string) v = encode_pccc_string v

  -- `PCCCDataTypes[file_type].decode`
  unfoldable pub unpack_func : Option Format → Bytes → Result Value
  unpack_func none raw = err other_error
  unpack_func (some (number t)) raw = (decode (Typ.int t) raw).0
  unpack_func (some real) raw = unpack_real raw
  unpack_func (some ascii) raw = decode_ascii raw
  unpack_func (some pccc_string) raw = decode_pccc_string raw

  unfoldable pub pack_all : Option Format → Values → Result Bytes
  pack_all t nil = ok []
  pack_all t (cons v vs) = do b ← pack_func t v; rest ← pack_all t vs; ok (b ++ rest)

  -- One value: the mask and what is written under it.
  unfoldable pub one_value : Address → Bytes → Value → Result Bytes
  one_value a bit_mask v =
      if is_bit a
      then (if is_counter a.file_type && is_word a.sub_element
          then (do b ← pack_func (format a.file_type) v; ok (0xFF ∷ 0xFF ∷ b))
          else ok (bit_mask ++ (if truthy v then bit_mask else 0 ∷ 0 ∷ [])))
      else do b ← pack_func (format a.file_type) v; ok (bit_mask ++ b)

  unfoldable pub many_values : Address → Bytes → Values → Result Bytes
  many_values a bit_mask vs = do b ← pack_all (format a.file_type) vs; ok (bit_mask ++ b)

  unfoldable pub under_mask : Address → Value → Bytes → Result Bytes
  under_mask a v bit_mask =
      if ltb 1 (elements_of a)
      then (first_values (elements_of a) v >>= λ vs.
          raise_as request_error (many_values a bit_mask vs))
      else raise_as request_error (one_value a bit_mask v)

  -- `writeable_value`
  unfoldable pub writeable_value : Address → Value → Result Bytes
  writeable_value a (bytes bs) = ok bs
  writeable_value a v = mask_of a >>= under_mask a v

  -- `[unpack_func(data[i : i + data_size]) for i in range(0, len(data), data_size)]`
  unfoldable pub unpack_all : ℕ → ℕ → Option Format → Bytes → Result Values
  unpack_all zero size t raw = ok nil
  unpack_all (suc fuel) size t [] = ok nil
  unpack_all (suc fuel) size t (x ∷ xs) = do
    v ← unpack_func t (take size (x ∷ xs))
    vs ← unpack_all fuel size t (drop size (x ∷ xs))
    ok (cons v vs)

  unfoldable pub read_bit : Address → Bytes → Result Value
  read_bit a raw =
      let size = data_size a.file_type in
      let t = format a.file_type in
      if is_counter a.file_type && a.sub_element == preset
      then unpack_func t (take size (drop 2 raw))
      else if is_counter a.file_type && a.sub_element == accumulated
      then unpack_func t (take size (drop 4 raw))
      else unpack_func t (take size raw) >>= λ v. bit_of v a.sub_element

  unfoldable pub read_words : Address → Bytes → Result Value
  read_words a raw =
      unpack_all (length raw) (data_size a.file_type) (format a.file_type) raw >>= as_value

  -- `_parse_read_reply`: the value of the tag.
  unfoldable pub parse_read_reply : Address → Bytes → Result Value
  parse_read_reply a raw =
      raise_as response_error (if is_bit a then read_bit a raw else read_words a raw)
