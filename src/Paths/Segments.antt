-- ===== src/Paths/Segments.antt =====
-- `CIPSegment` and its subclasses, and `EPATH`, of pycomm3/cip/data_types.py.
use pycomm.Base.{
  ℕ, ◌+◌, ◌%◌, ◌/◌, bit_or, Bool, ◌&&◌, not, List, [], ◌∷◌, ◌++◌, Option, none, some, ltb, leb,
  ◌==◌, if◌then◌else◌, Text, Bytes, text, text_eq, length, Result, ok, err, ◌>>=◌, ◌>>◌, guard,
  get_or_raise, raise_as, data_error, other_error,
}
use Prim.Native.String.{String}
use pycomm.Base.Ints.{ℤ, pos, negsuc}
use pycomm.Base.Strings.{is_digit, int_of, utf8}
use pycomm.DataTypes.Integers.{usint, uint, udint}
use pycomm.DataTypes.Encode.{encode_int}

abbrev pub Table : Type 0
Table = List (String × ℕ)

-- `table.get(name)`
unfoldable pub table_get : Table → Text → Option ℕ
table_get [] name = none
table_get ((k, v) ∷ rest) name = if text_eq (text k) name then some v else table_get rest name

abbrev pub port_segments : Table
port_segments =
    ("backplane", 0b00000001)
    ∷ ("bp", 0b00000001)
    ∷ ("enet", 0b00000010)
    ∷ ("dhrio-a", 0b00000010)
    ∷ ("dhrio-b", 0b00000011)
    ∷ ("dnet", 0b00000010)
    ∷ ("cnet", 0b00000010)
    ∷ ("dh485-a", 0b00000010)
    ∷ ("dh485-b", 0b00000011)
    ∷ []

abbrev pub logical_types : Table
logical_types =
    ("class_id", 0b00000000)
    ∷ ("instance_id", 0b00000100)
    ∷ ("member_id", 0b00001000)
    ∷ ("connection_point", 0b00001100)
    ∷ ("attribute_id", 0b00010000)
    ∷ ("special", 0b00010100)
    ∷ ("service_id", 0b00011000)
    ∷ []

-- `logical_format.get(size)`
abbrev pub logical_format : ℕ → Option ℕ
logical_format n =
    if n == 1 then some 0 else if n == 2 then some 1 else if n == 4 then some 3 else none

-- An `int` or a `str`, an `int` or `bytes`, and an `int`, a `str` or `bytes`.
pub data Port : Type 0 where
  number : ℤ → Port
  name : Text → Port

pub data LogicalValue : Type 0 where
  number : ℤ → LogicalValue
  raw : Bytes → LogicalValue

pub data Link : Type 0 where
  number : ℤ → Link
  address : Text → Link
  raw : Bytes → Link

pub data SegmentData : Type 0 where
  symbol : Text → SegmentData
  raw : Bytes → SegmentData

pub data Segment : Type 0 where
  port : Port → Link → Segment
  logical : LogicalValue → Text → Segment
  data_segment : SegmentData → Segment

-- `if len(s) % 2: s += b"\x00"`
abbrev pub pad_even : Bytes → Bytes
pad_even s = if length s % 2 == 0 then s else s ++ (0 ∷ [])

abbrev byte_of : ℤ → Result Bytes
byte_of z = encode_int usint z

-- The size of a logical value that is a number.
unfoldable pub logical_number : ℤ → Result Bytes
logical_number (negsuc n) = byte_of (negsuc n)
logical_number (pos n) =
    if leb n 0xFF
    then encode_int usint (pos n)
    else if leb n 0xFFFF
    then encode_int uint (pos n)
    else if leb n 0xFFFF_FFFF
    then encode_int udint (pos n)
    else err data_error

unfoldable pub logical_bytes : LogicalValue → Result Bytes
logical_bytes (LogicalValue.number z) = logical_number z
logical_bytes (LogicalValue.raw bs) = ok bs

-- `LogicalSegment._encode`; `segment_type` is 0b_001_00000.
unfoldable pub encode_logical : LogicalValue → Text → Bool → Result Bytes
encode_logical v type_name padded = do
  type ← get_or_raise (table_get logical_types type_name) data_error
  value ← logical_bytes v
  fmt ← get_or_raise (logical_format (length value)) data_error
  let head = bit_or (bit_or 0b00100000 type) fmt
  let pad : Bytes = if padded && not ((1 + length value) % 2 == 0) then 0 ∷ [] else []
  ok (head ∷ (pad ++ value))

-- `DataSegment._encode`; `segment_type` is 0b_100_00000 and `extended_symbol` 0b_000_10001.
unfoldable pub encode_data : SegmentData → Result Bytes
encode_data (SegmentData.raw bs) = do
  head ← byte_of (pos 0b10000000)
  len ← byte_of (pos (length bs))
  ok (head ++ (len ++ bs))
encode_data (symbol s) = do
  chars ← utf8 s
  head ← byte_of (pos (bit_or 0b10000000 0b00010001))
  len ← byte_of (pos (length chars))
  ok (head ++ (len ++ pad_even chars))

-- `port |= extended_link`, which is 0b_000_1_0000; a negative port stays negative.
abbrev with_extended_link : ℤ → ℤ
with_extended_link (pos p) = pos (bit_or p 0b00010000)
with_extended_link (negsuc p) = negsuc p

-- The parameter is `ipaddress.ip_address`: whether it accepts a text.
module _ (is_ip_address : Text → Bool) where
  unfoldable pub port_number : Port → Result ℤ
  port_number (Port.number z) = ok z
  port_number (name s) = do p ← get_or_raise (table_get port_segments s) other_error; ok (pos p)

  unfoldable pub link_bytes : Link → Result Bytes
  link_bytes (Link.number z) = byte_of z
  link_bytes (Link.raw bs) = ok bs
  link_bytes (address s) =
      if is_digit s
      then (do z ← int_of s; byte_of z)
      else do guard (is_ip_address s) other_error; utf8 s

  -- `PortSegment._encode`
  unfoldable pub encode_port : Port → Link → Result Bytes
  encode_port p l = do
    port_id ← port_number p
    addr ← link_bytes l
    let extended = ltb 1 (length addr)
    head ← byte_of (if extended then with_extended_link port_id else port_id)
    len ← (if extended then byte_of (pos (length addr)) else ok [])
    ok (pad_even (head ++ (len ++ addr)))

  -- `CIPSegment.encode`
  unfoldable pub encode_segment : Segment → Bool → Result Bytes
  encode_segment (port p l) padded = raise_as data_error (encode_port p l)
  encode_segment (logical v t) padded = raise_as data_error (encode_logical v t padded)
  encode_segment (data_segment d) padded = raise_as data_error (encode_data d)

  unfoldable pub encode_segments : Bool → List Segment → Result Bytes
  encode_segments padded [] = ok []
  encode_segments padded (s ∷ ss) = do
    b ← encode_segment s padded
    rest ← encode_segments padded ss
    ok (b ++ rest)

  -- `EPATH.encode(segments, length, pad_length)`, of segments that are no `bytes`.
  unfoldable pub encode_path : Bool → List Segment → Bool → Bool → Result Bytes
  encode_path padded segments with_length pad_length = raise_as data_error do
    path ← encode_segments padded segments
    len ← (if with_length then byte_of (pos (length path / 2)) else ok [])
    ok ((if with_length && pad_length then len ++ (0 ∷ []) else len) ++ path)
