-- ===== src/Paths/Requests.antt =====
-- The request paths of pycomm3/packets/util.py.
use pycomm.Base.{
  ℕ, ◌%◌, Bool, true, false, ◌&&◌, not, List, [], ◌∷◌, ◌++◌, Option, none, some, ◌==◌,
  if◌then◌else◌, Text, Bytes, text, length, join, Result, ok, ◌>>=◌,
}
use pycomm.Base.Ints.{ℤ, pos}
use pycomm.Base.Strings.{split, contains, before, after, drop_last, starts_with, int_of}
use pycomm.DataTypes.Integers.{uint}
use pycomm.DataTypes.Encode.{encode_int}
use pycomm.Paths.Segments.{Segment, logical, data_segment, LogicalValue, symbol, encode_path}

abbrev class_code_connection_manager : Bytes
class_code_connection_manager = 0x06 ∷ []

abbrev class_code_symbol_object : Bytes
class_code_symbol_object = 0x6B ∷ []

-- An `int` or `bytes` that is not 0 and not empty.
abbrev is_given : LogicalValue → Bool
is_given (LogicalValue.number (pos n)) = not (n == 0)
is_given (LogicalValue.number z) = true
is_given (LogicalValue.raw []) = false
is_given (LogicalValue.raw (b ∷ bs)) = true

abbrev pub member_segment : ℤ → Segment
member_segment z = logical (LogicalValue.number z) (text "member_id")

-- `_find_tag_index`: the name and the indices of "name[i,j]"; the last character is taken for `]`.
unfoldable pub find_tag_index : Text → Text × List Text
find_tag_index tag =
    let t = drop_last tag in
    if contains b'[' tag then (before b'[' t, split b',' (after b'[' t)) else (tag, [])

-- `[LogicalSegment(int(idx), "member_id") for idx in index]`
unfoldable pub member_segments : List Text → Result (List Segment)
member_segments [] = ok []
member_segments (i ∷ others) = do
  z ← int_of i
  rest ← member_segments others
  ok (member_segment z ∷ rest)

unfoldable pub attr_segments : List Text → Result (List Segment)
attr_segments [] = ok []
attr_segments (a ∷ others) = do
  let (name, index) = find_tag_index a
  members ← member_segments index
  rest ← attr_segments others
  ok (data_segment (symbol name) ∷ (members ++ rest))

-- `tag_info.get("instance_id")`, which is used if it is neither missing nor 0.
abbrev instance_of : Option ℕ → Option ℕ
instance_of none = none
instance_of (some n) = if n == 0 then none else some n

abbrev base_segments : Text → Text → Bool → Option ℕ → List Segment
base_segments base base_tag use_instance_ids instance_id =
    if use_instance_ids && not (starts_with (text "Program:") base)
    then elim (instance_of instance_id) [
      | none ↦ data_segment (symbol base_tag) ∷ []
      | some n ↦
          logical (LogicalValue.raw class_code_symbol_object) (text "class_id")
          ∷ logical (LogicalValue.number (pos n)) (text "instance_id")
          ∷ []
    ]
    else data_segment (symbol base_tag) ∷ []

unfoldable pub tag_segments_of : List Text → Option ℕ → Bool → Result (List Segment)
tag_segments_of [] instance_id use_instance_ids = ok []
tag_segments_of (base ∷ attrs) instance_id use_instance_ids = do
  let (base_tag, index) = find_tag_index base
  members ← member_segments index
  rest ← attr_segments attrs
  ok (base_segments base base_tag use_instance_ids instance_id ++ (members ++ rest))

unfoldable pub tag_segments : Text → Option ℕ → Bool → Result (List Segment)
tag_segments tag instance_id use_instance_ids =
    tag_segments_of (split b'.' tag) instance_id use_instance_ids

module _ (is_ip_address : Text → Bool) where
  -- `request_path`
  unfoldable pub request_path : LogicalValue → LogicalValue → LogicalValue → Result Bytes
  request_path class_code instance_id attribute =
      encode_path is_ip_address true
        (logical class_code (text "class_id")
          ∷ logical instance_id (text "instance_id")
          ∷ (if is_given attribute then logical attribute (text "attribute_id") ∷ [] else []))
        true false

  -- `wrap_unconnected_send`: PRIORITY is 0x0a and TIMEOUT_TICKS 0x05.
  unfoldable pub wrap_unconnected_send : Bytes → Bytes → Result Bytes
  wrap_unconnected_send message route_path = do
    rp ←
        request_path (LogicalValue.raw class_code_connection_manager) (LogicalValue.raw (0x01 ∷ []))
          (LogicalValue.raw [])
    len ← encode_int uint (pos (length message))
    let pad : Bytes = if length message % 2 == 0 then [] else 0 ∷ []
    ok (join ((0x52 ∷ []) ∷ rp ∷ (0x0A ∷ []) ∷ (0x05 ∷ []) ∷ len ∷ message ∷ pad ∷ route_path ∷ []))

  -- `tag_request_path`
  unfoldable pub tag_request_path : Text → Option ℕ → Bool → Result Bytes
  tag_request_path tag instance_id use_instance_ids = do
    segments ← tag_segments tag instance_id use_instance_ids
    encode_path is_ip_address true segments true false
