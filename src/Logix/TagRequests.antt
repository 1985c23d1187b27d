-- ===== src/Logix/TagRequests.antt =====
-- `_parse_requested_tags`, `_parse_tag_request` and `_get_tag_info` of pycomm3/logix_driver.py: what a
-- tag that the user names asks of the controller.
pub mod BoolArrays
use pycomm.Base.{
  ℕ, zero, suc, ◌+◌, ◌-◌, ◌*◌, ◌/◌, ◌%◌, Bool, true, false, ◌&&◌, List, [], ◌∷◌, ◌++◌, Option, none,
  some, ◌==◌, ltb, if◌then◌else◌, Text, text, text_eq, Result, Error, ok, err, ◌>>=◌, ◌>>◌, guard,
  raise_as, get_or_raise, request_error, other_error, reverse,
}
use pycomm.Base.Ints.{ℤ, pos, negsuc, ◌+ℤ◌, floor_div, has_remainder, show_int}
use pycomm.Base.Strings.{
  contains, before, after, split, join_with, starts_with, ends_with, drop_last, is_digit, int_of,
}
use pycomm.Utilities.{strip_array, get_array_index}

-- A tag's dictionary: its data type is a name, or the definition of a structure with its name and its
-- `internal_tags`.
mutual
  pub data TagInfo : Type 0 where
    atomic : Text → TagInfo
    struct : Text → Tags → TagInfo

  pub data Tags : Type 0 where
    no_tags : Tags
    entry : Text → TagInfo → Tags → Tags

unfoldable pub lookup : Tags → Text → Option TagInfo
lookup no_tags name = none
lookup (entry key info tags) name =
    let rest = lookup tags name in if text_eq key name then some info else rest

-- `data["data_type"]["internal_tags"]`
unfoldable pub internal_tags : TagInfo → Result Tags
internal_tags (atomic name) = err other_error
internal_tags (struct name tags) = ok tags

-- `_recurse_attrs`, of one attribute at least; `none` is the `None` of a structure that has no such member.
unfoldable pub recurse_attrs : Text → List Text → Tags → Result (Option TagInfo)
recurse_attrs cur [] tags = do
  info ← get_or_raise (lookup tags (strip_array cur)) other_error
  ok (some info)
recurse_attrs cur (next ∷ remain) tags = elim (lookup tags (strip_array cur)) [
  | none ↦ ok none
  | some info ↦ internal_tags info >>= recurse_attrs next remain
]

abbrev attribute_info : List Text → TagInfo → Result (Option TagInfo)
attribute_info [] info = ok (some info)
attribute_info (a ∷ attrs) info = internal_tags info >>= recurse_attrs a attrs

-- `_get_tag_info`: every exception becomes a RequestError.
unfoldable pub get_tag_info : Tags → Text → List Text → Result (Option TagInfo)
get_tag_info tags base attrs =
    raise_as request_error
      do info ← get_or_raise (lookup tags (strip_array base)) other_error; attribute_info attrs info

-- `data_type_name`
abbrev pub data_type_name : TagInfo → Text
data_type_name (atomic name) = name
data_type_name (struct name tags) = name

-- `tag_info["data_type"] == "DWORD"`
abbrev pub is_bool_array : TagInfo → Bool
is_bool_array (atomic name) = text_eq name (text "DWORD")
is_bool_array (struct name tags) = false

-- What `_parse_tag_request` returns.
pub record TagRequest : Type 0 where
  pub user_tag : Text
  pub plc_tag : Text
  pub bit : Option ℤ
  pub elements : ℤ
  pub tag_info : TagInfo
  pub bool_elements : Option ℤ

abbrev two_parts : List Text → Result (Text × Option ℤ)
two_parts (name ∷ count ∷ []) = do n ← int_of (drop_last count); ok (name, some n)
two_parts parts = err other_error

-- The tag without its count of elements; the count is `none` where it is implicit.
unfoldable pub split_elements : Text → Result (Text × Option ℤ)
split_elements tag =
    if ends_with b'}' tag && contains b'{' tag then two_parts (split b'{' tag) else ok (tag, none)

abbrev program_base : List Text → Result (Text × List Text)
program_base [] = err other_error
program_base (base ∷ []) =
    if starts_with (text "Program:") base then err other_error else ok (base, [])
program_base (base ∷ a ∷ attrs) =
    if starts_with (text "Program:") base
    then ok (base ++ (b'.' ∷ a), attrs)
    else ok (base, a ∷ attrs)

-- `base, *attrs = tag.split(".")`, with a program's name in the base.
unfoldable pub split_base : Text → Result (Text × List Text)
split_base tag = program_base (split b'.' tag)

abbrev number_of : Text → ℕ
number_of s = elim (int_of s) [ ok (pos n) ↦ n | _ ↦ 0 ]

-- `attrs[-1].isdigit()`: the number of a bit and the attributes before it.
unfoldable pub last_bit : List Text → Option (ℕ × List Text)
last_bit [] = none
last_bit (a ∷ []) = if is_digit a then some (number_of a, []) else none
last_bit (a ∷ b ∷ attrs) = elim (last_bit (b ∷ attrs)) [
  | none ↦ none
  | some (n, front) ↦ some (n, a ∷ front)
]

-- What is left of the tag when a bit is asked for.
abbrev path_of : Text → List Text → Text
path_of base [] = base
path_of base (a ∷ attrs) = base ++ (b'.' ∷ join_with b'.' (a ∷ attrs))

-- `bit or 0`
abbrev pub or_zero : Option ℤ → ℤ
or_zero none = pos 0
or_zero (some z) = z

-- `None if implicit_element or elements == 1 else elements`
abbrev pub counted_bools : Option ℤ → Option ℤ
counted_bools none = none
counted_bools (some (pos n)) = if n == 1 then none else some (pos n)
counted_bools (some (negsuc n)) = some (negsuc n)

abbrev pub count_of : Option ℤ → ℤ
count_of none = pos 1
count_of (some z) = z

-- The number of DWORDs from the first one to the last bit.
unfoldable pub dwords : Option ℤ → ℤ → ℤ
dwords bit elements =
    let total_size = or_zero bit +ℤ elements in
    floor_div total_size 32 +ℤ (if has_remainder total_size 32 then pos 1 else pos 0)

-- A DWORD array is read from its first element on, and written from the one that holds the bit.
abbrev pub dword_tag : Bool → Text → Text → Option ℤ → Text
dword_tag reading tag name none = tag
dword_tag true tag name (some idx) = name ++ text "[0]"
dword_tag false tag name (some idx) = name ++ (b'[' ∷ show_int (floor_div idx 32) ++ text "]")

-- The rest of the handler, once the tag's information is known; `reading` is `rw == "r"`.
unfoldable pub make_request : Bool → Text → Text → Option ℤ → Option ℤ → TagInfo → Result TagRequest
make_request reading user_tag tag bit count info =
    if is_bool_array info
    then (get_array_index tag >>= λ (name, idx). ok (record {
      user_tag = user_tag;
      plc_tag = dword_tag reading tag name idx;
      bit = idx;
      elements = dwords idx (count_of count);
      tag_info = info;
      bool_elements = counted_bools count;
    }))
    else ok (record {
      user_tag = user_tag;
      plc_tag = tag;
      bit = bit;
      elements = count_of count;
      tag_info = info;
      bool_elements = none;
    })

-- The information of `None` has no data type.
abbrev known : Option TagInfo → Result TagInfo
known none = err other_error
known (some info) = ok info

abbrev bit_and_path : Text → Text → List Text → Option (ℕ × List Text) → Option ℤ × List Text × Text
bit_and_path tag base attrs none = (none, attrs, tag)
bit_and_path tag base attrs (some (n, front)) = (some (pos n), front, path_of base front)

-- `_parse_tag_request`: what is no RequestError becomes one.
unfoldable pub parse_tag_request : Tags → Bool → Text → Result TagRequest
parse_tag_request tags reading tag = raise_as request_error do
  (tag, count) ← split_elements tag
  (base, attrs) ← split_base tag
  let (bit, attrs', path) = bit_and_path tag base attrs (last_bit attrs)
  found ← get_tag_info tags base attrs'
  info ← known found
  make_request reading tag path bit count info

-- `_parse_requested_tags`, in the order of the tags: the request, or its error.
unfoldable pub parse_requested_tags : Tags → Bool → List Text → List (Result TagRequest)
parse_requested_tags tags reading [] = []
parse_requested_tags tags reading (t ∷ ts) =
    parse_tag_request tags reading t ∷ parse_requested_tags tags reading ts
