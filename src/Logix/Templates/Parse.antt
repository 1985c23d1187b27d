-- ===== src/Logix/Templates/Parse.antt =====
-- `_parse_template_data_member_info` and `_parse_template_data` of pycomm3/logix_driver.py.
use pycomm.Base.{
  ℕ, zero, suc, ◌%◌, ◌+◌, Bool, false, ◌&&◌, List, [], ◌∷◌, ◌++◌, Option, none, some, if◌then◌else◌,
  Text, text, text_eq, Bytes,
}
use pycomm.Base.Ints.{pos, negsuc, ◌+ℤ◌}
use pycomm.DataTypes.Stream.{Decoder, ◌>>=◌, pure}
use pycomm.CustomTypes.Codecs.{BitMember}
use pycomm.Logix.Symbols.{unsigned, type_field}
use pycomm.Logix.Templates.Types.{
  Class, elementary, array, fixed_string, struct_class, ClassMembers, no_members, class_member,
  Makeup, MemberType, atomic, struct, DataType, data_type, Members, no_tags, member, MemberInfo,
  class_of_type, type_name, get_data_type_name,
}
use pycomm.Logix.Templates.Names.{is_predefined, template_names, member_name_or, is_private_name}

-- The first fields of a member: its bit or the size of its array, its type, and its offset.
unfoldable pub member_fields : Decoder (ℕ × ℕ × ℕ)
member_fields = do
  type_info ← type_field
  typ ← type_field
  offset ← unsigned
  pure (type_info, typ, offset)

-- The elementary type of a code, with or without the bits above the lower 12.
unfoldable pub elementary_name : ℕ → Option Text
elementary_name typ = elim (get_data_type_name typ) [
  | some name ↦ some name
  | none ↦ get_data_type_name (typ % 4096)
]

abbrev pub array_class : ℕ → Class → Class
array_class zero t = t
array_class (suc n) t = array (suc n) t

-- The rest of the member's dictionary.
abbrev pub elementary_member : ℕ → ℕ → Text → MemberInfo
elementary_member type_info offset name =
    let is_bool = text_eq name (text "BOOL") in
    record {
      offset = offset;
      member_type = atomic name;
      member_class = if is_bool then elementary name else array_class type_info (elementary name);
      bit = if is_bool then some type_info else none;
      array = if is_bool then none else some type_info;
    }

abbrev pub struct_member : ℕ → ℕ → DataType → MemberInfo
struct_member type_info offset t = record {
  offset = offset;
  member_type = struct t;
  member_class = array_class type_info (class_of_type t);
  bit = none;
  array = some type_info;
}

-- `data_type_name`
abbrev pub name_of : MemberType → Option Text
name_of (atomic name) = some name
name_of (struct t) = type_name t

-- What the loop over the members gathers.
pub record Parts : Type 0 where
  pub internal_tags : Members
  pub attributes : List Text
  pub struct_members : ClassMembers
  pub bit_members : List BitMember
  pub private_members : List Text
  pub unknown_count : ℕ

abbrev pub no_parts : Parts
no_parts = record {
  internal_tags = no_tags;
  attributes = [];
  struct_members = no_members;
  bit_members = [];
  private_members = [];
  unknown_count = 0;
}

-- `internal_tags[key] = info`
unfoldable pub put_tag : Text → MemberInfo → Members → Members
put_tag key info no_tags =
    member key info.member_type info.member_class info.offset info.bit info.array no_tags
put_tag key info (member k t c o b a rest) =
    let later = put_tag key info rest in
    if text_eq k key
    then member k info.member_type info.member_class info.offset info.bit info.array rest
    else member k t c o b a later

-- `_bit_members[key] = (offset, bit)`
unfoldable pub put_bit_member : BitMember → List BitMember → List BitMember
put_bit_member m [] = m ∷ []
put_bit_member m (x ∷ xs) =
    let later = put_bit_member m xs in if text_eq x.bit_name m.bit_name then m ∷ xs else x ∷ later

unfoldable pub append_class_member : ClassMembers → Text → Class → ℕ → ClassMembers
append_class_member no_members name t o = class_member name t o no_members
append_class_member (class_member n u p rest) name t o =
    class_member n u p (append_class_member rest name t o)

abbrev pub is_unnamed : Text → ℕ
is_unnamed [] = 1
is_unnamed (c ∷ cs) = 0

-- A member with `bit` goes to the bits, any other one to the members of the structure.
abbrev pub place : Option ℕ → Text → MemberInfo → Parts → Parts
place (some bit) name info parts = record parts {
  bit_members =
      put_bit_member (record { bit_name = name; byte_offset = info.offset; bit = bit })
        parts.bit_members;
}
place none name info parts = record parts {
  struct_members = append_class_member parts.struct_members name info.member_class info.offset;
}

-- One turn of the loop over `zip(member_names, member_data)`.
unfoldable pub add_member : Bool → Text → MemberInfo → Parts → Parts
add_member predefine raw_name info parts =
    let name = member_name_or parts.unknown_count raw_name in
    let hidden = is_private_name predefine name in
    place info.bit name info (record parts {
      internal_tags = put_tag name info parts.internal_tags;
      attributes = if hidden then parts.attributes else parts.attributes ++ (name ∷ []);
      private_members =
          if hidden then parts.private_members ++ (name ∷ []) else parts.private_members;
      unknown_count = parts.unknown_count + is_unnamed raw_name;
    })

unfoldable pub add_members : Bool → List Text → List MemberInfo → Parts → Parts
add_members predefine (name ∷ names) (info ∷ infos) parts =
    add_members predefine names infos (add_member predefine name info parts)
add_members predefine names infos parts = parts

abbrev pub is_len_data : List Text → Bool
is_len_data (a ∷ b ∷ []) = text_eq a (text "LEN") && text_eq b (text "DATA")
is_len_data names = false

abbrev chars_array : Option Text → Option ℕ → Option ℕ
chars_array (some name) (some (suc n)) = if text_eq name (text "SINT") then some (suc n) else none
chars_array name size = none

-- The size of the array `DATA` if it is one of SINT.
unfoldable pub data_array : Members → Option ℕ
data_array no_tags = none
data_array (member k t c o b a rest) =
    let later = data_array rest in
    if text_eq k (text "DATA") then chars_array (name_of t) a else later

abbrev pub finished : Option Text → Makeup → Parts → Option ℕ → DataType
finished name template parts (some n) =
    data_type name parts.internal_tags parts.attributes template (some n)
      (fixed_string (pos template.structure_size +ℤ negsuc 3))
finished name template parts none =
    data_type name parts.internal_tags parts.attributes template none (
      struct_class parts.struct_members parts.bit_members parts.private_members
        template.structure_size)

-- What `_parse_template_data` returns, for the members' dictionaries.
unfoldable pub template_type : (Bytes → Text) → Bytes → Makeup → ℕ → List MemberInfo → DataType
template_type utf8 names template symbol_type infos =
    let predefine = is_predefined (symbol_type % 4096) in
    let (name, member_names) = template_names utf8 predefine names in
    let parts = add_members predefine member_names infos no_parts in
    finished name template parts
      (if is_len_data parts.attributes then data_array parts.internal_tags else none)
