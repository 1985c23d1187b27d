-- ===== src/Logix/Templates/Makeups.antt =====
-- `StructTemplateAttributes` of pycomm3/custom_types.py, and `_parse_structure_makeup_attributes` of
-- pycomm3/logix_driver.py.
use pycomm.Base.{
  none, Option, Bytes, ℕ, some, Text, text, Result, ok, err, ◌>>=◌, raise_as, response_error,
  other_error,
}
use pycomm.DataTypes.Integers.{IntType, uint, udint}
use pycomm.DataTypes.Types.{Typ, member, end}
use pycomm.DataTypes.Value.{Value, Fields, dict, int, get_item}
use pycomm.DataTypes.Decode.{decode, natural}
use pycomm.Logix.Templates.Types.{Makeup}

-- A struct of an attribute's number, its status, and its value.
abbrev attribute_struct : Text → IntType → Typ
attribute_struct key t = Typ.struct (
    member (some (text "attr_num")) (Typ.int uint)
      (member (some (text "status")) (Typ.int uint) (member (some key) (Typ.int t) end)))

abbrev pub struct_template_attributes : Typ
struct_template_attributes = Typ.struct (
    member (some (text "count")) (Typ.int uint) (
      member (some (text "object_definition_size")) (attribute_struct (text "size") udint) (
        member (some (text "structure_size")) (attribute_struct (text "size") udint) (
          member (some (text "member_count")) (attribute_struct (text "count") uint) (
            member (some (text "structure_handle")) (attribute_struct (text "handle") uint) end)))))

-- `response.value`, where `none` is a response that is not valid; data that do not decode make it one, too.
unfoldable pub attribute_values : Option Bytes → Result Value
attribute_values none = err response_error
attribute_values (some bytes) = raise_as response_error (decode struct_template_attributes bytes).0

abbrev items_of : Value → Result Fields
items_of (dict fs) = ok fs
items_of v = err other_error

abbrev number_of : Value → Result ℕ
number_of (int z) = ok (natural z)
number_of v = err other_error

-- `_struct[key][part]`
unfoldable pub attribute_of : Fields → Text → Text → Result ℕ
attribute_of fs key part = do
  v ← get_item fs (some key)
  parts ← items_of v
  n ← get_item parts (some part)
  number_of n

-- `_parse_structure_makeup_attributes`
unfoldable pub makeup_of : Value → Result Makeup
makeup_of v = raise_as response_error do
  fs ← items_of v
  size ← attribute_of fs (text "object_definition_size") (text "size")
  structure_size ← attribute_of fs (text "structure_size") (text "size")
  count ← attribute_of fs (text "member_count") (text "count")
  handle ← attribute_of fs (text "structure_handle") (text "handle")
  ok (record {
    object_definition_size = size;
    structure_size = structure_size;
    member_count = count;
    structure_handle = handle;
  })
