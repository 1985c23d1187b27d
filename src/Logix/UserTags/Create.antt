-- ===== src/Logix/UserTags/Create.antt =====
-- `_create_tag` of pycomm3/logix_driver.py.
use pycomm.Base.{
  ℕ, zero, suc, ◌*◌, ◌/◌, ◌%◌, Bool, true, false, List, [], ◌∷◌, Option, none, some, ◌==◌,
  if◌then◌else◌, Text, take,
}
use pycomm.Base.BitAt.{bit_at}
use pycomm.Logix.Symbols.{Symbol}
use pycomm.Logix.Templates.Types.{Class, elementary, DataType, class_of_type, get_data_type_name}
use pycomm.Logix.Templates.Cache.{Step, ◌>>=◌, pure}

-- The type of a tag: a structure with the number of its template, or the elementary type of a code, which
-- `DataTypes` may not have, with the bit of a BOOL.
pub data TagType : Type 0 where
  struct_tag : ℕ → DataType → TagType
  atomic_tag : Option Text → Option ℕ → TagType

-- The tag's dictionary. `raw_tag` has the keys that are copied; `type_class` is `element_class`, or an array
-- of `total_elements` of it.
pub record UserTag : Type 0 where
  pub user_tag_name : Text
  pub dim : ℕ
  pub alias : Bool
  pub raw_tag : Symbol
  pub tag_type : TagType
  pub element_class : Option Class
  pub total_elements : Option ℕ

abbrev pub dims_of : Symbol → ℕ
dims_of s = s.symbol_type / 8192 % 4

abbrev product : List ℕ → ℕ
product [] = 1
product (n ∷ ns) = n * product ns

abbrev total_of : ℕ → Symbol → Option ℕ
total_of zero s = none
total_of (suc d) s = some (product (take (suc d) (s.dim1 ∷ s.dim2 ∷ s.dim3 ∷ [])))

abbrev pub tag_of : Text → Symbol → TagType → Option Class → UserTag
tag_of name s type element = record {
  user_tag_name = name;
  dim = dims_of s;
  alias = bit_at 26 s.software_control == 0;
  raw_tag = s;
  tag_type = type;
  element_class = element;
  total_elements = total_of (dims_of s) s;
}

abbrev class_named : Option Text → Option Class
class_named none = none
class_named (some name) = some (elementary name)

-- A tag of an elementary type.
unfoldable pub atomic_user_tag : Text → Symbol → UserTag
atomic_user_tag name s =
    let code = s.symbol_type % 256 in
    let type = get_data_type_name code in
    tag_of name s (atomic_tag type (if code == 0xC1 then some (s.symbol_type / 256 % 8) else none))
      (class_named type)

abbrev pub created : (ℕ → ℕ → Step DataType) → Bool → Text → Symbol → Step UserTag
created get true name s = do
  t ← get (s.symbol_type % 4096) s.symbol_type
  pure (tag_of name s (struct_tag (s.symbol_type % 4096) t) (some (class_of_type t)))
created get false name s = pure (atomic_user_tag name s)

-- `_create_tag`; `get` is `_get_data_type`.
unfoldable pub create_tag : (ℕ → ℕ → Step DataType) → Text → Symbol → Step UserTag
create_tag get name s = created get (bit_at 15 s.symbol_type == 1) name s
