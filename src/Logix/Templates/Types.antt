-- ===== src/Logix/Templates/Types.antt =====
-- What the driver keeps of a structure, and the names of the elementary types.
use pycomm.Base.{ℕ, List, [], ◌∷◌, Option, none, some, ◌==◌, if◌then◌else◌, Text, text}
use pycomm.Base.Ints.{ℤ}
use pycomm.CustomTypes.Codecs.{BitMember}

-- The classes that are made for members: an elementary type by its name, `Array(n, t)`,
-- `FixedSizeString(size)`, and `StructTag(...)`.
mutual
  pub data Class : Type 0 where
    elementary : Text → Class
    array : ℕ → Class → Class
    fixed_string : ℤ → Class
    struct_class : ClassMembers → List BitMember → List Text → ℕ → Class

  pub data ClassMembers : Type 0 where
    no_members : ClassMembers
    class_member : Text → Class → ℕ → ClassMembers → ClassMembers

-- `StructTemplateAttributes`, as `_parse_structure_makeup_attributes` keeps it.
pub record Makeup : Type 0 where
  pub object_definition_size : ℕ
  pub structure_size : ℕ
  pub member_count : ℕ
  pub structure_handle : ℕ

-- `data_type` of a member: a name, or the definition of a structure. A member has `bit` or `array`.
mutual
  pub data MemberType : Type 0 where
    atomic : Text → MemberType
    struct : DataType → MemberType

  pub data DataType : Type 0 where
    data_type :
        (name : Option Text) (internal_tags : Members) (attributes : List Text) (template : Makeup)
        (string : Option ℕ) (type_class : Class)
        → DataType

  pub data Members : Type 0 where
    no_tags : Members
    member :
        (key : Text) (type : MemberType) (type_class : Class) (offset : ℕ) (bit array : Option ℕ)
        (rest : Members)
        → Members

-- The dictionary of one member.
pub record MemberInfo : Type 0 where
  pub offset : ℕ
  pub member_type : MemberType
  pub member_class : Class
  pub bit : Option ℕ
  pub array : Option ℕ

abbrev pub class_of_type : DataType → Class
class_of_type (data_type name tags attributes template string type_class) = type_class

abbrev pub type_name : DataType → Option Text
type_name (data_type name tags attributes template string type_class) = name

-- `DataTypes`, by code. Of two types with one code the last one counts.
abbrev data_types : List (ℕ × Text)
data_types =
    (0xC1, text "BOOL")
    ∷ (0xC2, text "SINT")
    ∷ (0xC3, text "INT")
    ∷ (0xC4, text "DINT")
    ∷ (0xC5, text "LINT")
    ∷ (0xC6, text "USINT")
    ∷ (0xC7, text "UINT")
    ∷ (0xC8, text "UDINT")
    ∷ (0xC9, text "ULINT")
    ∷ (0xCA, text "REAL")
    ∷ (0xCB, text "LREAL")
    ∷ (0xCC, text "STIME")
    ∷ (0xCD, text "DATE")
    ∷ (0xCE, text "TIME_OF_DAY")
    ∷ (0xCF, text "DATE_AND_TIME")
    ∷ (0x00, text "LOGIX_STRING")
    ∷ (0xD0, text "STRING")
    ∷ (0xD1, text "BYTE")
    ∷ (0xD2, text "WORD")
    ∷ (0xD3, text "DWORD")
    ∷ (0xD4, text "LWORD")
    ∷ (0xD5, text "STRING2")
    ∷ (0xD6, text "FTIME")
    ∷ (0xD7, text "LTIME")
    ∷ (0xD8, text "ITIME")
    ∷ (0xD9, text "STRINGN")
    ∷ (0xDA, text "SHORT_STRING")
    ∷ (0xDB, text "TIME")
    ∷ (0xDC, text "PACKED_EPATH")
    ∷ (0xDD, text "ENGUNIT")
    ∷ (0xDE, text "STRINGI")
    ∷ []

abbrev find : List (ℕ × Text) → ℕ → Option Text
find [] code = none
find ((c, name) ∷ rest) code = let later = find rest code in if c == code then some name else later

-- `DataTypes.get(code)`, whose name is also that of the class that `DataTypes.get_type(code)` gives.
unfoldable pub get_data_type_name : ℕ → Option Text
get_data_type_name code = find data_types code
