-- ===== src/CustomTypes/Codecs.antt =====
-- Data types seen through their two methods, and the parameters of the types that
-- pycomm3/custom_types.py makes.
use pycomm.Base.{ok, ℕ, List, none, Text, Bytes, Result}
use pycomm.DataTypes.Types.{Typ, fixed}
use pycomm.DataTypes.Value.{Value}
use pycomm.DataTypes.Encode.{encode, encode_array}
use pycomm.DataTypes.Decode.{decode, decode_array}
use pycomm.DataTypes.Stream.{Decoder}

-- `encode` and `decode` of a type.
pub record Codec : Type 0 where
  pub encode_value : Value → Result Bytes
  pub decode_value : Decoder Value

-- A type of pycomm3/cip/data_types.py.
abbrev pub type_codec : Typ → Codec
type_codec t = record { encode_value = encode t; decode_value = decode t }

-- `Array(n, element_type)`, where the elements are a type of pycomm3/custom_types.py.
abbrev pub array_codec : ℕ → Codec → Codec
array_codec n c = record {
  encode_value = encode_array (fixed n) (ok none) c.encode_value none;
  decode_value = decode_array (fixed n) (ok none) c.decode_value none;
}

-- A member of `*members`: the instance with its name, and its offset.
pub record TagMember : Type 0 where
  pub member_name : Text
  pub codec : Codec
  pub offset : ℕ

-- An item of `bit_members`.
pub record BitMember : Type 0 where
  pub bit_name : Text
  pub byte_offset : ℕ
  pub bit : ℕ

-- The arguments of `StructTag`.
pub record Template : Type 0 where
  pub members : List TagMember
  pub bit_members : List BitMember
  pub private_members : List Text
  pub struct_size : ℕ
