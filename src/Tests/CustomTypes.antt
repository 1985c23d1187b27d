-- ===== src/Tests/CustomTypes.antt =====
-- A structure with a string, two bits and the private member that holds them.
use pycomm.Base.{
  text_eq, ℕ, ◌≡◌, Bool, ◌++◌, refl, arith, inl, inr, List, [], ◌∷◌, some, ok, text, Bytes, length,
}
use pycomm.Base.Ints.{negsuc}
use pycomm.DataTypes.Integers.{dint, sint, udint}
use pycomm.DataTypes.Types.{Typ}
use pycomm.DataTypes.Value.{Value, Fields, get_item, int, str, dict, end, field}
use pycomm.DataTypes.RoundTrip.Structs.{append_fields}
use pycomm.CustomTypes.Codecs.{TagMember, BitMember, Template, type_codec}
use pycomm.CustomTypes.Decoding.{fixed_size_string, struct_tag}
use pycomm.CustomTypes.Encoding.{is_private}
use pycomm.CustomTypes.Layout.{Block, Outside, laid_end, laid_public, laid_private}
use pycomm.CustomTypes.Blocks.{int-ReadsAny, int-Block, fixed_size_string-Block}
use pycomm.CustomTypes.RoundTrip.{FitsTemplate, decode-struct_tag}

abbrev code : TagMember
code = record { member_name = text "Code"; codec = type_codec (Typ.int dint); offset = 0 }

abbrev host : TagMember
host = record {
  member_name = text "ZZZZZZZZZZHost4";
  codec = type_codec (Typ.int sint);
  offset = 4;
}

abbrev name : TagMember
name = record { member_name = text "Name"; codec = fixed_size_string 4 udint; offset = 8 }

abbrev ready : BitMember
ready = record { bit_name = text "Ready"; byte_offset = 4; bit = 0 }

abbrev fault : BitMember
fault = record { bit_name = text "Fault"; byte_offset = 4; bit = 1 }

abbrev station : Template
station = record {
  members = code ∷ host ∷ name ∷ [];
  bit_members = ready ∷ fault ∷ [];
  private_members = text "ZZZZZZZZZZHost4" ∷ [];
  struct_size = 16;
}

abbrev bit_fields : Fields
bit_fields =
    field (some (text "Ready")) (Value.bool Bool.true)
      (field (some (text "Fault")) (Value.bool Bool.false) end)

abbrev values : Fields
values =
    field (some (text "Code")) (int (negsuc 1))
      (field (some (text "Name")) (str (text "ab")) bit_fields)

code_bytes : (b : Bytes) × (length b ≡ 4) × Block code.codec (int (negsuc 1)) b
code_bytes = int-Block dint (negsuc 1) (omega arith)

name_bytes : (b : Bytes) × (length b ≡ 8) × Block name.codec (str (text "ab")) b
name_bytes =
    fixed_size_string-Block 4 udint (text "ab") (omega arith) (omega arith)
      (omega arith, (omega arith, tt)) (omega arith)

abbrev blocks : List (ℕ × Bytes)
blocks = (0, code_bytes.0) ∷ (8, name_bytes.0) ∷ []

abbrev fields : Fields
fields =
    field (some (text "Code")) (int (negsuc 1)) (field (some (text "Name")) (str (text "ab")) end)

station-FitsTemplate : FitsTemplate station values blocks fields bit_fields
unfolding is_private get_item text_eq
station-FitsTemplate =
    let outside : Outside 4 blocks = (inr (omega (arith, code_bytes.1)), (inl (omega arith), tt)) in
    (
      laid_public refl (omega arith) refl code_bytes.2 (
          laid_private 1 refl (omega (arith, code_bytes.1)) (int-ReadsAny sint) (
            laid_public refl (omega arith) refl name_bytes.2
              (laid_end (omega (arith, name_bytes.1))))),
      (
        refl,
        refl,
        refl,
        omega arith,
        omega arith,
        outside,
        (inr (λ same. absurd (omega arith)), tt),
        (refl, refl, refl, omega arith, omega arith, outside, tt, tt),
      ),
      (
        (refl, (refl, (refl, (refl, tt)))),
        ((refl, (refl, (refl, tt))), ((refl, (refl, tt)), ((refl, tt), (tt, tt)))),
      ),
    )

decode-struct_tag_example :
    (b : Bytes) × ((struct_tag station).encode_value (dict values) ≡ ok b)
    × (length b ≡ 16)
    × ((rest : Bytes)
        → (struct_tag station).decode_value (b ++ rest)
          ≡ (ok (dict (append_fields fields bit_fields)), rest))
decode-struct_tag_example =
    decode-struct_tag station values blocks fields bit_fields station-FitsTemplate
