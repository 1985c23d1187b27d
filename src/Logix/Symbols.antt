-- ===== src/Logix/Symbols.antt =====
-- The entries of the lists that pycomm3/logix_driver.py uploads, and `_parse_instance_attribute_list`.
pub mod ReadBack
use pycomm.Base.{
  ℕ, zero, suc, Bool, true, false, List, [], ◌∷◌, Option, none, some, leb, Text, Bytes, Result, ok,
  err, diverges,
}
use pycomm.DataTypes.Integers.{usint, uint, udint}
use pycomm.DataTypes.Types.{Typ, string}
use pycomm.DataTypes.Value.{Value, str}
use pycomm.DataTypes.Stream.{Decoder, ◌>>=◌, pure}
use pycomm.DataTypes.Decode.{decode, decode_int, natural}

-- One entry of the list; `access` is the key that `EXTERNAL_ACCESS` is looked up at.
pub record Symbol : Type 0 where
  pub instance_id : ℕ
  pub tag_name : Text
  pub symbol_type : ℕ
  pub symbol_address : ℕ
  pub symbol_object_address : ℕ
  pub software_control : ℕ
  pub dim1 : ℕ
  pub dim2 : ℕ
  pub dim3 : ℕ
  pub access : Option ℕ

unfoldable pub unsigned : Decoder ℕ
unsigned = do z ← decode_int udint; pure (natural z)

abbrev pub chars_of : Value → Text
chars_of (str s) = s
chars_of _ = []

unfoldable pub name_field : Decoder Text
name_field = do v ← decode (Typ.string string); pure (chars_of v)

unfoldable pub type_field : Decoder ℕ
type_field = do z ← decode_int uint; pure (natural z)

-- `revision_major >= MIN_VER_EXTERNAL_ACCESS`
abbrev pub has_access : ℕ → Bool
has_access revision = leb 18 revision

unfoldable pub access_field : Bool → Decoder (Option ℕ)
access_field true = do z ← decode_int usint; pure (some (natural z))
access_field false = pure none

-- One turn of the loop that parses a page.
unfoldable pub decode_symbol : Bool → Decoder Symbol
decode_symbol with_access = do
  instance_id ← unsigned
  tag_name ← name_field
  symbol_type ← type_field
  symbol_address ← unsigned
  symbol_object_address ← unsigned
  software_control ← unsigned
  dim1 ← unsigned
  dim2 ← unsigned
  dim3 ← unsigned
  access ← access_field with_access
  pure (record {
    instance_id = instance_id;
    tag_name = tag_name;
    symbol_type = symbol_type;
    symbol_address = symbol_address;
    symbol_object_address = symbol_object_address;
    software_control = software_control;
    dim1 = dim1;
    dim2 = dim2;
    dim3 = dim3;
    access = access;
  })

abbrev pub symbol_then : Result Symbol → Result (List Symbol) → Result (List Symbol)
symbol_then (ok s) (ok ss) = ok (s ∷ ss)
symbol_then (ok s) (err e) = err e
symbol_then (err e) more = err e

-- The loop: the symbols of a page; every turn reads at least one byte.
unfoldable pub decode_symbols : ℕ → Bool → Bytes → Result (List Symbol)
decode_symbols zero with_access [] = ok []
decode_symbols zero with_access (b ∷ bs) = err diverges
decode_symbols (suc fuel) with_access [] = ok []
decode_symbols (suc fuel) with_access (b ∷ bs) =
    let (s, rest) = decode_symbol with_access (b ∷ bs) in
    symbol_then s (decode_symbols fuel with_access rest)
