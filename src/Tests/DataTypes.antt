-- ===== src/Tests/DataTypes.antt =====
-- A structure with a string and an array in it.
use pycomm.DataTypes.RoundTrip.Exact.{encode-exact}
use pycomm.Base.{
  All, [], ◌∷◌, false, ◌⊎◌, err, data_error, length, text_eq, ◌≡◌, refl, arith, ◌++◌, some, text,
  Bytes, ok,
}
use pycomm.Base.Ints.{pos, negsuc}
use pycomm.DataTypes.Integers.{IsByte, unpack_int, of_le, InRange, uint, dint}
use pycomm.DataTypes.Value.{set_item, pop_item, key_eq, count, Value, Values, Fields}
use pycomm.DataTypes.Types.{Typ, Members, fixed, short_string}
use pycomm.DataTypes.Encode.{encode}
use pycomm.DataTypes.Decode.{
  decode, decode_int, decode_string, decode_array, decode_first, named_fields, set_all,
}
use pycomm.DataTypes.Stream.{stream_read}
use pycomm.DataTypes.Typing.{HasType}
use pycomm.DataTypes.Typing.Soundness.{decode-HasType}
use pycomm.DataTypes.RoundTrip.Nested.{Fits, decode-encode}

abbrev device : Typ
device = Typ.struct (
    Members.member (some (text "id")) (Typ.int uint) (
      Members.member (some (text "name")) (Typ.string short_string)
        (Members.member (some (text "rates")) (Typ.array (fixed 2) (Typ.int dint)) Members.end)))

abbrev valve : Value
valve = Value.dict (
    Fields.field (some (text "id")) (Value.int (pos 513)) (
      Fields.field (some (text "name")) (Value.str (text "v1")) (
        Fields.field (some (text "rates"))
          (Value.list
            (Values.cons (Value.int (pos 7)) (Values.cons (Value.int (negsuc 1)) Values.nil)))
          Fields.end)))

valve-Fits : Fits device valve
unfolding key_eq text_eq count
valve-Fits = (
  (
    refl,
    omega arith,
    (
      refl,
      ((omega arith, (omega arith, tt)), omega arith),
      (refl, (refl, refl, (omega arith, (omega arith, tt))), tt),
    ),
  ),
  (refl, refl, (refl, (refl, tt)), (refl, refl, (refl, tt), (refl, refl, tt, tt))),
)

decode-encode_example :
    (b : Bytes) × (encode device valve ≡ ok b)
    × ((rest : Bytes) → decode device (b ++ rest) ≡ (ok valve, rest))
decode-encode_example = decode-encode device valve valve-Fits

encode-exact_example :
    ((bs : Bytes) × (encode (Typ.int uint) (Value.int (pos 70000)) ≡ ok bs)
      × (length bs ≡ 2)
      × InRange false 2 (pos 70000))
    ⊎ ((encode (Typ.int uint) (Value.int (pos 70000)) ≡ err data_error)
        × (InRange false 2 (pos 70000) → ⊥))
encode-exact_example = encode-exact uint (pos 70000)

-- The valve, and one more byte.
abbrev valve_bytes : Bytes
valve_bytes = 1 ∷ 2 ∷ 2 ∷ 118 ∷ 49 ∷ 7 ∷ 0 ∷ 0 ∷ 0 ∷ 254 ∷ 255 ∷ 255 ∷ 255 ∷ 9 ∷ []

valve_bytes_all : All IsByte valve_bytes
valve_bytes_all = (
  omega arith,
  (
    omega arith,
    (
      omega arith,
      (
        omega arith,
        (
          omega arith,
          (
            omega arith,
            (
              omega arith,
              (
                omega arith,
                (
                  omega arith,
                  (omega arith, (omega arith, (omega arith, (omega arith, (omega arith, tt))))),
                ),
              ),
            ),
          ),
        ),
      ),
    ),
  ),
)

valve_decoded : decode device valve_bytes ≡ (ok valve, 9 ∷ [])
unfolding decode decode_int decode_string decode_array decode_first stream_read unpack_int of_le
    named_fields set_all set_item pop_item key_eq text_eq
valve_decoded = refl

decode-HasType_example : HasType device valve × All IsByte (9 ∷ [])
decode-HasType_example =
    decode-HasType device valve_bytes (9 ∷ []) valve valve_bytes_all valve_decoded
