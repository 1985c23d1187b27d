-- ===== src/Tests/Paths.antt =====
-- The paths of a class and of a tag.
use pycomm.Base.{
  ◌*◌, text_eq, ◌≡◌, ◌/◌, refl, arith, Bool, true, false, List, [], ◌∷◌, none, some, inr, ltb,
  if◌then◌else◌, text, Text, Bytes, length, ok, err, data_error,
}
use pycomm.Base.Ints.{pos}
use pycomm.Base.Strings.{
  join_with, int_of, utf8, utf8_char, contains, strip, skip_spaces, signed_digits, digits_from,
  is_digit_char, is_digit, all_digits,
}
use pycomm.Paths.Segments.{
  table_get, Segment, Port, Link, address, port, LogicalValue, logical, encode_path,
}
use pycomm.Paths.Reader.{Item, hop, object, symbol, read_items}
use pycomm.Paths.Requests.{tag_request_path}
use pycomm.Paths.ReadBack.{AllDenote, encode_path-reads}
use pycomm.Paths.TagPaths.{Part, IsPart, tag_request_path-reads}

abbrev no_addresses : Text → Bool
no_addresses s = false

abbrev all_addresses : Text → Bool
all_addresses s = true

abbrev identity : List Segment
identity =
    port (Port.name (text "backplane")) (Link.number (pos 2))
    ∷ port (Port.number (pos 3)) (address (text "ab"))
    ∷ logical (LogicalValue.number (pos 1)) (text "class_id")
    ∷ logical (LogicalValue.number (pos 300)) (text "instance_id")
    ∷ []

abbrev identity_items : List Item
identity_items = hop 1 (2 ∷ []) ∷ hop 3 (text "ab") ∷ object 0 1 ∷ object 1 300 ∷ []

identity-AllDenote : AllDenote all_addresses identity identity_items
unfolding table_get text_eq is_digit all_digits is_digit_char utf8 utf8_char
identity-AllDenote = (
  (refl, (2, refl, omega arith, refl), omega arith, omega arith, omega arith),
  (
    (refl, inr (refl, refl, refl), omega arith, omega arith, omega arith),
    ((0, refl, refl, refl, omega arith), ((4, refl, refl, refl, omega arith), tt)),
  ),
)

encode_path-reads_example :
    (body : Bytes) × (read_items 4 body ≡ some identity_items)
    × (length body ≡ 2 * (length body / 2))
    × (encode_path all_addresses true identity true false
        ≡ (if ltb (length body) 512 then ok ((length body / 2) ∷ body) else err data_error))
encode_path-reads_example =
    encode_path-reads all_addresses identity identity_items identity-AllDenote

abbrev rates : Part
rates = record {
  name = text "rates";
  chars = text "rates";
  indices = record { written = text "3"; number = 3 } ∷ [];
}

abbrev unit : Part
unit = record { name = text "u"; chars = text "u"; indices = [] }

rates-IsPart : IsPart rates
unfolding utf8 utf8_char contains int_of strip skip_spaces signed_digits digits_from is_digit_char
rates-IsPart = record {
  encodes = refl;
  short = omega arith;
  no_dot = refl;
  no_bracket = refl;
  indices = (record { parses = refl; fits = omega arith; no_comma = refl; no_dot = refl }, tt);
}

unit-IsPart : IsPart unit
unfolding utf8 utf8_char contains
unit-IsPart = record {
  encodes = refl;
  short = omega arith;
  no_dot = refl;
  no_bracket = refl;
  indices = tt;
}

tag_request_path-reads_example :
    (body : Bytes) × (read_items 3 body
      ≡ some (symbol (text "rates") ∷ object 2 3 ∷ symbol (text "u") ∷ []))
    × (tag_request_path no_addresses (text "rates[3].u") none false
        ≡ (if ltb (length body) 512 then ok ((length body / 2) ∷ body) else err data_error))
unfolding join_with
tag_request_path-reads_example =
    tag_request_path-reads no_addresses rates (unit ∷ []) none (rates-IsPart, (unit-IsPart, tt))
