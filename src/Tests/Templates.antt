-- ===== src/Tests/Templates.antt =====
-- A controller with one structure, handed out in pieces of 20 bytes.
use pycomm.Base.{
  if-true, if-false, drop_past, ℕ, ◌+◌, ◌^◌, ◌≡◌, ◌<◌, ◌≤◌, refl, arith, ◌⊎◌, inl, inr, Bool-cases,
  List, [], ◌∷◌, ◌++◌, Option, some, Text, text, text_eq, Bytes, length, take, drop, take-append,
  take-append-drop, length-take, length-drop, Result, ok, ltb, lt→ltb, if◌then◌else◌, >>=-eq-ok,
}
use pycomm.Base.Ints.{pos, negsuc, ◌+ℤ◌}
use pycomm.Base.Strings.{contains, starts_with}
use pycomm.DataTypes.Integers.{
  unpack_int, dint, uint, pack_int, le_bytes, of_le, of_le-le_bytes, length-le_bytes,
}
use pycomm.DataTypes.Value.{
  Value, Fields, dict, int, end, field, get_item, set_item, pop_item, key_eq,
}
use pycomm.DataTypes.Encode.{encode_int}
use pycomm.Logix.Templates.Types.{Makeup, get_data_type_name}
use pycomm.Logix.Templates.Names.{is_private_name}
use pycomm.Logix.Templates.Parse.{elementary_name}
use pycomm.Logix.Templates.Cache.{Cache, cached}
use pycomm.Logix.Templates.Makeups.{makeup_of, attribute_of, attribute_values}
use pycomm.DataTypes.Decode.{decode, decode_int, named_fields, set_all}
use pycomm.DataTypes.Stream.{stream_read}
use pycomm.Logix.Templates.Reading.{TemplateReply, template_request}
use pycomm.Logix.Templates.Fetch.{get_data_type, parse_template_data}
use pycomm.Logix.Templates.Entries.{Entry}
use pycomm.Logix.Templates.Complete.{ServesTemplate}
use pycomm.Logix.Templates.Described.{
  template_bytes, parse_template_data-template_bytes, infos_bytes, entry_bytes, names_bytes,
}
use pycomm.Logix.Templates.Definitions.{
  defined, with_definition, PlainTemplate, get_data_type-ServesTemplate,
}

abbrev left : Entry
left = record {
  type_info = 0;
  type_code = 0xC4;
  entry_offset = 0;
  entry_type = text "DINT";
  entry_name = text "Left";
}

abbrev flag : Entry
flag = record {
  type_info = 3;
  type_code = 0xC1;
  entry_offset = 4;
  entry_type = text "BOOL";
  entry_name = text "Flag";
}

abbrev entries : List Entry
entries = left ∷ flag ∷ []

abbrev pair_makeup : Makeup
pair_makeup = record {
  object_definition_size = 14;
  structure_size = 8;
  member_count = 2;
  structure_handle = 7;
}

abbrev part : ℕ → Text → ℕ → Value
part number key n = dict (
    field (some (text "attr_num")) (int (pos number))
      (field (some (text "status")) (int (pos 0)) (field (some key) (int (pos n)) end)))

abbrev pair_fields : Fields
pair_fields = field (some (text "count")) (int (pos 4)) (
    field (some (text "object_definition_size")) (part 4 (text "size") 14) (
      field (some (text "structure_size")) (part 5 (text "size") 8) (
        field (some (text "member_count")) (part 2 (text "count") 2)
          (field (some (text "structure_handle")) (part 1 (text "handle") 7) end))))

-- Four attributes, each with its number, status 0, and its value.
abbrev pair_attributes : ℕ → Option Bytes
pair_attributes i = some (
    4 ∷ 0 ∷ 4 ∷ 0 ∷ 0 ∷ 0 ∷ 14 ∷ 0 ∷ 0 ∷ 0 ∷ 5 ∷ 0 ∷ 0 ∷ 0 ∷ 8 ∷ 0 ∷ 0 ∷ 0 ∷ 2 ∷ 0 ∷ 0 ∷ 0 ∷ 2 ∷ 0
    ∷ 1 ∷ 0 ∷ 0 ∷ 0 ∷ 7 ∷ 0 ∷ [])

-- The bytes of the template.
abbrev raw : Bytes
raw = template_bytes (text "Pair") (text "x") entries

abbrev respond : ℕ → Bytes → Result TemplateReply
respond i request =
    let rest = drop (of_le (take 4 request)) raw in
    ok (record {
      service_status = some (if ltb 20 (length rest) then 6 else 0);
      piece = some (take 20 rest);
    })

encode_offset : (offset : ℕ) → offset < 100 → encode_int dint (pos offset) ≡ ok (le_bytes 4 offset)
unfolding encode_int pack_int
encode_offset offset small = rw (lt→ltb offset (2 ^ 31) (omega arith)) refl

offset_of :
    (offset : ℕ) (request : Bytes)
    → offset < 100
    → template_request 14 offset ≡ ok request
    → of_le (take 4 request) ≡ offset
unfolding template_request
offset_of offset request small asked =
    let written = rw (encode_offset offset small) at asked in
    let (count, ec, er) =
      >>=-eq-ok (encode_int uint (pos 56 +ℤ negsuc (20 + offset)))
        (λ count. ok (le_bytes 4 offset ++ count)) written in
    let same : request ≡ le_bytes 4 offset ++ count = cc in
    rw (same, take-append 4 (le_bytes 4 offset) count (length-le_bytes 4 offset))
      (of_le-le_bytes 4 offset (omega arith))

length_raw : length raw ≡ 33
unfolding infos_bytes entry_bytes names_bytes le_bytes
length_raw = refl

abbrev status_of : Bytes → ℕ
status_of rest = if ltb 20 (length rest) then 6 else 0

ends_of :
    (rest : Bytes)
    → ((drop 20 rest ≡ []) × (status_of rest ≡ 0))
      ⊎ ((0 < length (take 20 rest)) × (0 < length (drop 20 rest)) × (status_of rest ≡ 6))
ends_of rest = elim (Bool-cases (ltb 20 (length rest))) [
  | inl more ↦
      let long : 20 < length rest = ground arith in
      inr (
        omega (arith, length-take 20 rest),
        omega (arith, length-drop 20 rest),
        if-true (ltb 20 (length rest)) 6 0 more,
      )
  | inr last ↦
      let short : length rest ≤ 20 = ground arith in
      inl (drop_past 20 rest short, if-false (ltb 20 (length rest)) 6 0 last)
]

respond-ServesTemplate : ServesTemplate respond 1 14 raw
respond-ServesTemplate offset request asked within =
    let at : of_le (take 4 request) ≡ offset = offset_of offset request (small within) asked in
    let rest = drop offset raw in
    (take 20 rest, drop 20 rest, status_of rest, rw at refl, take-append-drop 20 rest, ends_of rest)
  where
    small : (offset ≡ 0) ⊎ (offset < length raw) → offset < 100
    small (inl h) = omega arith
    small (inr h) = omega (arith, length_raw)

abbrev utf8 : Bytes → Text
utf8 b = b

abbrev no_cache : Cache
no_cache = record { id_udt = []; id_struct = []; handle_id = []; data_types = [] }

pair-PlainTemplate : PlainTemplate 0x8123 (text "Pair") (text "x") entries pair_makeup
unfolding elementary_name get_data_type_name contains is_private_name starts_with text_eq
pair-PlainTemplate = (
  refl,
  (
    (omega arith, omega arith, omega arith, refl),
    ((omega arith, omega arith, omega arith, refl), tt),
  ),
  (
    (omega arith, omega arith),
    (
      (omega arith, omega arith),
      (
        (omega arith, omega arith),
        (
          (omega arith, omega arith),
          ((omega arith, omega arith), ((omega arith, omega arith), tt)),
        ),
      ),
    ),
  ),
  refl,
  refl,
  (
    (
      (omega arith, omega arith),
      ((omega arith, omega arith), ((omega arith, omega arith), ((omega arith, omega arith), tt))),
    ),
    (
      (
        (omega arith, omega arith),
        (
          (omega arith, omega arith),
          ((omega arith, omega arith), ((omega arith, omega arith), tt)),
        ),
      ),
      tt,
    ),
  ),
  (refl, (refl, tt)),
  ((refl, tt), (tt, tt)),
  refl,
)

get_data_type-ServesTemplate_example :
    (get_data_type pair_attributes respond utf8 34 1 1 0x8123 no_cache ≡ (
      ok (defined (text "Pair") entries pair_makeup),
      with_definition 1 (text "Pair") entries pair_makeup no_cache,
    ))
    × ((attributes' : ℕ → Option Bytes) (respond' : ℕ → Bytes → Result TemplateReply)
        → get_data_type attributes' respond' utf8 34 1 1 0x8123
            (with_definition 1 (text "Pair") entries pair_makeup no_cache)
          ≡ (
            ok (defined (text "Pair") entries pair_makeup),
            with_definition 1 (text "Pair") entries pair_makeup no_cache,
          ))
unfolding makeup_of attribute_of attribute_values get_item text_eq cached decode decode_int
    stream_read unpack_int of_le named_fields set_all set_item pop_item key_eq
get_data_type-ServesTemplate_example =
    get_data_type-ServesTemplate pair_attributes respond utf8 34 0 1 0x8123 (dict pair_fields)
      pair_makeup (text "Pair") (text "x") entries no_cache (λ b h. refl) refl refl refl refl
      pair-PlainTemplate respond-ServesTemplate (omega (arith, length_raw)) (omega arith)
      (omega (arith, length_raw))

parse_template_data-template_bytes_example :
    parse_template_data pair_attributes respond utf8
      (get_data_type pair_attributes respond utf8 1 1)
      raw
      pair_makeup
      0x8123
      no_cache
    ≡ (ok (defined (text "Pair") entries pair_makeup), no_cache)
parse_template_data-template_bytes_example =
    parse_template_data-template_bytes pair_attributes respond utf8
      (get_data_type pair_attributes respond utf8 1 1) (text "Pair") (text "x") entries pair_makeup
      0x8123 no_cache (λ b h. refl) pair-PlainTemplate.0 pair-PlainTemplate.1 pair-PlainTemplate.2
      pair-PlainTemplate.3 pair-PlainTemplate.4 pair-PlainTemplate.5 pair-PlainTemplate.6
      pair-PlainTemplate.7 pair-PlainTemplate.8
