-- ===== src/Logix/Templates/Described.antt =====
-- The bytes of a template, and what `_parse_template_data` makes of them.
use pycomm.Base.{
  Option, All-map, ℕ, ◌*◌, ◌%◌, ◌^◌, ◌<◌, ◌≡◌, refl, arith, Bool, true, false, List, [], ◌∷◌, ◌++◌,
  map, append-nil, none, some, Text, Bytes, text, text_eq, length, length-append, take-append,
  drop-append, All, Result, ok,
}
use pycomm.Base.Strings.{contains, split}
use pycomm.Base.Splitting.{Lacks, contains-middle, before-middle, split-middle}
use pycomm.DataTypes.Integers.{le_bytes, length-le_bytes}
use pycomm.CustomTypes.Layout.{Different}
use pycomm.Logix.Symbols.ReadBack.{type_field-le_bytes, unsigned-le_bytes}
use pycomm.Logix.Templates.Types.{struct_class, Makeup, DataType, data_type}
use pycomm.Logix.Templates.Names.{is_predefined, sort_names, template_names, or_first}
use pycomm.Logix.Templates.Cache.{Cache, Step}
use pycomm.Logix.Templates.Parse.{
  member_fields, elementary_name, is_len_data, template_type, no_parts,
}
use pycomm.Logix.Templates.Fetch.{member_info, member_infos, parse_template_data}
use pycomm.Logix.Templates.Reading.{TemplateReply}
use pycomm.Logix.Templates.Entries.{
  Entry, names_of, info_of, infos_of, tags_of, classes_of, bits_of, Shown, append_tags,
  append_classes,
}
use pycomm.Logix.Templates.Gathered.{add_members-eq}

unfoldable pub entry_bytes : Entry → Bytes
entry_bytes e = le_bytes 2 e.type_info ++ (le_bytes 2 e.type_code ++ le_bytes 4 e.entry_offset)

unfoldable pub infos_bytes : List Entry → Bytes
infos_bytes [] = []
infos_bytes (e ∷ es) = entry_bytes e ++ infos_bytes es

unfoldable pub names_bytes : List Entry → Bytes
names_bytes [] = []
names_bytes (e ∷ es) = e.entry_name ++ (0 ∷ names_bytes es)

-- The members, then the name of the template, a semicolon and what follows it, and the names of the
-- members, each name ended by a zero.
abbrev pub template_bytes : Text → Bytes → List Entry → Bytes
template_bytes name more es = infos_bytes es ++ ((name ++ (59 ∷ more)) ++ (0 ∷ names_bytes es))

-- The fields fit their integer types, and the code is that of the type's name.
abbrev pub FitsFields : Entry → Type 0
FitsFields e =
    (e.type_info < 65536)
    × (e.type_code < 65536)
    × (e.entry_offset < 2 ^ 32)
    × (elementary_name e.type_code ≡ some e.entry_type)

-- Bytes of ASCII characters, none of them zero.
abbrev pub Ascii : Bytes → Type 0
Ascii b = All (λ c. (0 < c) × (c < 128)) b

length-entry_bytes : (e : Entry) → length (entry_bytes e) ≡ 8
unfolding entry_bytes
length-entry_bytes e = omega (
  arith,
  length-append (le_bytes 2 e.type_info) (le_bytes 2 e.type_code ++ le_bytes 4 e.entry_offset),
  length-append (le_bytes 2 e.type_code) (le_bytes 4 e.entry_offset),
  length-le_bytes 2 e.type_info,
  length-le_bytes 2 e.type_code,
  length-le_bytes 4 e.entry_offset,
)

length-infos_bytes : (es : List Entry) → length (infos_bytes es) ≡ length es * 8
unfolding infos_bytes
length-infos_bytes [] = omega arith
length-infos_bytes (e ∷ es) = omega (
  arith,
  length-append (entry_bytes e) (infos_bytes es),
  length-entry_bytes e,
  length-infos_bytes es,
)

member_fields-entry_bytes :
    (e : Entry)
    → FitsFields e
    → member_fields (entry_bytes e) ≡ (ok (e.type_info, e.type_code, e.entry_offset), [])
unfolding member_fields entry_bytes
member_fields-entry_bytes e h =
    rw
      (
        type_field-le_bytes e.type_info (le_bytes 2 e.type_code ++ le_bytes 4 e.entry_offset) h.0,
        type_field-le_bytes e.type_code (le_bytes 4 e.entry_offset) h.1,
        ← append-nil (le_bytes 4 e.entry_offset),
        unsigned-le_bytes e.entry_offset [] h.2,
      )
      refl

Ascii-Lacks : (b : Bytes) → Ascii b → Lacks 0 b
unfolding contains
Ascii-Lacks [] h = refl
Ascii-Lacks (c ∷ cs) h = ground (arith, Ascii-Lacks cs h.1, h.0)

or_first-some :
    (predefine : Bool) (name : Text) (names : List Text)
    → or_first predefine (some name, names) ≡ (some name, names)
or_first-some true name names = refl
or_first-some false name names = refl

-- `decode(errors="replace")` of ASCII characters is the characters.
module _ (utf8 : Bytes → Text) (ascii : (b : Bytes) → All (λ c. c < 128) b → utf8 b ≡ b) where
  utf8-Ascii : (b : Bytes) → Ascii b → utf8 b ≡ b
  utf8-Ascii b h = ascii b (All-map b (λ c both. both.1) h)

  split-names_bytes :
      (es : List Entry)
      → All (λ n. Ascii n) (names_of es)
      → map utf8 (split 0 (names_bytes es)) ≡ names_of es ++ ([] ∷ [])
  unfolding names_bytes split
  split-names_bytes [] h = rw (ascii [] tt) refl
  split-names_bytes (e ∷ es) h =
      rw
        (
          split-middle 0 e.entry_name (names_bytes es) (Ascii-Lacks e.entry_name h.0),
          utf8-Ascii e.entry_name h.0,
          split-names_bytes es h.1,
        )
        refl

  template_names-eq :
      (predefine : Bool) (name : Text) (more : Bytes) (es : List Entry)
      → Ascii (name ++ (59 ∷ more))
      → Lacks 59 name
      → text_eq name (text "ASCIISTRING82") ≡ false
      → All (λ n. Ascii n) (names_of es)
      → template_names utf8 predefine ((name ++ (59 ∷ more)) ++ (0 ∷ names_bytes es))
        ≡ (some name, names_of es ++ ([] ∷ []))
  unfolding template_names sort_names
  template_names-eq predefine name more es first plain other names =
      let whole = name ++ (59 ∷ more) in
      rw
        (
          split-middle 0 whole (names_bytes es) (Ascii-Lacks whole first),
          utf8-Ascii whole first,
          split-names_bytes es names,
          contains-middle 59 name more,
          before-middle 59 name more plain,
          or_first-some predefine name (names_of es ++ ([] ∷ [])),
          other,
        )
        refl

module _ (attributes : ℕ → Option Bytes) (respond : ℕ → Bytes → Result TemplateReply)
    (utf8 : Bytes → Text) (get : ℕ → ℕ → Step DataType) where
  member_info-entry_bytes :
      (e : Entry) (c : Cache)
      → FitsFields e
      → member_info attributes respond utf8 get (entry_bytes e) c ≡ (ok (info_of e), c)
  unfolding member_info
  member_info-entry_bytes e c h = rw (member_fields-entry_bytes e h, h.3) refl

  member_infos-infos_bytes :
      (es : List Entry) (c : Cache)
      → All FitsFields es
      → member_infos attributes respond utf8 get (length es) (infos_bytes es) c
        ≡ (ok (infos_of es), c)
  unfolding member_infos infos_bytes
  member_infos-infos_bytes [] c h = refl
  member_infos-infos_bytes (e ∷ es) c h =
      rw
        (
          take-append 8 (entry_bytes e) (infos_bytes es) (length-entry_bytes e),
          drop-append 8 (entry_bytes e) (infos_bytes es) (length-entry_bytes e),
          member_info-entry_bytes e c h.0,
          member_infos-infos_bytes es c h.1,
        )
        refl

no_tag : (ns : List Text) → All (λ n. Unit {0}) ns
no_tag [] = tt
no_tag (n ∷ ns) = (tt, no_tag ns)

-- A template with as many members as its attributes say, all of elementary types whose fields fit, with names that are
-- ASCII, not empty, not private, and different, is parsed, whatever structures are known, to the definition with the template's
-- name, the dictionaries and the names of the members in order, and the type that has the members
-- in order, those of type BOOL as bits at their offset. The template's name is ASCII, without a semicolon and not
-- ASCIISTRING82, and the members are not just LEN and DATA; `decode` leaves ASCII as it is.
pub parse_template_data-template_bytes :
    (attributes : ℕ → Option Bytes) (respond : ℕ → Bytes → Result TemplateReply)
    (utf8 : Bytes → Text) (get : ℕ → ℕ → Step DataType) (name : Text) (more : Bytes)
    (es : List Entry) (template : Makeup) (symbol_type : ℕ) (c : Cache)
    → ((b : Bytes) → All (λ c. c < 128) b → utf8 b ≡ b)
    → template.member_count ≡ length es
    → All FitsFields es
    → Ascii (name ++ (59 ∷ more))
    → Lacks 59 name
    → text_eq name (text "ASCIISTRING82") ≡ false
    → All (λ n. Ascii n) (names_of es)
    → All (Shown (is_predefined (symbol_type % 4096))) (names_of es)
    → Different (names_of es)
    → is_len_data (names_of es) ≡ false
    → parse_template_data attributes respond utf8 get
        (template_bytes name more es)
        template
        symbol_type
        c
      ≡ (
        ok (
            data_type
              (some name)
              (tags_of es)
              (names_of es)
              template
              none
              (struct_class (classes_of es) (bits_of es) [] template.structure_size)),
        c,
      )
unfolding parse_template_data template_type append_tags append_classes
parse_template_data-template_bytes attributes respond utf8 get name more es template symbol_type c
      ascii count fits first plain other names shown different no_string =
    let tail = (name ++ (59 ∷ more)) ++ (0 ∷ names_bytes es) in
    let len : length (infos_bytes es) ≡ template.member_count * 8 =
      omega (arith, length-infos_bytes es, count) in
    rw
      (
        take-append (template.member_count * 8) (infos_bytes es) tail len,
        drop-append (template.member_count * 8) (infos_bytes es) tail len,
        count,
        member_infos-infos_bytes attributes respond utf8 get es c fits,
        template_names-eq utf8 ascii (is_predefined (symbol_type % 4096)) name more es first plain
            other names,
        add_members-eq (is_predefined (symbol_type % 4096)) es ([] ∷ []) no_parts shown different
            (no_tag (names_of es)) (no_tag (names_of es)),
        no_string,
      )
      refl
