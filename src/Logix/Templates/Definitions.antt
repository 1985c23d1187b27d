-- ===== src/Logix/Templates/Definitions.antt =====
-- Looking up the definition of a structure: from the controller, and from the tables.
use pycomm.Base.{
  false, ℕ, suc, ◌+◌, ◌*◌, ◌%◌, ◌≡◌, ◌<◌, ◌≤◌, refl, List, [], ◌∷◌, Option, none, some, Text, text,
  text_eq, Bytes, length, All, Result, ok, ==-refl, ◌++◌,
}
use pycomm.Base.Splitting.{Lacks}
use pycomm.DataTypes.Value.{Value}
use pycomm.CustomTypes.Layout.{Different}
use pycomm.Logix.Templates.Types.{struct_class, Makeup, DataType, data_type}
use pycomm.Logix.Templates.Names.{is_predefined}
use pycomm.Logix.Templates.Parse.{is_len_data}
use pycomm.Logix.Templates.Cache.{Cache, cached}
use pycomm.Logix.Templates.Makeups.{attribute_values, makeup_of}
use pycomm.Logix.Templates.Reading.{TemplateReply}
use pycomm.Logix.Templates.Fetch.{get_structure_makeup, get_data_type}
use pycomm.Logix.Templates.Entries.{Entry, names_of, tags_of, classes_of, bits_of, Shown}
use pycomm.Logix.Templates.Complete.{ServesTemplate, read_template-ServesTemplate}
use pycomm.Logix.Templates.Described.{
  FitsFields, Ascii, template_bytes, parse_template_data-template_bytes,
}

-- The definition of a structure of elementary members.
abbrev pub defined : Text → List Entry → Makeup → DataType
defined name es m =
    data_type (some name) (tags_of es) (names_of es) m none
      (struct_class (classes_of es) (bits_of es) [] m.structure_size)

-- The tables with a structure that was looked up.
abbrev pub with_definition : ℕ → Text → List Entry → Makeup → Cache → Cache
with_definition instance_id name es m c = record {
  id_udt = (instance_id, defined name es m) ∷ c.id_udt;
  id_struct = (instance_id, m) ∷ c.id_struct;
  handle_id = (m.structure_handle, instance_id) ∷ c.handle_id;
  data_types = (some name, defined name es m) ∷ c.data_types;
}

-- A template that the parser takes whole, for a structure type with these lower bits.
abbrev pub PlainTemplate : ℕ → Text → Bytes → List Entry → Makeup → Type 0
PlainTemplate symbol_type name more es m =
    (m.member_count ≡ length es)
    × All FitsFields es
    × Ascii (name ++ (59 ∷ more))
    × Lacks 59 name
    × (text_eq name (text "ASCIISTRING82") ≡ false)
    × All (λ n. Ascii n) (names_of es)
    × All (Shown (is_predefined (symbol_type % 4096))) (names_of es)
    × Different (names_of es)
    × (is_len_data (names_of es) ≡ false)

module _ (attributes : ℕ → Option Bytes) (respond : ℕ → Bytes → Result TemplateReply)
    (utf8 : Bytes → Text) where
  makeup_fetched :
      (instance_id : ℕ) (v : Value) (m : Makeup) (c : Cache)
      → cached instance_id c.id_struct ≡ none
      → attribute_values (attributes instance_id) ≡ ok v
      → makeup_of v ≡ ok m
      → get_structure_makeup attributes respond utf8 instance_id c ≡ (
        ok m,
        record c {
          id_struct = (instance_id, m) ∷ c.id_struct;
          handle_id = (m.structure_handle, instance_id) ∷ c.handle_id;
        },
      )
  unfolding get_structure_makeup
  makeup_fetched instance_id v m c new answered parsed = rw (new, answered, parsed) refl

  get_data_type-cached :
      (turns fuel instance_id symbol_type : ℕ) (t : DataType) (c : Cache)
      → cached instance_id c.id_udt ≡ some t
      → get_data_type attributes respond utf8 turns (suc fuel) instance_id symbol_type c ≡ (ok t, c)
  unfolding get_data_type
  get_data_type-cached turns fuel instance_id symbol_type t c known = rw known refl

cached_first :
    {A : Type 0} (key : ℕ) (a : A) (rest : List (ℕ × A)) → cached key ((key, a) ∷ rest) ≡ some a
unfolding cached
cached_first key a rest = rw (==-refl key) refl

-- A structure that is not in the tables, whose attributes the controller gives and whose template, plain and of elementary
-- members, it hands out in pieces, is looked up in at most one request more than the template has bytes: the
-- result is the definition with the template's name and the members in order, the tables have it and its
-- attributes, and looking it up again gives it without another request, so without another controller.
pub get_data_type-ServesTemplate :
    (attributes : ℕ → Option Bytes) (respond : ℕ → Bytes → Result TemplateReply)
    (utf8 : Bytes → Text) (turns fuel instance_id symbol_type : ℕ) (v : Value) (m : Makeup)
    (name : Text) (more : Bytes) (es : List Entry) (c : Cache)
    → ((b : Bytes) → All (λ c. c < 128) b → utf8 b ≡ b)
    → cached instance_id c.id_udt ≡ none
    → cached instance_id c.id_struct ≡ none
    → attribute_values (attributes instance_id) ≡ ok v
    → makeup_of v ≡ ok m
    → PlainTemplate symbol_type name more es m
    → ServesTemplate respond instance_id m.object_definition_size (template_bytes name more es)
    → length (template_bytes name more es) + 21 ≤ m.object_definition_size * 4
    → m.object_definition_size * 4 ≤ 65556
    → length (template_bytes name more es) < turns
    → (get_data_type attributes respond utf8 turns (suc fuel) instance_id symbol_type c
        ≡ (ok (defined name es m), with_definition instance_id name es m c))
      × ((attributes' : ℕ → Option Bytes) (respond' : ℕ → Bytes → Result TemplateReply)
          → get_data_type attributes' respond' utf8 turns
              (suc fuel)
              instance_id
              symbol_type
              (with_definition instance_id name es m c)
            ≡ (ok (defined name es m), with_definition instance_id name es m c))
unfolding get_data_type
get_data_type-ServesTemplate attributes respond utf8 turns fuel instance_id symbol_type v m name
      more es c ascii new new_struct answered parsed plain serves room small enough =
    let (count, fits, first, no_semicolon, other, names, shown, different, no_string) = plain in
    let raw = template_bytes name more es in
    let c' = record c {
      id_struct = (instance_id, m) ∷ c.id_struct;
      handle_id = (m.structure_handle, instance_id) ∷ c.handle_id;
    } in
    (
      rw
          (
            new,
            makeup_fetched attributes respond utf8 instance_id v m c new_struct answered parsed,
            read_template-ServesTemplate respond instance_id m.object_definition_size turns raw
                serves room small enough,
            parse_template_data-template_bytes attributes respond utf8
                (get_data_type attributes respond utf8 turns fuel) name more es m symbol_type c'
                ascii count fits first no_semicolon other names shown different no_string,
          )
          refl,
      λ attributes' respond'.
          get_data_type-cached attributes' respond' utf8 turns fuel instance_id symbol_type
            (defined name es m) (with_definition instance_id name es m c)
            (cached_first instance_id (defined name es m) c.id_udt),
    )
