-- ===== src/Logix/Templates/Fetch.antt =====
-- `_get_structure_makeup` and `_get_data_type` of pycomm3/logix_driver.py: the definition of a structure, with
-- the definitions of the structures in it.
use pycomm.Base.{
  ℕ, zero, suc, ◌*◌, ◌%◌, List, [], ◌∷◌, Option, none, some, Text, Bytes, take, drop, Result, ok,
  err, response_error, diverges,
}
use pycomm.Logix.Templates.Types.{Makeup, DataType, MemberInfo, type_name}
use pycomm.Logix.Templates.Parse.{
  member_fields, elementary_name, elementary_member, struct_member, template_type,
}
use pycomm.Logix.Templates.Cache.{Step, ◌>>=◌, pure, lift, raising_as, cached}
use pycomm.Logix.Templates.Makeups.{attribute_values, makeup_of}
use pycomm.Logix.Templates.Reading.{TemplateReply, read_template}

-- The controller: the data that it answers to a request for the attributes of a structure, where `none` is a
-- response that is not valid, and for its template; and `decode(errors="replace")`.
module _ (attributes : ℕ → Option Bytes) (respond : ℕ → Bytes → Result TemplateReply)
    (utf8 : Bytes → Text) where
  abbrev store_makeup : ℕ → Makeup → Step Makeup
  store_makeup instance_id m c = (
    ok m,
    record c {
      id_struct = (instance_id, m) ∷ c.id_struct;
      handle_id = (m.structure_handle, instance_id) ∷ c.handle_id;
    },
  )

  abbrev makeup_or : Option Makeup → ℕ → Step Makeup
  makeup_or (some m) instance_id = pure m
  makeup_or none instance_id = do
    value ← lift (attribute_values (attributes instance_id))
    m ← lift (makeup_of value)
    store_makeup instance_id m

  -- `_get_structure_makeup`
  unfoldable pub get_structure_makeup : ℕ → Step Makeup
  get_structure_makeup instance_id c = makeup_or (cached instance_id c.id_struct) instance_id c

  abbrev store_type : ℕ → DataType → Step DataType
  store_type instance_id t c = (
    ok t,
    record c { id_udt = (instance_id, t) ∷ c.id_udt; data_types = (type_name t, t) ∷ c.data_types },
  )

  -- The type of a member: an elementary one, or a structure that `get` looks up.
  abbrev member_of : (ℕ → ℕ → Step DataType) → ℕ → ℕ → ℕ → Option Text → Step MemberInfo
  member_of get type_info typ offset (some name) = pure (elementary_member type_info offset name)
  member_of get type_info typ offset none = do
    t ← get (typ % 4096) typ
    pure (struct_member type_info offset t)

  -- `_parse_template_data_member_info`
  unfoldable pub member_info : (ℕ → ℕ → Step DataType) → Bytes → Step MemberInfo
  member_info get chunk = do
    (type_info, typ, offset) ← lift (member_fields chunk).0
    member_of get type_info typ offset (elementary_name typ)

  -- One chunk of 8 bytes for each member.
  unfoldable pub member_infos : (ℕ → ℕ → Step DataType) → ℕ → Bytes → Step (List MemberInfo)
  member_infos get zero info_data = pure []
  member_infos get (suc n) info_data = do
    info ← member_info get (take 8 info_data)
    infos ← member_infos get n (drop 8 info_data)
    pure (info ∷ infos)

  -- `_parse_template_data`
  unfoldable pub parse_template_data : (ℕ → ℕ → Step DataType) → Bytes → Makeup → ℕ → Step DataType
  parse_template_data get template_data template symbol_type = do
    let info_len = template.member_count * 8
    infos ← member_infos get template.member_count (take info_len template_data)
    pure (template_type utf8 (drop info_len template_data) template symbol_type infos)

  abbrev type_or : Option DataType → Step DataType → Step DataType
  type_or (some t) fetch = pure t
  type_or none fetch = fetch

  -- `_get_data_type`; a structure may have structures in it, on fuel, and `turns` bounds each reading.
  unfoldable pub get_data_type : ℕ → ℕ → ℕ → ℕ → Step DataType
  get_data_type turns zero instance_id symbol_type c = (err diverges, c)
  get_data_type turns (suc fuel) instance_id symbol_type c =
      type_or (cached instance_id c.id_udt)
        (raising_as response_error (do
          template ← get_structure_makeup instance_id
          raw ← lift (read_template respond turns instance_id template.object_definition_size)
          t ← parse_template_data (get_data_type turns fuel) raw template symbol_type
          store_type instance_id t))
        c
