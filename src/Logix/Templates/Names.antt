-- ===== src/Logix/Templates/Names.antt =====
-- The names behind the members of a template.
use pycomm.Base.{
  map, ℕ, Bool, true, ◌||◌, ◌&&◌, List, [], ◌∷◌, ◌++◌, Option, none, some, if◌then◌else◌, ltb, Text,
  Bytes, text, text_eq,
}
use pycomm.Base.Ints.{pos, show_int}
use pycomm.Base.Strings.{contains, before, split, starts_with}

-- The loop over the names: the first one with a `;` is that of the template, cut there.
unfoldable pub sort_names : List Text → Option Text × List Text
sort_names [] = (none, [])
sort_names (name ∷ names) =
    let (found, member_names) = sort_names names in
    if contains 59 name then (some (before 59 name), names) else (found, name ∷ member_names)

-- `_type < 0x100 or _type > 0xEFF`
abbrev pub is_predefined : ℕ → Bool
is_predefined type_id = ltb type_id 0x100 || ltb 0xEFF type_id

-- `member_names.pop(0)` where a predefined type has put its name there.
abbrev pub take_first : List Text → Option Text × List Text
take_first [] = (none, [])
take_first (name ∷ names) = (some name, names)

abbrev pub or_first : Bool → Option Text × List Text → Option Text × List Text
or_first true (none, names) = take_first names
or_first predefine found = found

abbrev pub renamed : Option Text → Option Text
renamed none = none
renamed (some name) = some (if text_eq name (text "ASCIISTRING82") then text "STRING" else name)

-- The name of the template, and those of its members; `utf8` is `decode(errors="replace")`.
unfoldable pub template_names : (Bytes → Text) → Bool → Bytes → Option Text × List Text
template_names utf8 predefine names =
    let decoded = map utf8 (split 0 names) in
    let (template_name, member_names) = or_first predefine (sort_names decoded) in
    (renamed template_name, member_names)

-- The name that a member without one gets.
abbrev pub member_name_or : ℕ → Text → Text
member_name_or n [] = text "__unknown" ++ show_int (pos n)
member_name_or n (c ∷ cs) = c ∷ cs

-- Whether a member is left out of the values.
unfoldable pub is_private_name : Bool → Text → Bool
is_private_name predefine name =
    starts_with (text "ZZZZZZZZZZ") name
    || starts_with (text "__") name
    || (predefine && (text_eq name (text "CTL") || text_eq name (text "Control")))
