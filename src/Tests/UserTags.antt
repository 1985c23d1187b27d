-- ===== src/Tests/UserTags.antt =====
-- A list with a program, a routine of it, a tag of a module, a hidden tag, and two tags of the user.
use pycomm.Base.{
  ℕ, ◌≡◌, refl, List, [], ◌∷◌, none, some, true, false, if◌then◌else◌, Text, text, text_eq, map, ok,
  err, other_error, response_error,
}
use pycomm.Base.BitAt.{bit_at}
use pycomm.Base.Strings.{contains, starts_with, split, is_digit, all_digits, is_digit_char}
use pycomm.Logix.Symbols.{Symbol}
use pycomm.Logix.Templates.Types.{DataType}
use pycomm.Logix.Templates.Cache.{Step}
use pycomm.Logix.UserTags.{
  Tables, isolate_user_tags, isolate_tags, isolate_tag, note, is_left, update, change, module_part,
  put_slot,
}
use pycomm.Logix.UserTags.Names.{contains_text, kind_of, remove_from, digits_value}
use pycomm.Logix.UserTags.Create.{create_tag}
use pycomm.Logix.UserTags.Kept.{all_have, before_missing}
use pycomm.Logix.UserTags.Selected.{
  is_user_tag, selected, user_tag, with_ids, isolate_user_tags-selected,
}

abbrev symbol : Text → ℕ → ℕ → Symbol
symbol name type number = record {
  instance_id = number;
  tag_name = name;
  symbol_type = type;
  symbol_address = 0;
  symbol_object_address = 0;
  software_control = 0;
  dim1 = 3;
  dim2 = 0;
  dim3 = 0;
  access = none;
}

abbrev symbols : List Symbol
symbols =
    symbol (text "Program:Main") 0x1068 1
    ∷ symbol (text "Routine:Start") 0x106D 2
    ∷ symbol (text "Local:1:I") 0x20C4 3
    ∷ symbol (text "__hidden") 0xC4 4
    ∷ symbol (text "Map:Local") 0x1069 5
    ∷ symbol (text "Speed") 0xC4 6
    ∷ symbol (text "Limits") 0x10C4 7
    ∷ []

abbrev empty : Tables
empty = record {
  cache = record { id_udt = []; id_struct = []; handle_id = []; data_types = [] };
  programs = some [];
  tasks = some [];
  modules = some [];
  tag_ids = [];
}

abbrev no_structures : ℕ → ℕ → Step DataType
no_structures i t c = (err other_error, c)

two_selected :
    selected symbols ≡ symbol (text "Local:1:I") 0x20C4 3 ∷ symbol (text "Speed") 0xC4 6 ∷ []
unfolding is_user_tag starts_with contains_text contains bit_at
two_selected = refl

all_there : all_have empty symbols ≡ true
unfolding kind_of contains_text starts_with
all_there = refl

-- A driver that has not listed the tags of the controller has no tables.
no_programs :
    all_have (record empty { programs = none; tasks = none; modules = none }) symbols ≡ false
unfolding kind_of contains_text starts_with
no_programs = refl

isolate_user_tags-selected_example :
    ((isolate_user_tags no_structures none symbols empty).0 ≡ (
      if all_have empty symbols
      then ok (map (user_tag none) (selected symbols))
      else err response_error))
    × ((isolate_user_tags no_structures none symbols empty).1.tag_ids
        ≡ with_ids none (selected (before_missing empty symbols)) [])
    × ((isolate_user_tags no_structures none symbols empty).1.cache ≡ empty.cache)
unfolding bit_at
isolate_user_tags-selected_example =
    isolate_user_tags-selected no_structures none symbols empty
      (λ h. refl, (λ h. refl, (λ h. refl, (λ h. refl, (λ h. refl, (λ h. refl, (λ h. refl, tt)))))))

slot_kept :
    (isolate_user_tags no_structures none symbols empty).1.modules
    ≡ some
        ((text "Local", record { slots = (1, text "I" ∷ []) ∷ []; types = []; unknown = [] }) ∷ [])
unfolding isolate_user_tags isolate_tags isolate_tag note is_left update change module_part put_slot
    kind_of contains_text remove_from digits_value starts_with contains split is_digit all_digits
    is_digit_char text_eq create_tag bit_at
slot_kept = refl
