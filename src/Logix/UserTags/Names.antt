-- ===== src/Logix/UserTags/Names.antt =====
-- The kinds of names in the list of a controller's symbols.
use pycomm.Base.{
  ℕ, zero, suc, ◌+◌, ◌-◌, ◌*◌, Bool, ◌||◌, [], ◌∷◌, if◌then◌else◌, Text, text, length,
}
use pycomm.Base.Strings.{starts_with}

pub data NameKind : Type 0 where
  program routine task system io plain : NameKind

-- `sub in s`
unfoldable pub contains_text : Text → Text → Bool
contains_text sub [] = starts_with sub []
contains_text sub (c ∷ cs) = starts_with sub (c ∷ cs) || contains_text sub cs

-- `s.replace(sub, "")`; `skip` characters are left of a piece that is taken out.
unfoldable pub remove_from : Text → ℕ → Text → Text
remove_from sub skip [] = []
remove_from sub (suc skip) (c ∷ cs) = remove_from sub skip cs
remove_from sub zero (c ∷ cs) =
    let found = starts_with sub (c ∷ cs) in
    let rest = remove_from sub (if found then length sub - 1 else 0) cs in
    if found then rest else c ∷ rest

abbrev pub without : Text → Text → Text
without sub s = remove_from sub 0 s

abbrev value_from : ℕ → Text → ℕ
value_from n [] = n
value_from n (c ∷ cs) = value_from (n * 10 + (c - b'0')) cs

-- `int(s)` of decimal digits.
unfoldable pub digits_value : Text → ℕ
digits_value s = value_from 0 s

-- The tests of `_isolate_user_tags` on a name, in their order.
unfoldable pub kind_of : Text → NameKind
kind_of name =
    if starts_with (text "Program:") name
    then program
    else if starts_with (text "Routine:") name
    then routine
    else if starts_with (text "Task:") name
    then task
    else if contains_text (text "Map:") name || contains_text (text "Cxn:") name
    then system
    else if contains_text (text ":I") name
        || contains_text (text ":O") name
        || contains_text (text ":C") name
        || contains_text (text ":S") name
    then io
    else plain
