-- ===== src/Logix/UserTags.antt =====
-- `_isolate_user_tags` and `_create_tag` of pycomm3/logix_driver.py: which symbols of a controller are tags of the
-- user, and what the driver keeps of programs, tasks and modules.
pub mod Names
pub mod Create
pub mod Kept
pub mod Selected
use pycomm.Base.{
  ℕ, Bool, true, false, not, ◌&&◌, ◌||◌, List, [], ◌∷◌, ◌++◌, Option, none, some, ◌==◌,
  if◌then◌else◌, Text, text, text_eq, Result, Error, ok, err, response_error, other_error, raise_as,
}
use pycomm.Base.BitAt.{bit_at}
use pycomm.Base.Strings.{contains, split, join_with, starts_with, is_digit}
use pycomm.Logix.Symbols.{Symbol}
use pycomm.Logix.Templates.Types.{DataType}
use pycomm.Logix.Templates.Cache.{Cache, Step}
use pycomm.Logix.UserTags.Names.{
  NameKind, program, routine, task, system, io, plain, kind_of, without, digits_value,
}
use pycomm.Logix.UserTags.Create.{UserTag, create_tag}

-- Values of `_info["programs"]` and `_info["modules"]`.
pub record Program : Type 0 where
  pub program_id : ℕ
  pub routines : List Text

pub record Module : Type 0 where
  pub slots : List (ℕ × List Text)
  pub types : List Text
  pub unknown : List Text

-- What the loop writes: `_info`, `_cache["tag_name:id"]`, and the tables of structures. `_info` has no key
-- for the programs, tasks or modules until the tags of the controller have been listed.
pub record Tables : Type 0 where
  pub cache : Cache
  pub programs : Option (List (Text × Program))
  pub tasks : Option (List (Text × ℕ))
  pub modules : Option (List (Text × Module))
  pub tag_ids : List (Text × ℕ)

module _ {A : Type 0} where
  -- `d[key] = f(d.get(key, default))`
  unfoldable pub update : Text → A → (A → A) → List (Text × A) → List (Text × A)
  update key default f [] = (key, f default) ∷ []
  update key default f ((k, a) ∷ rest) =
      let later = update key default f rest in
      if text_eq k key then (k, f a) ∷ rest else (k, a) ∷ later

  -- The same, for a key that may be missing.
  unfoldable pub change : Text → (A → A) → List (Text × A) → List (Text × A)
  change key f [] = []
  change key f ((k, a) ∷ rest) =
      let later = change key f rest in if text_eq k key then (k, f a) ∷ rest else (k, a) ∷ later

unfoldable pub put_slot : ℕ → List Text → List (ℕ × List Text) → List (ℕ × List Text)
put_slot n types [] = (n, types) ∷ []
put_slot n types ((k, ts) ∷ rest) =
    let later = put_slot n types rest in if k == n then (n, types) ∷ rest else (k, ts) ∷ later

abbrev tail_of : List Text → List Text
tail_of [] = []
tail_of (x ∷ xs) = xs

abbrev unknown_part : List Text → Module → Module
unknown_part parts m = record m { unknown = m.unknown ++ (join_with 58 (tail_of parts) ∷ []) }

-- The parts of the name of an I/O tag. A slot is never among the keys of its module, which are texts, so its
-- types start anew. A missing `types` or `__UNKNOWN__` is an empty list.
unfoldable pub module_part : List Text → Module → Module
module_part (name ∷ slot ∷ type ∷ []) m =
    if is_digit slot
    then record m { slots = put_slot (digits_value slot) (type ∷ []) m.slots }
    else unknown_part (name ∷ slot ∷ type ∷ []) m
module_part (name ∷ type ∷ []) m = record m { types = m.types ++ (type ∷ []) }
module_part parts m = unknown_part parts m

abbrev no_module : Module
no_module = record { slots = []; types = []; unknown = [] }

abbrev first_of : List Text → Text
first_of [] = []
first_of (x ∷ xs) = x

-- A routine of a program that is not known is only logged.
abbrev add_routine : Option Text → Text → List (Text × Program) → List (Text × Program)
add_routine none name programs = programs
add_routine (some prog) name programs =
    change prog (λ p. record p { routines = p.routines ++ (name ∷ []) }) programs

-- `_info[key]`, changed; a missing key is a KeyError.
abbrev in_table : {B : Type 0} → Option B → (B → Tables) → Result Tables
in_table none f = err other_error
in_table (some b) f = ok (f b)

-- What is kept of a symbol that is no tag, or a tag of a module.
unfoldable pub note : Option Text → NameKind → Symbol → Tables → Result Tables
note prog program s tables = in_table tables.programs λ ps. record tables {
  programs = some (
      update (without (text "Program:") s.tag_name) (record { program_id = 0; routines = [] })
        (λ p. record { program_id = s.instance_id; routines = [] }) ps);
}
note prog routine s tables = in_table tables.programs λ ps. record tables {
  programs = some (add_routine prog (without (text "Routine:") s.tag_name) ps);
}
note prog task s tables = in_table tables.tasks λ ts. record tables {
  tasks = some (update (without (text "Task:") s.tag_name) 0 (λ i. s.instance_id) ts);
}
note prog io s tables =
    let parts = split 58 s.tag_name in
    in_table tables.modules λ ms. record tables {
      modules = some (update (first_of parts) no_module (module_part parts) ms);
    }
note prog system s tables = ok tables
note prog plain s tables = ok tables

-- `continue`, or not, for what is left of the loop's body.
unfoldable pub is_left : NameKind → Symbol → Bool
is_left io s = not (starts_with (text "__") s.tag_name || bit_at 12 s.symbol_type == 1)
is_left plain s =
    not
      (contains 58 s.tag_name || starts_with (text "__") s.tag_name || bit_at 12 s.symbol_type == 1)
is_left kind s = false

abbrev pub full_name : Option Text → Text → Text
full_name none name = name
full_name (some prog) name = text "Program:" ++ (prog ++ (46 ∷ name))

-- `get` looks up a structure.
module _ (get : ℕ → ℕ → Step DataType) where
  abbrev collected : Result (Option UserTag) → Result (List UserTag) → Result (List UserTag)
  collected (ok none) rest = rest
  collected (ok (some t)) (ok ts) = ok (t ∷ ts)
  collected (ok (some t)) (err e) = err e
  collected (err e) rest = err e

  abbrev tagged : Tables → Result UserTag × Cache → Result (Option UserTag) × Tables
  tagged tables (ok t, c) = (ok (some t), record tables { cache = c })
  tagged tables (err e, c) = (err e, record tables { cache = c })

  abbrev keep : Bool → Option Text → Symbol → Tables → Result (Option UserTag) × Tables
  keep false prog s tables = (ok none, tables)
  keep true prog s tables =
      let name = full_name prog s.tag_name in
      tagged (record tables { tag_ids = (name, s.instance_id) ∷ tables.tag_ids })
        (create_tag get name s tables.cache)

  abbrev noted :
      Tables
      → Result Tables
      → (Tables → Result (Option UserTag) × Tables)
      → Result (Option UserTag) × Tables
  noted tables (err e) next = (err e, tables)
  noted tables (ok tables') next = next tables'

  -- One turn of the loop.
  unfoldable pub isolate_tag : Option Text → Symbol → Tables → Result (Option UserTag) × Tables
  isolate_tag prog s tables =
      let kind = kind_of s.tag_name in
      noted tables (note prog kind s tables) (keep (is_left kind s) prog s)

  abbrev stop_or :
      Result (Option UserTag) × Tables
      → (Tables → Result (List UserTag) × Tables)
      → Result (List UserTag) × Tables
  stop_or (err e, tables) more = (err e, tables)
  stop_or (ok t, tables) more =
      let (rest, tables') = more tables in (collected (ok t) rest, tables')

  unfoldable pub isolate_tags : Option Text → List Symbol → Tables → Result (List UserTag) × Tables
  isolate_tags prog [] tables = (ok [], tables)
  isolate_tags prog (s ∷ ss) tables = stop_or (isolate_tag prog s tables) (isolate_tags prog ss)

  -- `_isolate_user_tags`
  unfoldable pub isolate_user_tags :
      Option Text → List Symbol → Tables → Result (List UserTag) × Tables
  isolate_user_tags prog ss tables =
      let (r, tables') = isolate_tags prog ss tables in (raise_as response_error r, tables')
