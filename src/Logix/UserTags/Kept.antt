-- ===== src/Logix/UserTags/Kept.antt =====
-- The tables of programs, tasks and modules, which the loop of `_isolate_user_tags` in pycomm3/logix_driver.py
-- needs to be there.
use pycomm.Logix.UserTags.{Tables, note, in_table}
use pycomm.Base.{
  ℕ, ◌≡◌, refl, sym, Bool, true, false, ◌&&◌, List, [], ◌∷◌, Option, none, some, if◌then◌else◌,
  Text, ok, err, other_error,
}
use pycomm.Logix.Symbols.{Symbol}
use pycomm.Logix.UserTags.Names.{kind_of, NameKind, program, routine, task, system, io, plain}

abbrev is_there : {B : Type 0} → Option B → Bool
is_there none = false
is_there (some b) = true

-- The table that the loop changes for a symbol of this kind is there.
abbrev pub has_table : NameKind → Tables → Bool
has_table program tables = is_there tables.programs
has_table routine tables = is_there tables.programs
has_table task tables = is_there tables.tasks
has_table io tables = is_there tables.modules
has_table system tables = true
has_table plain tables = true

abbrev pub all_have : Tables → List Symbol → Bool
all_have tables [] = true
all_have tables (s ∷ ss) = has_table (kind_of s.tag_name) tables && all_have tables ss

-- The symbols before the first one whose table is missing.
abbrev pub before_missing : Tables → List Symbol → List Symbol
before_missing tables [] = []
before_missing tables (s ∷ ss) =
    let rest = before_missing tables ss in
    if has_table (kind_of s.tag_name) tables then s ∷ rest else []

-- The loop goes on with the same tables, changed or not.
abbrev pub Kept : Tables → Tables → Type 0
Kept tables next =
    (next.tag_ids ≡ tables.tag_ids)
    × (next.cache ≡ tables.cache)
    × ((k : NameKind) → has_table k next ≡ has_table k tables)

same_table :
    (tables next : Tables)
    → is_there next.programs ≡ is_there tables.programs
    → is_there next.tasks ≡ is_there tables.tasks
    → is_there next.modules ≡ is_there tables.modules
    → (k : NameKind) → has_table k next ≡ has_table k tables
same_table tables next p t m program = p
same_table tables next p t m routine = p
same_table tables next p t m task = t
same_table tables next p t m io = m
same_table tables next p t m system = refl
same_table tables next p t m plain = refl

-- A table that is there is changed.
in_table-Kept :
    {B : Type 0} (tables : Tables) (o : Option B) (f : B → Tables)
    → is_there o ≡ true
    → ((b : B) → Kept tables (f b))
    → (next : Tables) × (in_table o f ≡ ok next) × Kept tables next
in_table-Kept tables none f h kept = absurd (cc)
in_table-Kept tables (some b) f h kept = (f b, refl, kept b)

pub note-Kept :
    (prog : Option Text) (k : NameKind) (s : Symbol) (tables : Tables)
    → has_table k tables ≡ true
    → (next : Tables) × (note prog k s tables ≡ ok next) × Kept tables next
unfolding note
note-Kept prog program s tables h =
    in_table-Kept tables tables.programs _ h
      (λ b. (refl, refl, same_table tables _ (sym h) refl refl))
note-Kept prog routine s tables h =
    in_table-Kept tables tables.programs _ h
      (λ b. (refl, refl, same_table tables _ (sym h) refl refl))
note-Kept prog task s tables h =
    in_table-Kept tables tables.tasks _ h (λ b. (refl, refl, same_table tables _ refl (sym h) refl))
note-Kept prog io s tables h =
    in_table-Kept tables tables.modules _ h
      (λ b. (refl, refl, same_table tables _ refl refl (sym h)))
note-Kept prog system s tables h = (tables, refl, (refl, refl, λ k. refl))
note-Kept prog plain s tables h = (tables, refl, (refl, refl, λ k. refl))

pub ignores_ids :
    (next : Tables) (ids : List (Text × ℕ)) (k : NameKind)
    → has_table k (record next { tag_ids = ids }) ≡ has_table k next
ignores_ids next ids program = refl
ignores_ids next ids routine = refl
ignores_ids next ids task = refl
ignores_ids next ids io = refl
ignores_ids next ids system = refl
ignores_ids next ids plain = refl

missing : {B : Type 0} (o : Option B) → is_there o ≡ false → o ≡ none
missing none h = refl
missing (some b) h = absurd (cc)

pub note_missing :
    (prog : Option Text) (k : NameKind) (s : Symbol) (tables : Tables)
    → has_table k tables ≡ false
    → note prog k s tables ≡ err other_error
unfolding note
note_missing prog program s tables h = rw (missing tables.programs h) refl
note_missing prog routine s tables h = rw (missing tables.programs h) refl
note_missing prog task s tables h = rw (missing tables.tasks h) refl
note_missing prog io s tables h = rw (missing tables.modules h) refl
note_missing prog system s tables h = absurd (cc)
note_missing prog plain s tables h = absurd (cc)

pub all_have-same :
    (tables next : Tables) (ss : List Symbol)
    → ((k : NameKind) → has_table k next ≡ has_table k tables)
    → (all_have next ss ≡ all_have tables ss) × (before_missing next ss ≡ before_missing tables ss)
all_have-same tables next [] h = (refl, refl)
all_have-same tables next (s ∷ ss) h =
    let (a, b) = all_have-same tables next ss h in rw (h (kind_of s.tag_name), a, b) (refl, refl)
