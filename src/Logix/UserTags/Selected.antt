-- ===== src/Logix/UserTags/Selected.antt =====
-- Which symbols become tags of the user, where none of them is a structure.
use pycomm.Logix.UserTags.{
  Tables, note, is_left, full_name, collected, isolate_tag, isolate_tags, isolate_user_tags,
}
use mathlib.Core.Path.{ap₂}
use pycomm.Base.{
  arith, ℕ, ◌≡◌, refl, ◌∙◌, ap, Bool, true, false, not, ◌&&◌, ◌||◌, List, [], ◌∷◌, Option, none,
  some, ◌==◌, if◌then◌else◌, Text, text, All, map, Result, Error, ok, err, raise_as, response_error,
  other_error, Bool-cases, inl, inr,
}
use pycomm.Base.BitAt.{bit_at}
use pycomm.Base.Strings.{contains, starts_with}
use pycomm.Logix.Symbols.{Symbol}
use pycomm.Logix.Templates.Types.{DataType}
use pycomm.Logix.Templates.Cache.{Step}
use pycomm.Logix.UserTags.Names.{contains_text, kind_of}
use pycomm.Logix.UserTags.Create.{UserTag, create_tag, atomic_user_tag}
use pycomm.Logix.UserTags.Kept.{
  has_table, all_have, before_missing, note-Kept, note_missing, ignores_ids, all_have-same,
}

abbrev pub any_in : List Text → Text → Bool
any_in [] name = false
any_in (t ∷ ts) name = contains_text t name || any_in ts name

abbrev any_before : List Text → Text → Bool
any_before [] name = false
any_before (t ∷ ts) name = starts_with t name || any_before ts name

-- A name with none of the prefixes of programs, routines, tasks and hidden tags, and of no system tag, which has a
-- colon only as the tag of a module; and no symbol of the system.
unfoldable pub is_user_tag : Symbol → Bool
is_user_tag s =
    not (any_before (text "Program:" ∷ text "Routine:" ∷ text "Task:" ∷ text "__" ∷ []) s.tag_name)
    && not (any_in (text "Map:" ∷ text "Cxn:" ∷ []) s.tag_name)
    && (any_in (text ":I" ∷ text ":O" ∷ text ":C" ∷ text ":S" ∷ []) s.tag_name
        || not (contains 58 s.tag_name))
    && not (bit_at 12 s.symbol_type == 1)

-- The tests of the loop, one after the other, come to the same.
is_left-kind_of : (s : Symbol) → is_left (kind_of s.tag_name) s ≡ is_user_tag s
unfolding is_left kind_of is_user_tag
is_left-kind_of s = ground arith

-- The symbols that are tags of the user, in order.
abbrev pub selected : List Symbol → List Symbol
selected [] = []
selected (s ∷ ss) = let rest = selected ss in if is_user_tag s then s ∷ rest else rest

abbrev pub user_tag : Option Text → Symbol → UserTag
user_tag prog s = atomic_user_tag (full_name prog s.tag_name) s

-- The numbers of tags by name, the newest first.
abbrev pub with_ids : Option Text → List Symbol → List (Text × ℕ) → List (Text × ℕ)
with_ids prog [] ids = ids
with_ids prog (s ∷ ss) ids = with_ids prog ss ((full_name prog s.tag_name, s.instance_id) ∷ ids)

-- The tags, their numbers, and the tables of structures as they were.
abbrev Isolated :
    Option Text → Error → List Symbol → Tables → Result (List UserTag) × Tables → Type 0
Isolated prog e ss tables r =
    (r.0 ≡ (if all_have tables ss then ok (map (user_tag prog) (selected ss)) else err e))
    × (r.1.tag_ids ≡ with_ids prog (selected (before_missing tables ss)) tables.tag_ids)
    × (r.1.cache ≡ tables.cache)

module _ (get : ℕ → ℕ → Step DataType) (prog : Option Text) where
  -- One more symbol in front.
  one_more :
      (e : Error) (s : Symbol) (ss : List Symbol) (have : Bool)
      → collected get
          (ok (some (user_tag prog s)))
          (if have then ok (map (user_tag prog) (selected ss)) else err e)
        ≡ (if have then ok (user_tag prog s ∷ map (user_tag prog) (selected ss)) else err e)
  one_more e s ss true = refl
  one_more e s ss false = refl

  left_out :
      (s : Symbol) (tables next : Tables)
      → note prog (kind_of s.tag_name) s tables ≡ ok next
      → is_user_tag s ≡ false
      → isolate_tag get prog s tables ≡ (ok none, next)
  unfolding isolate_tag
  left_out s tables next e no_tag = rw (e, is_left-kind_of s ∙ no_tag) refl

  tag_kept :
      (s : Symbol) (tables next : Tables)
      → note prog (kind_of s.tag_name) s tables ≡ ok next
      → is_user_tag s ≡ true
      → (bit_at 15 s.symbol_type == 1) ≡ false
      → isolate_tag get prog s tables ≡ (
        ok (some (user_tag prog s)),
        record next { tag_ids = (full_name prog s.tag_name, s.instance_id) ∷ next.tag_ids },
      )
  unfolding isolate_tag create_tag
  tag_kept s tables next e is_tag atomic = rw (e, is_left-kind_of s ∙ is_tag, atomic) refl

  isolated :
      (ss : List Symbol) (tables : Tables)
      → All (λ s. is_user_tag s ≡ true → (bit_at 15 s.symbol_type == 1) ≡ false) ss
      → Isolated prog other_error ss tables (isolate_tags get prog ss tables)
  unfolding isolate_tags
  isolated [] tables atomic = (refl, refl, refl)
  isolated (s ∷ ss) tables atomic = elim (Bool-cases (has_table (kind_of s.tag_name) tables)) [
    | inr lost ↦
        let stops : isolate_tag get prog s tables ≡ (err other_error, tables) =
          unfold isolate_tag in rw (note_missing prog (kind_of s.tag_name) s tables lost) refl in
        rw (lost, stops) (refl, refl, refl)
    | inl there ↦
        let (next, e, (ids_kept, cache_kept, tables_kept)) =
          note-Kept prog (kind_of s.tag_name) s tables there in
        elim (Bool-cases (is_user_tag s)) [
          | inl is_tag ↦
              let next' = record next {
                tag_ids = (full_name prog s.tag_name, s.instance_id) ∷ next.tag_ids;
              } in
              let (same, before) =
                all_have-same tables next' ss
                  (λ k. ignores_ids next next'.tag_ids k ∙ tables_kept k) in
              let (tags, ids, caches) = isolated ss next' atomic.1 in
              rw (there, is_tag, tag_kept s tables next e is_tag (atomic.0 is_tag), tags)
                (
                  one_more other_error s ss (all_have next' ss)
                      ∙ ap
                          (λ b.
                            if b
                            then ok (user_tag prog s ∷ map (user_tag prog) (selected ss))
                            else err other_error)
                          same,
                  ids
                      ∙ ap₂
                          (λ b i.
                            with_ids prog (selected b)
                              ((full_name prog s.tag_name, s.instance_id) ∷ i))
                          before ids_kept,
                  caches ∙ cache_kept,
                )
          | inr no_tag ↦
              let (same, before) = all_have-same tables next ss tables_kept in
              let (tags, ids, caches) = isolated ss next atomic.1 in
              rw (there, no_tag, left_out s tables next e no_tag)
                (
                  tags
                      ∙ ap
                          (λ b.
                            if b then ok (map (user_tag prog) (selected ss)) else err other_error)
                          same,
                  ids ∙ ap₂ (λ b i. with_ids prog (selected b) i) before ids_kept,
                  caches ∙ cache_kept,
                )
        ]
  ]

raised_as :
    (have : Bool) (ts : List UserTag)
    → raise_as response_error (if have then ok ts else err other_error)
      ≡ (if have then ok ts else err response_error)
raised_as true ts = refl
raised_as false ts = refl

-- Where no tag of the user is a structure, and the driver has a table for each program, routine, task and module
-- tag of the list, the result is a tag for each symbol that is one, in the order of the list, under its full name; where a
-- table is missing, ResponseError is raised. The names of the tags before the first symbol whose table is missing,
-- so of all tags if none is, get the numbers of their symbols, the newest first, and the tables of structures stay
-- as they are. A symbol is a tag if its name has none of the prefixes of programs, routines, tasks and hidden
-- tags, is of no system tag, and has a colon only as the tag of a module, and if it is not of the system.
pub isolate_user_tags-selected :
    (get : ℕ → ℕ → Step DataType) (prog : Option Text) (ss : List Symbol) (tables : Tables)
    → All (λ s. is_user_tag s ≡ true → (bit_at 15 s.symbol_type == 1) ≡ false) ss
    → ((isolate_user_tags get prog ss tables).0 ≡ (
        if all_have tables ss then ok (map (user_tag prog) (selected ss)) else err response_error))
      × ((isolate_user_tags get prog ss tables).1.tag_ids
          ≡ with_ids prog (selected (before_missing tables ss)) tables.tag_ids)
      × ((isolate_user_tags get prog ss tables).1.cache ≡ tables.cache)
unfolding isolate_user_tags
isolate_user_tags-selected get prog ss tables atomic =
    let (tags, ids, same) = isolated get prog ss tables atomic in
    (
      ap (raise_as response_error) tags
          ∙ raised_as (all_have tables ss) (map (user_tag prog) (selected ss)),
      ids,
      same,
    )
