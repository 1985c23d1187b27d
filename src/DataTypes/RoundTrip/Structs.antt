-- ===== src/DataTypes/RoundTrip/Structs.antt =====
-- Dictionaries with distinct names: looking members up, and building the dictionary again.
use pycomm.Base.{
  ◌≡◌, refl, sym, ap, ◌∙◌, arith, [], ◌∷◌, List, ℕ, true, false, none, some, text_eq, text_eq_refl,
  ok,
}
use pycomm.DataTypes.Value.{Value, Fields, end, field, Key, key_eq, get_item, set_item, pop_item}
use pycomm.DataTypes.Decode.{set_all, named_fields}

text_eq_comm : (s t : List ℕ) → text_eq s t ≡ text_eq t s
unfolding text_eq
text_eq_comm [] [] = refl
text_eq_comm [] (y ∷ ys) = refl
text_eq_comm (x ∷ xs) [] = refl
text_eq_comm (x ∷ xs) (y ∷ ys) = ground (arith, text_eq_comm xs ys)

pub key_eq_comm : (a b : Key) → key_eq a b ≡ key_eq b a
unfolding key_eq
key_eq_comm none none = refl
key_eq_comm none (some b) = refl
key_eq_comm (some a) none = refl
key_eq_comm (some a) (some b) = text_eq_comm a b

key_eq_refl : (a : Key) → key_eq a a ≡ true
unfolding key_eq
key_eq_refl none = refl
key_eq_refl (some a) = text_eq_refl a

-- No field has the key.
abbrev pub Absent : Key → Fields → Type 0
Absent k end = Unit
Absent k (field j v fs) = (key_eq k j ≡ false) × Absent k fs

-- Every field has a name, and no two have the same.
abbrev pub Distinct : Fields → Type 0
Distinct end = Unit
Distinct (field k v fs) =
    (key_eq k none ≡ false) × (key_eq k (some []) ≡ false) × Absent k fs × Distinct fs

-- No two fields have the same key.
abbrev pub Unrepeated : Fields → Type 0
Unrepeated end = Unit
Unrepeated (field k v fs) = Absent k fs × Unrepeated fs

Distinct-Unrepeated : (fs : Fields) → Distinct fs → Unrepeated fs
Distinct-Unrepeated end d = tt
Distinct-Unrepeated (field k v fs) d = (d.2, Distinct-Unrepeated fs d.3)

-- Each field is what a look-up in `all` finds.
abbrev pub Within : Fields → Fields → Type 0
Within end all = Unit
Within (field k v fs) all = (get_item all k ≡ ok v) × Within fs all

Within-field :
    (k : Key) (v : Value) (fs all : Fields)
    → Absent k fs
    → Within fs all
    → Within fs (field k v all)
unfolding get_item
Within-field k v end all a w = tt
Within-field k v (field j u fs) all a w = (rw (a.0) w.0, Within-field k v fs all a.1 w.1)

pub Within-self : (fs : Fields) → Distinct fs → Within fs fs
unfolding get_item
Within-self end d = tt
Within-self (field k v fs) d = (rw (key_eq_refl k), Within-field k v fs fs d.2 (Within-self fs d.3))

pop_item-Absent : (k : Key) (fs : Fields) → Absent k fs → pop_item fs k ≡ fs
unfolding pop_item
pop_item-Absent k end a = refl
pop_item-Absent k (field j v fs) a = rw (key_eq_comm j k, a.0, pop_item-Absent k fs a.1)

unfoldable pub append_fields : Fields → Fields → Fields
append_fields end gs = gs
append_fields (field k v fs) gs = field k v (append_fields fs gs)

set_item-Absent :
    (k : Key) (v : Value) (fs : Fields)
    → Absent k fs
    → set_item fs k v ≡ append_fields fs (field k v end)
unfolding set_item append_fields
set_item-Absent k v end a = refl
set_item-Absent k v (field j w fs) a = rw (key_eq_comm j k, a.0, set_item-Absent k v fs a.1)

Absent-append :
    (k : Key) (fs gs : Fields) → Absent k fs → Absent k gs → Absent k (append_fields fs gs)
unfolding append_fields
Absent-append k end gs a b = b
Absent-append k (field j v fs) gs a b = (a.0, Absent-append k fs gs a.1 b)

append_fields_assoc :
    (fs gs hs : Fields)
    → append_fields (append_fields fs gs) hs ≡ append_fields fs (append_fields gs hs)
unfolding append_fields
append_fields_assoc end gs hs = refl
append_fields_assoc (field k v fs) gs hs = ap (field k v) (append_fields_assoc fs gs hs)

append_fields-end : (fs : Fields) → append_fields fs end ≡ fs
unfolding append_fields
append_fields-end end = refl
append_fields-end (field k v fs) = ap (field k v) (append_fields-end fs)

-- Every key of `fs` is absent from `acc`.
abbrev pub Fresh : Fields → Fields → Type 0
Fresh end acc = Unit
Fresh (field k v fs) acc = Absent k acc × Fresh fs acc

Fresh-append :
    (k : Key) (v : Value) (fs acc : Fields)
    → Absent k fs
    → Fresh fs acc
    → Fresh fs (append_fields acc (field k v end))
Fresh-append k v end acc a f = tt
Fresh-append k v (field j u fs) acc a f = (
  Absent-append j acc (field k v end) f.0 (key_eq_comm j k ∙ a.0, tt),
  Fresh-append k v fs acc a.1 f.1,
)

pub set_all-append :
    (acc fs : Fields) → Unrepeated fs → Fresh fs acc → set_all acc fs ≡ append_fields acc fs
unfolding set_all
set_all-append acc end d f = sym (append_fields-end acc)
set_all-append acc (field k v fs) d f = rw (set_item-Absent k v acc f.0) (
    set_all-append (append_fields acc (field k v end)) fs d.1 (Fresh-append k v fs acc d.0 f.1)
    ∙ append_fields_assoc acc (field k v end) fs
    ∙ (unfold append_fields in refl))

pub Fresh-end : (fs : Fields) → Fresh fs end
Fresh-end end = tt
Fresh-end (field k v fs) = (tt, Fresh-end fs)

Absent-none : (fs : Fields) → Distinct fs → Absent none fs
Absent-none end d = tt
Absent-none (field k v fs) d = (key_eq_comm none k ∙ d.0, Absent-none fs d.3)

Absent-empty : (fs : Fields) → Distinct fs → Absent (some []) fs
Absent-empty end d = tt
Absent-empty (field k v fs) d = (key_eq_comm (some []) k ∙ d.1, Absent-empty fs d.3)

pub named_fields-Distinct : (fs : Fields) → Distinct fs → named_fields fs ≡ fs
unfolding named_fields
named_fields-Distinct fs d = rw (set_all-append end fs (Distinct-Unrepeated fs d) (Fresh-end fs)) (
    unfold append_fields in
    rw (pop_item-Absent (some []) fs (Absent-empty fs d))
      (pop_item-Absent none fs (Absent-none fs d)))
