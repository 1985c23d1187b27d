-- ===== src/DataTypes/Typing/Merged.antt =====
-- The dictionary that decoding a struct builds, `Struct._decode` of pycomm3/cip/data_types.py, by its look-ups.
use pycomm.Base.{
  text_eq, text_eq→eq, ◌≡◌, refl, sym, ap, ◌∙◌, Bool, true, false, [], ◌∷◌, Option, none, some,
  if◌then◌else◌, Bool-cases, inl, inr,
}
use pycomm.DataTypes.Value.{Value, Fields, end, field, Key, key_eq, set_item, pop_item}
use pycomm.DataTypes.Decode.{set_all, named_fields}
use pycomm.DataTypes.RoundTrip.Structs.{key_eq_comm}
use pycomm.DataTypes.Typing.{find, last_of, is_named, IsDict, IsMerged}

key_eq-same : (a b : Key) → key_eq a b ≡ true → a ≡ b
unfolding key_eq
key_eq-same none none h = refl
key_eq-same none (some b) h = absurd (cc)
key_eq-same (some a) none h = absurd (cc)
key_eq-same (some a) (some b) h = ap some (text_eq→eq a b h)

key_eq_same : (a b k : Key) → key_eq a b ≡ true → key_eq a k ≡ key_eq b k
key_eq_same a b k h = ap (λ x. key_eq x k) (key_eq-same a b h)

-- Two equal keys are not told apart by a third.
differs : (a b k : Key) → key_eq a b ≡ false → key_eq a k ≡ true → key_eq b k ≡ false
differs a b k unlike same =
    key_eq_comm b k ∙ ap (λ x. key_eq x b) (sym (key_eq-same a k same)) ∙ unlike

find-set_item :
    (fs : Fields) (k j : Key) (v : Value)
    → find (set_item fs k v) j ≡ (if key_eq k j then some v else find fs j)
unfolding set_item
find-set_item end k j v = refl
find-set_item (field i w fs) k j v = elim (Bool-cases (key_eq i k)) [
  | inl same ↦ rw (same, key_eq_same i k j same) (both (key_eq k j))
  | inr unlike ↦ elim (Bool-cases (key_eq i j)) [
    | inl here ↦
        let other : key_eq k j ≡ false = differs i k j unlike here in rw (unlike, here, other) refl
    | inr there ↦ rw (unlike, there) (find-set_item fs k j v)
  ]
]
  where
    both :
        (b : Bool)
        → (if b then some v else find fs j)
          ≡ (if b then some v else if b then some w else find fs j)
    both true = refl
    both false = refl

set_item-IsDict : (fs : Fields) (k : Key) (v : Value) → IsDict fs → IsDict (set_item fs k v)
unfolding set_item
set_item-IsDict end k v d = (refl, tt)
set_item-IsDict (field i w fs) k v d = elim (Bool-cases (key_eq i k)) [
  | inl same ↦ rw same d
  | inr unlike ↦
      let other : key_eq k i ≡ false = key_eq_comm k i ∙ unlike in
      rw unlike (
        find-set_item fs k i v ∙ ap (λ b. if b then some v else find fs i) other ∙ d.0,
        set_item-IsDict fs k v d.1,
      )
]

find-pop_item :
    (fs : Fields) (k j : Key)
    → IsDict fs
    → find (pop_item fs k) j ≡ (if key_eq k j then none else find fs j)
unfolding pop_item
find-pop_item end k j d = same (key_eq k j)
  where
    same : (b : Bool) → ◌≡◌ {A = Option Value} none (if b then none else none)
    same true = refl
    same false = refl
find-pop_item (field i w fs) k j d = elim (Bool-cases (key_eq i k)) [
  | inl same ↦ rw (same, key_eq_same i k j same) (popped (key_eq k j) refl same)
  | inr unlike ↦ elim (Bool-cases (key_eq i j)) [
    | inl here ↦
        let other : key_eq k j ≡ false = differs i k j unlike here in rw (unlike, here, other) refl
    | inr there ↦ rw (unlike, there) (find-pop_item fs k j d.1)
  ]
]
  where
    popped :
        (b : Bool)
        → key_eq k j ≡ b
        → key_eq i k ≡ true
        → find fs j ≡ (if b then none else if b then some w else find fs j)
    popped true h same = ap (find fs) (sym (key_eq-same i k same ∙ key_eq-same k j h)) ∙ d.0
    popped false h same = refl

pop_item-IsDict : (fs : Fields) (k : Key) → IsDict fs → IsDict (pop_item fs k)
unfolding pop_item
pop_item-IsDict end k d = tt
pop_item-IsDict (field i w fs) k d = elim (Bool-cases (key_eq i k)) [
  | inl same ↦ rw same (d.1)
  | inr unlike ↦
      let other : key_eq k i ≡ false = key_eq_comm k i ∙ unlike in
      rw unlike (
        find-pop_item fs k i d.1 ∙ ap (λ b. if b then none else find fs i) other ∙ d.0,
        pop_item-IsDict fs k d.1,
      )
]

set_all-found : (acc fs : Fields) (k : Key) → find (set_all acc fs) k ≡ last_of (find acc k) fs k
unfolding set_all
set_all-found acc end k = refl
set_all-found acc (field j v fs) k =
    set_all-found (set_item acc j v) fs k ∙ ap (λ o. last_of o fs k) (find-set_item acc j k v)

set_all-IsDict : (acc fs : Fields) → IsDict acc → IsDict (set_all acc fs)
unfolding set_all
set_all-IsDict acc end d = d
set_all-IsDict acc (field j v fs) d =
    set_all-IsDict (set_item acc j v) fs (set_item-IsDict acc j v d)

-- The fields without a name are those that are taken off.
unnamed :
    {B : Type 0} (k : Key) (o : Option B)
    → (if key_eq none k then none else if key_eq (some []) k then none else o)
      ≡ (if is_named k then o else none)
unfolding key_eq text_eq
unnamed none o = refl
unnamed (some []) o = refl
unnamed (some (c ∷ cs)) o = refl

pub named_fields-IsMerged : (fs : Fields) → IsMerged fs (named_fields fs)
unfolding named_fields
named_fields-IsMerged fs =
    let all = set_all Fields.end fs in
    let whole : IsDict all = set_all-IsDict Fields.end fs tt in
    let most : IsDict (pop_item all (some [])) = pop_item-IsDict all (some []) whole in
    (
      pop_item-IsDict (pop_item all (some [])) none most,
      λ k.
          find-pop_item (pop_item all (some [])) none k most
          ∙ ap (λ o. if key_eq none k then none else o) (find-pop_item all (some []) k whole)
          ∙ ap (λ o. if key_eq none k then none else if key_eq (some []) k then none else o)
              (set_all-found Fields.end fs k)
          ∙ unnamed k (last_of none fs k),
    )
