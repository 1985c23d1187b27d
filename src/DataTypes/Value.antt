-- ===== src/DataTypes/Value.antt =====
-- The Python values that pycomm3/cip/data_types.py encodes and decodes, and what Python does with
-- them: truth, `len`, slices, iteration, and dictionaries.
use pycomm.Base.{
  ℕ, zero, suc, Bool, true, false, not, List, [], ◌∷◌, Option, none, some, ◌==◌, if◌then◌else◌,
  Text, Bytes, text_eq, Result, ok, err, other_error,
}
use pycomm.Base.Ints.{ℤ, pos, negsuc}

-- A key of a struct's dictionary: the name of a member, or `None`.
abbrev pub Key : Type 0
Key = Option Text

-- `list` stands for a list and for a tuple.
mutual
  pub data Value : Type 0 where
    none_value : Value
    bool : Bool → Value
    int : ℤ → Value
    str : Text → Value
    bytes : Bytes → Value
    list : Values → Value
    dict : Fields → Value

  pub data Values : Type 0 where
    nil : Values
    cons : Value → Values → Values

  pub data Fields : Type 0 where
    end : Fields
    field : Key → Value → Fields → Fields

-- `len(values)`
unfoldable pub count : Values → ℕ
count nil = 0
count (cons v vs) = suc (count vs)

unfoldable pub count_fields : Fields → ℕ
count_fields end = 0
count_fields (field k v fs) = suc (count_fields fs)

abbrev is_zero : ℤ → Bool
is_zero (pos n) = n == 0
is_zero (negsuc n) = false

abbrev is_empty : List ℕ → Bool
is_empty [] = true
is_empty (x ∷ xs) = false

-- `if value:`
unfoldable pub truthy : Value → Bool
unfolding count count_fields
truthy none_value = false
truthy (bool b) = b
truthy (int z) = not (is_zero z)
truthy (str s) = not (is_empty s)
truthy (bytes bs) = not (is_empty bs)
truthy (list vs) = not (count vs == 0)
truthy (dict fs) = not (count_fields fs == 0)

abbrev chars : Text → Values
chars [] = nil
chars (c ∷ cs) = cons (str (c ∷ [])) (chars cs)

abbrev numbers : Bytes → Values
numbers [] = nil
numbers (b ∷ bs) = cons (int (pos b)) (numbers bs)

abbrev keys : Fields → Values
keys end = nil
keys (field none v fs) = cons none_value (keys fs)
keys (field (some k) v fs) = cons (str k) (keys fs)

-- The items that iteration gives; a value that is no iterable raises TypeError.
unfoldable pub iterate : Value → Result Values
iterate (str s) = ok (chars s)
iterate (bytes bs) = ok (numbers bs)
iterate (list vs) = ok vs
iterate (dict fs) = ok (keys fs)
iterate none_value = err other_error
iterate (bool b) = err other_error
iterate (int z) = err other_error

unfoldable pub append : Values → Values → Values
append nil ws = ws
append (cons v vs) ws = cons v (append vs ws)

-- `values[:n]` and `values[n:]`
unfoldable pub take_values : ℕ → Values → Values
take_values zero vs = nil
take_values (suc n) nil = nil
take_values (suc n) (cons v vs) = cons v (take_values n vs)

unfoldable pub drop_values : ℕ → Values → Values
drop_values zero vs = vs
drop_values (suc n) nil = nil
drop_values (suc n) (cons v vs) = drop_values n vs

unfoldable pub key_eq : Key → Key → Bool
unfolding text_eq
key_eq none none = true
key_eq (some a) (some b) = text_eq a b
key_eq none (some b) = false
key_eq (some a) none = false

-- `d[k]`, where a missing key raises KeyError.
unfoldable pub get_item : Fields → Key → Result Value
unfolding key_eq
get_item end k = err other_error
get_item (field j v fs) k = if key_eq j k then ok v else get_item fs k

-- `d[k] = v`: a key that is there keeps its place.
unfoldable pub set_item : Fields → Key → Value → Fields
unfolding key_eq
set_item end k v = field k v end
set_item (field j w fs) k v = if key_eq j k then field j v fs else field j w (set_item fs k v)

-- `d.pop(k, None)`
unfoldable pub pop_item : Fields → Key → Fields
unfolding key_eq
pop_item end k = end
pop_item (field j v fs) k = if key_eq j k then fs else field j v (pop_item fs k)
