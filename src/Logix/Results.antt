-- ===== src/Logix/Results.antt =====
-- What `LogixDriver.read` of pycomm3/logix_driver.py makes of the results of its requests.
use pycomm.Base.{
  ℕ, suc, ◌-◌, Bool, true, false, ◌++◌, Option, none, some, ◌==◌, ltb, if◌then◌else◌, Text, text,
  text_eq, Result, ok, err, other_error,
}
use pycomm.Base.Ints.{ℤ, pos, negsuc, ◌+ℤ◌, show_int}
use pycomm.Base.BitAt.{bit_at}
use pycomm.DataTypes.Value.{Value, Values, nil, cons, list, count, take_values, drop_values}
use pycomm.Logix.TagRequests.{TagRequest, data_type_name, or_zero}

-- A `Tag`; `failed` says that `error` is not `None`.
pub record TagResult : Type 0 where
  pub tag : Text
  pub value : Option Value
  pub data_type : Option Text
  pub failed : Bool

abbrev pub failure : Text → TagResult
failure name = record { tag = name; value = none; data_type = none; failed = true }

-- A place in a sequence of `len` items, as a slice counts it.
abbrev pub bound : ℕ → ℤ → ℕ
bound len (pos n) = if ltb n len then n else len
bound len (negsuc n) = len - suc n

-- `values[i:j]`
unfoldable pub slice_values : ℤ → ℤ → Values → Values
slice_values i j vs =
    let lo = bound (count vs) i in take_values (bound (count vs) j - lo) (drop_values lo vs)

abbrev first_value : Values → Result Value
first_value nil = err other_error
first_value (cons v vs) = ok v

-- `values[i]`
unfoldable pub item_at : ℤ → Values → Result Value
item_at (pos n) vs = first_value (drop_values n vs)
item_at (negsuc n) vs =
    if ltb n (count vs) then first_value (drop_values (count vs - suc n) vs) else err other_error

-- `bool(value & 1 << bit)` of a number.
unfoldable pub value_bit : Value → ℤ → Result Value
value_bit (Value.int (pos n)) (pos bit) = ok (Value.bool (bit_at bit n == 1))
value_bit (Value.int (negsuc n)) (pos bit) = ok (Value.bool (bit_at bit n == 0))
value_bit v bit = err other_error

abbrev pub array_name : ℤ → Text
array_name n = text "BOOL[" ++ (show_int n ++ text "]")

abbrev one_bool : Text → Result Value → Result TagResult
one_bool name (ok v) =
    ok (record { tag = name; value = some v; data_type = some (text "BOOL"); failed = false })
one_bool name (err e) = err e

-- Bools of a DWORD array: one, or a slice.
unfoldable pub bools_result : TagRequest → Values → Result TagResult
bools_result r vs = elim r.bool_elements [
  | none ↦ one_bool r.user_tag (item_at (or_zero r.bit) vs)
  | some n ↦ ok (record {
    tag = r.user_tag;
    value = some (list (slice_values (or_zero r.bit) (or_zero r.bit +ℤ n) vs));
    data_type = some (array_name n);
    failed = false;
  })
]

abbrev dword_result : TagRequest → Value → Result TagResult
dword_result r (list vs) = bools_result r vs
dword_result r v = err other_error

-- A value that was read, with its result.
unfoldable pub value_result : TagRequest → TagResult → Value → Result TagResult
value_result r result v =
    if text_eq (data_type_name r.tag_info) (text "DWORD")
    then dword_result r v
    else elim r.bit [ none ↦ ok result | some bit ↦ one_bool r.user_tag (value_bit v bit) ]

-- `if result:`: a value and no error.
abbrev request_result : TagRequest → TagResult → Option Value → Bool → Result TagResult
request_result r result (some v) false = value_result r result v
request_result r result value failed =
    ok (record { tag = r.user_tag; value = none; data_type = none; failed = failed })

abbrev or_failure : Text → Result TagResult → TagResult
or_failure tag (ok r) = r
or_failure tag (err e) = failure tag

-- The result for one tag of the call, of the request and what was read for it; `none` is a missing key.
unfoldable pub read_result : Text → Result TagRequest → Option TagResult → TagResult
read_result tag (err e) result = failure tag
read_result tag (ok r) none = failure tag
read_result tag (ok r) (some result) =
    or_failure tag (request_result r result result.value result.failed)
