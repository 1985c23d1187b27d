-- ===== src/Tests/Tags.antt =====
-- Tags of a small controller, as the user names them.
use pycomm.Base.{
  zero, suc, ℕ, ◌≡◌, refl, ap, arith, ◌++◌, none, some, true, false, Text, text, text_eq, ok, [],
}
use pycomm.Base.Ints.{pos}
use pycomm.Base.Strings.{
  contains, starts_with, int_of, strip, skip_spaces, signed_digits, digits_from, is_digit_char,
}
use pycomm.DataTypes.Value.{Value, Values, nil, cons, list, count, take_values, drop_values}
use pycomm.Logix.TagRequests.{Tags, no_tags, entry, atomic, lookup, TagRequest, parse_tag_request}
use pycomm.Logix.TagRequests.BoolArrays.{indexed, counted, words_for, read_result-parse_tag_request}
use pycomm.Logix.Results.{read_result, array_name}

abbrev known_tags : Tags
known_tags =
    entry (text "counter") (atomic (text "DINT"))
      (entry (text "flags") (atomic (text "DWORD")) no_tags)

abbrev flags : Text
flags = indexed (text "flags") (text "35")

abbrev forty : Text
forty = text "40"

flags_known : lookup known_tags (text "flags") ≡ some (atomic (text "DWORD"))
unfolding lookup text_eq
flags_known = refl

index_read : int_of (text "35") ≡ ok (pos 35)
unfolding int_of strip skip_spaces signed_digits digits_from is_digit_char
index_read = refl

count_read : int_of forty ≡ ok (pos 40)
unfolding int_of strip skip_spaces signed_digits digits_from is_digit_char
count_read = refl

-- So many bools.
abbrev bools : ℕ → Values
bools zero = nil
bools (suc n) = cons (Value.bool true) (bools n)

count-bools : (n : ℕ) → count (bools n) ≡ n
unfolding count
count-bools zero = refl
count-bools (suc n) = ap suc (count-bools n)

read_result-parse_tag_request_example :
    (r : TagRequest) × (parse_tag_request known_tags true (counted flags forty) ≡ ok r)
    × (r.plc_tag ≡ text "flags" ++ text "[0]")
    × (r.elements ≡ pos (words_for 75))
    × (read_result (counted flags forty) (ok r) (
          some
            (record { tag = []; value = some (list (bools 96)); data_type = none; failed = false }))
        ≡ record {
          tag = flags;
          value = some (list (take_values 40 (drop_values 35 (bools 96))));
          data_type = some (array_name (pos 40));
          failed = false;
        })
unfolding contains starts_with
read_result-parse_tag_request_example =
    read_result-parse_tag_request known_tags (text "flags") (text "35") forty 35 40 (bools 96) []
      refl refl refl refl refl refl index_read count_read (omega arith) flags_known (count-bools 96)
