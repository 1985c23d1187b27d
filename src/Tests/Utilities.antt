-- ===== src/Tests/Utilities.antt =====
-- A cycle of three numbers, and the name of an array.
use pycomm.Base.{◌≡◌, refl, [], ◌∷◌, text}
use pycomm.Base.Strings.{contains, before}
use pycomm.Utilities.{cycle, values_from, next_value, strip_array}

five_values : cycle 3 1 5 ≡ 1 ∷ 2 ∷ 3 ∷ 1 ∷ 2 ∷ []
unfolding cycle values_from next_value
five_values = refl

array_name : strip_array (text "rates[3]") ≡ text "rates"
unfolding strip_array contains before
array_name = refl
