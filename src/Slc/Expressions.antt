-- ===== src/Slc/Expressions.antt =====
-- `IO_RE` to `ST_RE` of pycomm3/slc_driver.py.
use pycomm.Base.{
  ℕ, zero, suc, ◌-◌, List, [], ◌∷◌, Option, none, some, ◌==◌, if◌then◌else◌, Text, text, length,
  drop,
}
use pycomm.Base.Strings.{starts_with}
use pycomm.Slc.Files.{
  FileType, file_n, file_b, file_t, file_c, file_s, file_f, file_st, file_a, file_i, file_o, file_l,
}
use pycomm.Slc.Patterns.{
  Matcher, ◌>>=◌, ◌otherwise◌, one_of, literal, digits, optional, sub_element, element_count, upper,
}

-- The groups of one match; each expression has its own.
pub record Groups : Type 0 where
  pub file_type : FileType
  pub file_number : ℕ
  pub element_number : ℕ
  pub position_number : Option ℕ
  pub sub_element : Option ℕ
  pub element_count : Option ℕ

abbrev pub or_default : Option ℕ → ℕ → ℕ
or_default none d = d
or_default (some x) d = x

-- The letter of a type, as `one_of` returns it.
abbrev pub letter_type : ℕ → FileType
letter_type x =
    if x == b'L'
    then file_l
    else if x == b'F'
    then file_f
    else if x == b'B'
    then file_b
    else if x == b'N'
    then file_n
    else if x == b'I'
    then file_i
    else if x == b'O'
    then file_o
    else if x == b'C'
    then file_c
    else if x == b'T'
    then file_t
    else if x == b'A'
    then file_a
    else file_s

-- The names of `CT_RE` with their values in `PCCC_CT`.
abbrev pub counter_bits : List (Text × ℕ)
counter_bits =
    (text "ACC", 2)
    ∷ (text "PRE", 1)
    ∷ (text "EN", 15)
    ∷ (text "DN", 13)
    ∷ (text "TT", 14)
    ∷ (text "CU", 15)
    ∷ (text "CD", 14)
    ∷ (text "OV", 12)
    ∷ (text "UN", 11)
    ∷ (text "UA", 10)
    ∷ []

unfoldable pub counter_bit : List (Text × ℕ) → Matcher ℕ
counter_bit [] text = none
counter_bit ((name, value) ∷ rest) text =
    let later = counter_bit rest text in
    if starts_with name (upper text) then some (value, drop (length name) text) else later

-- `.`, which no line feed matches.
abbrev pub any_char : Matcher (Unit {0})
any_char [] = none
any_char (x ∷ xs) = if x == 10 then none else some (tt, xs)

-- `\d{1,most}(.)(ACC|...)` with as many digits as there are.
unfoldable pub element_then_bit : ℕ → Matcher (ℕ × ℕ)
element_then_bit most s = do
  (e, s) ← digits most s
  (_, s) ← any_char s
  (v, s) ← counter_bit counter_bits s
  some ((e, v), s)

-- Fewer digits are tried where the most do not fit what follows.
unfoldable pub element_and_bit : ℕ → Matcher (ℕ × ℕ)
element_and_bit zero s = none
element_and_bit (suc most) s = element_then_bit (suc most) s otherwise element_and_bit most s

unfoldable pub ct_re : Matcher Groups
ct_re s = do
  (letter, s) ← one_of (text "CT") s
  (file, s) ← digits 3 s
  (_, s) ← literal b':' s
  ((element, bit), s) ← element_and_bit 3 s
  some (
    record {
      file_type = letter_type letter;
      file_number = file;
      element_number = element;
      position_number = none;
      sub_element = some bit;
      element_count = none;
    },
    s,
  )

unfoldable pub lfbn_re : Matcher Groups
lfbn_re s = do
  (letter, s) ← one_of (text "LFBN") s
  (file, s) ← digits 3 s
  (_, s) ← literal b':' s
  (element, s) ← digits 3 s
  let (sub, s) = optional sub_element s
  let (count, s) = optional element_count s
  some (
    record {
      file_type = letter_type letter;
      file_number = file;
      element_number = element;
      position_number = none;
      sub_element = sub;
      element_count = count;
    },
    s,
  )

-- `((\.)(?P<position_number>\d{1,3}))?`
abbrev position : Matcher ℕ
position s = do (_, s) ← literal b'.' s; digits 3 s

unfoldable pub io_re : Matcher Groups
io_re s = do
  (letter, s) ← one_of (text "IO") s
  let (file, s) = optional (digits 3) s
  (_, s) ← literal b':' s
  (element, s) ← digits 3 s
  let (pos, s) = optional position s
  let (sub, s) = optional sub_element s
  let (count, s) = optional element_count s
  some (
    record {
      file_type = letter_type letter;
      file_number = or_default file 0;
      element_number = element;
      position_number = pos;
      sub_element = sub;
      element_count = count;
    },
    s,
  )

-- `(?P<element_count>[12])` in braces.
abbrev one_or_two : Matcher ℕ
one_or_two s = do
  (_, s) ← literal b'{' s
  (d, s) ← one_of (text "12") s
  (_, s) ← literal b'}' s
  some (d - b'0', s)

unfoldable pub st_re : Matcher Groups
st_re s = do
  (_, s) ← one_of (text "S") s
  (_, s) ← one_of (text "T") s
  (file, s) ← digits 3 s
  (_, s) ← literal b':' s
  (element, s) ← digits 4 s
  let (count, s) = optional one_or_two s
  some (
    record {
      file_type = file_st;
      file_number = file;
      element_number = element;
      position_number = none;
      sub_element = none;
      element_count = count;
    },
    s,
  )

-- `A_RE` with `:` and `B_RE` with `/`.
unfoldable pub letter_re : Text → ℕ → Matcher Groups
letter_re letters separator s = do
  (letter, s) ← one_of letters s
  (file, s) ← digits 3 s
  (_, s) ← literal separator s
  (element, s) ← digits 4 s
  let (count, s) = optional element_count s
  some (
    record {
      file_type = letter_type letter;
      file_number = file;
      element_number = element;
      position_number = none;
      sub_element = none;
      element_count = count;
    },
    s,
  )

unfoldable pub s_re : Matcher Groups
s_re s = do
  (_, s) ← one_of (text "S") s
  (_, s) ← literal b':' s
  (element, s) ← digits 3 s
  let (sub, s) = optional sub_element s
  let (count, s) = optional element_count s
  some (
    record {
      file_type = file_s;
      file_number = 2;
      element_number = element;
      position_number = none;
      sub_element = sub;
      element_count = count;
    },
    s,
  )
