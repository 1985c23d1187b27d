-- ===== src/Slc/Addresses.antt =====
-- `parse_tag` of pycomm3/slc_driver.py: the addresses of data files.
pub mod Bounds
use pycomm.Base.{
  ℕ, zero, suc, ◌/◌, ◌*◌, ◌-◌, Bool, true, false, ◌&&◌, Option, none, some, leb, ◌==◌,
  if◌then◌else◌, Text, text,
}
use pycomm.Slc.Files.{FileType, file_o}
use pycomm.Slc.Patterns.{◌>>=◌, ◌otherwise◌, when, search, without_token}
use pycomm.Slc.Expressions.{Groups, or_default, ct_re, lfbn_re, io_re, st_re, letter_re, s_re}

-- The dictionary that is returned. Numbers that are kept as texts there are only used through `int`; `sub_element`
-- is 0 where it is absent or `None`, since it is used as `int(... or 0)`, and `pos_number` is 0 where it is absent.
pub record Address : Type 0 where
  pub file_type : FileType
  pub file_number : ℕ
  pub element_number : ℕ
  pub pos_number : ℕ
  pub sub_element : ℕ
  pub address_field : ℕ
  pub element_count : ℕ
  pub tag : Text

-- `1 <= int(file_number) <= 255`
abbrev pub valid_file : ℕ → Bool
valid_file k = leb 1 k && leb k 255

abbrev pub valid_bit : Option ℕ → Bool
valid_bit none = true
valid_bit (some k) = leb k 15

-- `address_field`: a bit, or whole words.
abbrev pub field_of : Option ℕ → ℕ
field_of none = 2
field_of (some k) = 3

-- What all the dictionaries have in common; `matched` is `t.group(0)`.
abbrev pub address : Groups → ℕ → Text → Address
address g file name = record {
  file_type = g.file_type;
  file_number = file;
  element_number = g.element_number;
  pos_number = 0;
  sub_element = or_default g.sub_element 0;
  address_field = field_of g.sub_element;
  element_count = or_default g.element_count 1;
  tag = name;
}

abbrev pub is_output : FileType → Bool
is_output file_o = true
is_output _ = false

unfoldable pub ct_address : Groups → Text → Option Address
ct_address g matched = do
  _ ← when (valid_file g.file_number && leb g.element_number 255)
  some (address g g.file_number matched)

unfoldable pub lfbn_address : Groups → Text → Option Address
lfbn_address g matched = do
  _ ← when (valid_file g.file_number && leb g.element_number 255 && valid_bit g.sub_element)
  some (address g g.file_number (without_token matched))

-- The file number that is written is not used.
unfoldable pub io_address : Groups → Text → Option Address
io_address g matched = do
  _ ← when (leb g.element_number 255 && valid_bit g.sub_element)
  let a = address g (if is_output g.file_type then 0 else 1) (without_token matched)
  some (record a { pos_number = or_default g.position_number 0 })

-- `ST_RE` and `A_RE`
unfoldable pub word_address : Groups → Text → Option Address
word_address g matched = do
  _ ← when (valid_file g.file_number && leb g.element_number 255)
  some (address g g.file_number (without_token matched))

-- The name of a bit keeps its count.
abbrev status_name : Option ℕ → Text → Text
status_name none matched = without_token matched
status_name (some k) matched = matched

unfoldable pub s_address : Groups → Text → Option Address
s_address g matched = do
  _ ← when (leb g.element_number 255 && valid_bit g.sub_element)
  some (address g 2 (status_name g.sub_element matched))

-- `element_number` is the float `bit_position / 16`, which is used as `int(...)`; 16 times it is
-- `bit_position` again, so `sub_element` is 0.0.
unfoldable pub b_address : Groups → Text → Option Address
b_address g matched = do
  _ ← when (valid_file g.file_number && leb g.element_number 4095)
  let a = address g g.file_number (without_token matched)
  some (record a { element_number = g.element_number / 16; sub_element = 0; address_field = 3 })

-- The first expression that matches within its bounds is taken.
unfoldable pub parse_tag : Text → Option Address
parse_tag s =
    (search ct_re s >>= λ (g, m). ct_address g m)
    otherwise (search lfbn_re s >>= λ (g, m). lfbn_address g m)
    otherwise (search io_re s >>= λ (g, m). io_address g m)
    otherwise (search st_re s >>= λ (g, m). word_address g m)
    otherwise (search (letter_re (text "A") b':') s >>= λ (g, m). word_address g m)
    otherwise (search s_re s >>= λ (g, m). s_address g m)
    otherwise (search (letter_re (text "B") b'/') s >>= λ (g, m). b_address g m)
