-- ===== src/Slc/Files.antt =====
-- The tables of pycomm3/cip/pccc.py.
use pycomm.Base.{ℕ, Option, none, some, Text, text, List, [], ◌∷◌, ◌==◌, if◌then◌else◌}

-- The keys of `_PCCC_DATA_TYPE`.
pub data FileType : Type 0 where
  file_n file_b file_t file_c file_s file_f file_st file_a file_r file_o file_i file_l file_mg
        file_pd file_pls :
      FileType

-- `PCCC_DATA_TYPE` at a type.
unfoldable pub file_code : FileType → ℕ
file_code file_n = 0x89
file_code file_b = 0x85
file_code file_t = 0x86
file_code file_c = 0x87
file_code file_s = 0x84
file_code file_f = 0x8A
file_code file_st = 0x8D
file_code file_a = 0x8E
file_code file_r = 0x88
file_code file_o = 0x82
file_code file_i = 0x83
file_code file_l = 0x91
file_code file_mg = 0x92
file_code file_pd = 0x93
file_code file_pls = 0x94

abbrev pub file_types : List FileType
file_types =
    file_n ∷ file_b ∷ file_t ∷ file_c ∷ file_s ∷ file_f ∷ file_st ∷ file_a ∷ file_r ∷ file_o
    ∷ file_i ∷ file_l ∷ file_mg ∷ file_pd ∷ file_pls ∷ []

unfoldable pub with_code : List FileType → ℕ → Option FileType
unfolding file_code
with_code [] code = none
with_code (t ∷ ts) code =
    let rest = with_code ts code in if file_code t == code then some t else rest

-- `PCCC_DATA_TYPE` at a code: the table holds its own inverse.
unfoldable pub file_type_of : ℕ → Option FileType
file_type_of code = with_code file_types code

-- `PCCC_DATA_SIZE`
unfoldable pub data_size : FileType → ℕ
data_size file_n = 2
data_size file_b = 2
data_size file_t = 6
data_size file_c = 6
data_size file_s = 2
data_size file_f = 4
data_size file_st = 84
data_size file_a = 2
data_size file_r = 6
data_size file_o = 2
data_size file_i = 2
data_size file_l = 4
data_size file_mg = 50
data_size file_pd = 46
data_size file_pls = 12

-- The letters of a name.
unfoldable pub type_name : FileType → Text
type_name file_n = text "N"
type_name file_b = text "B"
type_name file_t = text "T"
type_name file_c = text "C"
type_name file_s = text "S"
type_name file_f = text "F"
type_name file_st = text "ST"
type_name file_a = text "A"
type_name file_r = text "R"
type_name file_o = text "O"
type_name file_i = text "I"
type_name file_l = text "L"
type_name file_mg = text "MG"
type_name file_pd = text "PD"
type_name file_pls = text "PLS"

-- The keys of `PCCC_CT` that are no bits.
abbrev pub preset : ℕ
preset = 1

abbrev pub accumulated : ℕ
accumulated = 2
