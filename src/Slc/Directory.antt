-- ===== src/Slc/Directory.antt =====
-- `_get_sys0_info`, `_get_file_directory_size`, `_read_whole_file_directory` and `_parse_file0` of
-- pycomm3/slc_driver.py: the directory of a controller's data files.
pub mod Whole
use pycomm.Base.{
  ℕ, zero, suc, ◌+◌, ◌-◌, ◌*◌, ◌/◌, Bool, true, false, ◌||◌, List, [], ◌∷◌, ◌++◌, Option, none,
  some, ltb, ◌==◌, if◌then◌else◌, Text, text, text_eq, Bytes, length, take, drop, slice, Result, ok,
  err, ◌>>=◌, get_or_raise, response_error, other_error, diverges,
}
use pycomm.Base.Ints.{ℤ, pos, negsuc}
use pycomm.DataTypes.Integers.{usint, uint}
use pycomm.DataTypes.Encode.{encode_int}
use pycomm.DataTypes.Decode.{decode_int, natural}
use pycomm.Slc.Files.{FileType, file_type_of, data_size}
use pycomm.Slc.Messages.{command, request_status, reply_data}

-- The dictionary of `_get_sys0_info`; `size_const` is 0 where it is absent.
pub record Sys0Info : Type 0 where
  pub file_position : ℕ
  pub row_size : ℕ
  pub file_type : ℕ
  pub size_element : ℕ
  pub size_len : ℕ
  pub size_const : ℕ

unfoldable pub get_sys0_info : Text → Sys0Info
get_sys0_info plc_type =
    let prefix = take 4 plc_type in
    if text_eq prefix (text "1761")
    then record {
      file_position = 93;
      row_size = 8;
      file_type = 0;
      size_element = 0x23;
      size_len = 4;
      size_const = 0;
    }
    else if text_eq prefix (text "1763")
        || text_eq prefix (text "1762")
        || text_eq prefix (text "1764")
    then record {
      file_position = 233;
      row_size = 10;
      file_type = 2;
      size_element = 0x28;
      size_len = 8;
      size_const = 19968;
    }
    else if text_eq prefix (text "1766")
    then record {
      file_position = 233;
      row_size = 10;
      file_type = 3;
      size_element = 0x2B;
      size_len = 8;
      size_const = 19968;
    }
    else record {
      file_position = 79;
      row_size = 10;
      file_type = 1;
      size_element = 0x23;
      size_len = 4;
      size_const = 0;
    }

-- The message of `_get_file_directory_size`
unfoldable pub size_message : Bytes → ℕ → Sys0Info → Result Bytes
size_message start transaction info =
    command start transaction 0xA1 (info.size_len ∷ 0x00 ∷ info.file_type ∷ info.size_element ∷ [])

-- `UINT.decode(...) - size_const`; a negative size stands for 0, since both end the loop at once.
unfoldable pub directory_size : Sys0Info → Bytes → Option ℕ
directory_size info raw = elim ((decode_int uint raw).0) [
  | ok z ↦ some (natural z - info.size_const)
  | err e ↦ none
]

-- `offset` in words: one byte, or 0xFF and two.
unfoldable pub offset_field : ℕ → Result Bytes
offset_field offset =
    let wide = encode_int uint (pos offset) >>= λ b. ok (0xFF ∷ b) in
    if ltb offset 256 then encode_int usint (pos offset) else wide

-- The message of one turn.
unfoldable pub directory_message : Bytes → ℕ → ℕ → ℕ → ℕ → Result Bytes
directory_message start transaction file_type size offset = do
  size_byte ← encode_int usint (pos size)
  field ← offset_field offset
  command start transaction 0xA1 (size_byte ++ (0x00 ∷ file_type ∷ field))

abbrev pub chunk_size : ℕ → ℕ
chunk_size remaining = if ltb 0x50 remaining then 0x50 else remaining

-- A reply without an error has data.
abbrev pub good_reply : Option Text → Option Bytes → Result Bytes
good_reply none raw = reply_data raw
good_reply (some s) raw = err response_error

-- `respond` is what the controller answers to a message, after the ones that were sent before; `numbers` are the
-- transaction numbers. The fuel bounds the turns.
module _ (respond : List Bytes → Bytes → Result (Option Bytes)) (numbers : ℕ → ℕ)
    (start : Bytes) where
  unfoldable pub read_directory : ℕ → List Bytes → ℕ → ℕ → ℕ → Bytes → Result Bytes
  read_directory zero sent file_type size offset file0_data = err diverges
  read_directory (suc fuel) sent file_type size offset file0_data =
      if ltb (length file0_data) size
      then (directory_message start (numbers (length sent)) file_type
            (chunk_size (size - length file0_data)) offset
          >>= λ message. respond sent message >>= λ raw.
              good_reply (request_status raw) raw >>= λ chunk.
              read_directory fuel (sent ++ (message ∷ [])) file_type size
                (offset + length chunk / 2) (file0_data ++ chunk))
      else ok file0_data

  -- `_read_whole_file_directory`
  unfoldable pub read_whole_file_directory : ℕ → Sys0Info → ℕ → Result Bytes
  read_whole_file_directory fuel info size = read_directory fuel [] info.file_type size 0 []

-- A data file: its name is its type and its number.
pub record DataFile : Type 0 where
  pub file_type : FileType
  pub file_number : ℕ
  pub elements : ℕ
  pub length : ℕ

-- `data[i]`
abbrev byte_at : ℕ → Bytes → Result ℕ
byte_at i raw = elim (drop i raw) [ [] ↦ err other_error | b ∷ bs ↦ ok b ]

-- The row at the front: a file, a number that is left out, or neither.
abbrev row_type : Bytes → Option FileType
row_type [] = none
row_type (b ∷ bs) = file_type_of b

abbrev is_reserved : Bytes → Bool
is_reserved [] = false
is_reserved (b ∷ bs) = b == 0x81

abbrev data_file : Option FileType → ℕ → Bytes → Result (List DataFile)
data_file none file_num row = ok []
data_file (some t) file_num row = do
  size ← (decode_int uint (drop 1 row)).0
  ok (
      record {
        file_type = t;
        file_number = file_num;
        elements = natural size / data_size t;
        length = natural size;
      }
      ∷ [])

abbrev next_number : Option FileType → Bytes → ℕ → ℕ
next_number none row file_num = if is_reserved row then suc file_num else file_num
next_number (some t) row file_num = suc file_num

-- The loop, on what is left of the data; the numbers differ, so no name is entered twice.
unfoldable pub parse_rows : ℕ → ℕ → ℕ → Bytes → Result (List DataFile)
parse_rows zero row_size file_num row = err diverges
parse_rows (suc fuel) row_size file_num [] = ok []
parse_rows (suc fuel) row_size file_num (b ∷ bs) = do
  file ← data_file (row_type (b ∷ bs)) file_num (b ∷ bs)
  files ←
      parse_rows fuel row_size (next_number (row_type (b ∷ bs)) (b ∷ bs) file_num)
        (drop row_size (b ∷ bs))
  ok (file ++ files)

-- `_parse_file0`: the two counts are only printed.
unfoldable pub parse_file0 : Sys0Info → Bytes → Result (List DataFile)
parse_file0 info raw = do
  num_data_files ← byte_at 52 raw
  num_lad_files ← byte_at 46 raw
  parse_rows (suc (length raw)) info.row_size 0 (drop info.file_position raw)

-- `_get_file_directory_size`: an error of the reply is logged.
abbrev pub size_result : Sys0Info → Option Text → Option Bytes → Option ℕ
size_result info (some s) raw = none
size_result info none none = none
size_result info none (some raw) = directory_size info (drop 61 raw)

-- `get_file_directory`, where `plc_type` is the result of `get_processor_type`; `ask` answers the request for the
-- size, and `respond` the ones that follow it.
unfoldable pub get_file_directory :
    (Bytes → Result (Option Bytes))
    → (List Bytes → Bytes → Result (Option Bytes))
    → (ℕ → ℕ)
    → Bytes
    → ℕ
    → ℕ
    → Option Text
    → Result (List DataFile)
get_file_directory ask respond numbers start fuel transaction none = err response_error
get_file_directory ask respond numbers start fuel transaction (some plc_type) = do
  let info = get_sys0_info plc_type
  message ← size_message start transaction info
  raw ← ask message
  size ← get_or_raise (size_result info (request_status raw) raw) response_error
  file0 ← read_whole_file_directory respond numbers start fuel info size
  parse_file0 info file0
