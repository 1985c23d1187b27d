-- ===== src/Slc/Messages.antt =====
-- The requests of pycomm3/slc_driver.py and the results of `_read_tag` and `_write_tag`.
pub mod Layout
use pycomm.Base.{
  ℕ, zero, suc, ◌+◌, ◌*◌, Bool, true, false, List, [], ◌∷◌, ◌++◌, Option, none, some, ltb, ◌==◌,
  if◌then◌else◌, Text, text, Bytes, length, take, drop, Result, Error, ok, err, ◌>>=◌, get_or_raise,
  request_error, response_error, other_error,
}
use pycomm.Base.Ints.{pos}
use pycomm.DataTypes.Integers.{usint, uint}
use pycomm.DataTypes.Value.{Value}
use pycomm.DataTypes.Encode.{encode_int}
use pycomm.Slc.Files.{FileType, file_code, data_size}
use pycomm.Slc.Addresses.{Address, parse_tag}
use pycomm.Slc.Values.{writeable_value, parse_read_reply}

-- `_msg_start`
unfoldable pub msg_start : Bytes → Bytes → Bytes
msg_start vid vsn = 0x4B ∷ 0x02 ∷ 0x20 ∷ 0x67 ∷ 0x24 ∷ 0x01 ∷ 0x07 ∷ (vid ++ vsn)

-- A command: its code, the status, the transaction's number and the function, and what belongs to it.
unfoldable pub command : Bytes → ℕ → ℕ → Bytes → Result Bytes
command start transaction function rest = do
  id ← encode_int uint (pos transaction)
  ok (start ++ (0x0F ∷ 0x00 ∷ (id ++ (function ∷ rest))))

-- The part that reads and writes have in common: size, file, type, element and sub-element.
unfoldable pub file_fields : Address → Result Bytes
file_fields a = do
  size ← encode_int usint (pos (data_size a.file_type * a.element_count))
  file ← encode_int usint (pos a.file_number)
  element ← encode_int usint (pos a.element_number)
  position ← encode_int usint (pos a.pos_number)
  ok (size ++ (file ++ (file_code a.file_type ∷ (element ++ position))))

-- The message of `_read_tag`
unfoldable pub read_message : Bytes → ℕ → Address → Result Bytes
read_message start transaction a = do fields ← file_fields a; command start transaction 0xA2 fields

-- `PCCC_ERROR_CODE` of pycomm3/cip/status_info.py, at the values of a byte.
unfoldable pub pccc_error_code : ℕ → Option Text
pccc_error_code code =
    if code == 16
    then some (
        text "Illegal Command or Format, Address may not exist or not enough elements in data file")
    else if code == 32
    then some (text "PLC Has a Problem and Will Not Communicate")
    else if code == 48
    then some (text "Remote Node Host is Missing, Disconnected, or Shut Down")
    else if code == 64
    then some (text "Host Could Not Complete Function Due To Hardware Fault")
    else if code == 80
    then some (text "Addressing problem or Memory Protect Rungs")
    else if code == 96
    then some (text "Function not allows due to command protection selection")
    else if code == 112
    then some (text "Processor is in Program mode")
    else if code == 128
    then some (text "Compatibility mode file missing or communication zone problem")
    else if code == 144
    then some (text "Remote node cannot buffer command")
    else if code == 240
    then some (text "Error code in EXT STS Byte")
    else none

abbrev unknown_status : Text
unknown_status = text "Unknown Status"

abbrev or_unknown : Option Text → Text
or_unknown none = unknown_status
or_unknown (some t) = t

abbrev status_of_byte : Bytes → Option Text
status_of_byte [] = some unknown_status
status_of_byte (b ∷ bs) = if b == 0 then none else some (or_unknown (pccc_error_code b))

-- `request_status`; a reply that is too short, or `None`, has an unknown status.
unfoldable pub request_status : Option Bytes → Option Text
request_status none = some unknown_status
request_status (some raw) = status_of_byte (drop 58 raw)

-- `response.raw[SLC_REPLY_START:]`
abbrev pub reply_data : Option Bytes → Result Bytes
reply_data none = err other_error
reply_data (some raw) = ok (drop 61 raw)

-- A `Tag`; the texts of other errors are left out.
pub data TagError : Type 0 where
  no_error failed_parsing : TagError
  status : Text → TagError

pub record Tag : Type 0 where
  pub tag : Text
  pub value : Option Value
  pub file_type : FileType
  pub error : TagError

module _ (pack_real : Value → Result Bytes) (unpack_real : Bytes → Result Value) where
  -- `except ResponseError`
  abbrev read_value : Address → Result Value → Result Tag
  read_value a (ok v) =
      ok (record { tag = a.tag; value = some v; file_type = a.file_type; error = no_error })
  read_value a (err response_error) =
      ok (record { tag = a.tag; value = none; file_type = a.file_type; error = failed_parsing })
  read_value a (err e) = err e

  abbrev read_result : Address → Option Bytes → Option Text → Result Tag
  read_result a raw (some s) =
      ok (record { tag = a.tag; value = none; file_type = a.file_type; error = status s })
  read_result a raw none =
      reply_data raw >>= λ b. read_value a (parse_read_reply pack_real unpack_real a b)

  abbrev write_result : Address → Value → Option Text → Tag
  write_result a v (some s) = record {
    tag = a.tag;
    value = none;
    file_type = a.file_type;
    error = status s;
  }
  write_result a v none = record {
    tag = a.tag;
    value = some v;
    file_type = a.file_type;
    error = no_error;
  }

  -- The message of `_write_tag`
  unfoldable pub write_message : Bytes → ℕ → Address → Value → Result Bytes
  write_message start transaction a v = do
    fields ← file_fields a
    value ← writeable_value pack_real unpack_real a v
    command start transaction 0xAB (fields ++ value)

  -- `send` sends a message and returns the raw reply, or `None` for it.
  module _ (send : Bytes → Result (Option Bytes)) (start : Bytes) where
    -- `_read_tag`; `transaction` is the next number of the sequence.
    unfoldable pub read_tag : ℕ → Text → Result Tag
    read_tag transaction tag = do
      a ← get_or_raise (parse_tag tag) request_error
      message ← read_message start transaction a
      raw ← send message
      read_result a raw (request_status raw)

    -- `_write_tag`
    unfoldable pub write_tag : ℕ → Text → Value → Result Tag
    write_tag transaction tag v = do
      a ← get_or_raise (parse_tag tag) request_error
      message ← write_message start transaction a v
      raw ← send message
      ok (write_result a v (request_status raw))
