-- ===== src/Slc/Messages/Layout.antt =====
-- The bytes of a read request.
use pycomm.Base.{ℕ, ◌*◌, ◌/◌, ◌%◌, ◌<◌, ◌≡◌, refl, [], ◌∷◌, ◌++◌, some, Text, Bytes, ok}
use pycomm.DataTypes.RoundTrip.Numbers.{encode_byte, uint_two_bytes}
use pycomm.Slc.Files.{data_size, file_code}
use pycomm.Slc.Addresses.{Address, parse_tag}
use pycomm.Slc.Addresses.Bounds.{parse_tag-IsAddress}
use pycomm.Slc.Messages.{file_fields, command, read_message}

-- Any tag that is parsed, whose data are fewer than 256 bytes and whose position is less than 256, is asked for in one
-- request: the start, the command with the transaction's number, and one byte each for the size of the data, the file,
-- its type, the element and the position.
pub read_message-parse_tag :
    (start : Bytes) (transaction : ℕ) (s : Text) (a : Address)
    → parse_tag s ≡ some a
    → transaction < 65536
    → data_size a.file_type * a.element_count < 256
    → a.pos_number < 256
    → read_message start transaction a
      ≡ ok (
          start
          ++ (0x0F
              ∷ 0x00
              ∷ transaction % 256
              ∷ transaction / 256 % 256
              ∷ 0xA2
              ∷ data_size a.file_type * a.element_count
              ∷ a.file_number
              ∷ file_code a.file_type
              ∷ a.element_number
              ∷ a.pos_number
              ∷ []))
unfolding read_message file_fields command
read_message-parse_tag start transaction s a parsed ht hs hp =
    let (hf, he, _) = parse_tag-IsAddress s a parsed in
    rw
      (
        encode_byte (data_size a.file_type * a.element_count) hs,
        encode_byte a.file_number hf,
        encode_byte a.element_number he,
        encode_byte a.pos_number hp,
        (uint_two_bytes transaction ht).0,
      )
      refl
