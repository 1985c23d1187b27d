-- ===== src/Tests/Slc.antt =====
-- Addresses, values and a small directory of a controller's data files.
use pycomm.Base.{
  zero, suc, ℕ, ◌-◌, ◌*◌, ◌<◌, ◌^◌, ◌≡◌, refl, sym, ap, arith, bit_and, bit_or, true, List, [], ◌∷◌,
  ◌++◌, Option, some, ◌==◌, if◌then◌else◌, text, Bytes, length, take, drop, Result, ok, err,
  other_error,
}
use pycomm.Base.Ints.{pos, negsuc}
use pycomm.Base.Strings.{contains, is_digit_char, starts_with}
use pycomm.Base.BitAt.{
  bit_at-bit_or, bit_at-bit_and, bit_at-complement, bit_at-lt, bit_or-lt, bit_and-lt,
}
use pycomm.DataTypes.Integers.{le_bytes, pack_int, int}
use pycomm.DataTypes.Encode.{encode_int}
use pycomm.DataTypes.Value.{Value}
use pycomm.Slc.Files.{file_n, file_b, data_size, file_code}
use pycomm.Slc.Patterns.{
  search, here_or, one_of, literal, more_digits, digits, sub_element, element_count, without_token,
  upper,
}
use pycomm.Slc.Expressions.{
  ct_re, lfbn_re, io_re, st_re, letter_re, s_re, element_and_bit, element_then_bit, counter_bit,
}
use pycomm.Slc.Addresses.{Address, parse_tag, lfbn_address, b_address}
use pycomm.Slc.Addresses.Bounds.{parse_tag-IsAddress}
use pycomm.Slc.Values.{writeable_value, parse_read_reply, format}
use pycomm.Slc.Values.Words.{given, parse_read_reply-writeable_value}
use pycomm.Slc.Values.Bits.{MasksWrites, at, parse_read_reply-written_bit}
use pycomm.Slc.Messages.{read_message, request_status, command}
use pycomm.Slc.Messages.Layout.{read_message-parse_tag}
use pycomm.Slc.Directory.{Sys0Info, directory_message, offset_field, read_whole_file_directory}
use pycomm.Slc.Directory.Whole.{ServesFile, read_whole_file_directory-ServesFile}

abbrev two_words : Address
two_words = record {
  file_type = file_n;
  file_number = 7;
  element_number = 10;
  pos_number = 0;
  sub_element = 0;
  address_field = 2;
  element_count = 2;
  tag = text "N7:10";
}

two_words_parsed : parse_tag (text "N7:10{2}") ≡ some two_words
unfolding parse_tag search here_or ct_re lfbn_re one_of contains digits more_digits is_digit_char
    literal element_and_bit element_then_bit counter_bit starts_with upper sub_element element_count
    without_token lfbn_address
two_words_parsed = refl

-- Bit 3 of word 1 is asked for, and bit 0 of it is what is addressed.
lost_bit :
    parse_tag (text "B3/19")
    ≡ some (record {
      file_type = file_b;
      file_number = 3;
      element_number = 1;
      pos_number = 0;
      sub_element = 0;
      address_field = 3;
      element_count = 1;
      tag = text "B3/19";
    })
unfolding parse_tag search here_or ct_re lfbn_re io_re st_re letter_re s_re one_of contains digits
    more_digits is_digit_char literal element_and_bit element_then_bit counter_bit starts_with upper
    sub_element element_count without_token b_address
lost_bit = refl

parse_tag-IsAddress_example : (7 < 256) × (10 < 256) × (0 < 16)
parse_tag-IsAddress_example = parse_tag-IsAddress (text "N7:10{2}") two_words two_words_parsed

abbrev start : Bytes
start = 0x4B ∷ 0x02 ∷ []

abbrev two_words_size : data_size file_n * 2 < 256
two_words_size = unfold data_size in omega arith

read_message-parse_tag_example :
    read_message start 258 two_words
    ≡ ok (
        start
        ++ (0x0F ∷ 0x00 ∷ 2 ∷ 1 ∷ 0xA2 ∷ data_size file_n * 2 ∷ 7 ∷ file_code file_n ∷ 10 ∷ 0 ∷ []))
read_message-parse_tag_example =
    read_message-parse_tag start 258 (text "N7:10{2}") two_words two_words_parsed (omega arith)
      two_words_size (omega arith)

abbrev no_real_pack : Value → Result Bytes
no_real_pack v = err other_error

abbrev no_real_unpack : Bytes → Result Value
no_real_unpack b = err other_error

parse_read_reply-writeable_value_example :
    (b : Bytes) × (writeable_value no_real_pack no_real_unpack two_words
        (given (pos 5 ∷ negsuc 0 ∷ []))
      ≡ ok (0xFF ∷ 0xFF ∷ b))
    × (length b ≡ data_size file_n * 2)
    × (parse_read_reply no_real_pack no_real_unpack two_words b
        ≡ ok (given (pos 5 ∷ negsuc 0 ∷ [])))
unfolding format data_size
parse_read_reply-writeable_value_example =
    parse_read_reply-writeable_value no_real_pack no_real_unpack two_words int
      (pos 5 ∷ negsuc 0 ∷ []) refl refl refl (omega arith) refl (omega arith, (omega arith, tt))

-- A controller's masked write.
abbrev masked_write : ℕ → ℕ → ℕ → ℕ
masked_write old mask new = bit_or (bit_and old (2 ^ 16 - 1 - mask)) (bit_and new mask)

masked_write-MasksWrites : MasksWrites masked_write
masked_write-MasksWrites old mask new ho hm hn = (
  bit_or-lt 16 (bit_and old (2 ^ 16 - 1 - mask)) (bit_and new mask)
      (bit_and-lt 16 old (2 ^ 16 - 1 - mask) ho) (bit_and-lt 16 new mask hn),
  λ j h. ground (
    arith,
    bit_at-bit_or j (bit_and old (2 ^ 16 - 1 - mask)) (bit_and new mask),
    bit_at-bit_and j old (2 ^ 16 - 1 - mask),
    bit_at-bit_and j new mask,
    bit_at-complement 16 j mask h hm,
    bit_at-lt j mask,
    bit_at-lt j old,
    bit_at-lt j new,
  ),
)

abbrev one_bit : Address
one_bit = record two_words { sub_element = 4; address_field = 3; element_count = 1 }

parse_read_reply-written_bit_example :
    (mask : ℕ) × (new : ℕ) × (writeable_value no_real_pack no_real_unpack one_bit (Value.bool true)
      ≡ ok (le_bytes 2 mask ++ le_bytes 2 new))
    × (parse_read_reply no_real_pack no_real_unpack
          (at one_bit 15)
          (le_bytes 2 (masked_write 0xF00F mask new))
        ≡ (if 4 == 15
            then ok (Value.bool true)
            else parse_read_reply no_real_pack no_real_unpack (at one_bit 15) (le_bytes 2 0xF00F)))
unfolding format data_size
parse_read_reply-written_bit_example =
    parse_read_reply-written_bit no_real_pack no_real_unpack masked_write one_bit true 0xF00F 15
      masked_write-MasksWrites refl refl refl refl refl (omega arith) (omega arith) (omega arith)

-- A directory of three bytes.
abbrev directory : Bytes
directory = 1 ∷ 2 ∷ 3 ∷ []

abbrev byte_of : ℕ → Bytes → ℕ
byte_of i [] = 0
byte_of zero (b ∷ bs) = b
byte_of (suc i) (b ∷ bs) = byte_of i bs

abbrev zeros : ℕ → Bytes
zeros zero = []
zeros (suc n) = 0 ∷ zeros n

-- The size and the offset stand in the message.
abbrev controller : List Bytes → Bytes → Result (Option Bytes)
controller sent message =
    ok (some (zeros 61 ++ take (byte_of 7 message) (drop (2 * byte_of 10 message) directory)))

answers :
    (m message : Bytes) (sent : List Bytes)
    → ◌≡◌ {A = Result Bytes} (ok m) (ok message)
    → controller sent m ≡ controller sent message
answers m message sent e = let same : m ≡ message = cc in ap (controller sent) same

controller-ServesFile : ServesFile controller (λ _. 1) start 1 directory
unfolding directory_message offset_field command encode_int pack_int request_status le_bytes
controller-ServesFile sent (suc zero) zero message e h le =
    (_, sym (answers _ message sent e), refl, refl)
controller-ServesFile sent (suc (suc zero)) zero message e h le =
    (_, sym (answers _ message sent e), refl, refl)
controller-ServesFile sent (suc (suc (suc zero))) zero message e h le =
    (_, sym (answers _ message sent e), refl, refl)
controller-ServesFile sent (suc zero) (suc zero) message e h le =
    (_, sym (answers _ message sent e), refl, refl)
controller-ServesFile sent zero offset message e h le = absurd (omega arith)
controller-ServesFile sent (suc (suc (suc (suc n)))) zero message e h le = absurd (omega arith)
controller-ServesFile sent (suc (suc n)) (suc zero) message e h le = absurd (omega arith)
controller-ServesFile sent (suc n) (suc (suc k)) message e h le = absurd (omega arith)

abbrev small_info : Sys0Info
small_info = record {
  file_position = 79;
  row_size = 10;
  file_type = 1;
  size_element = 0x23;
  size_len = 4;
  size_const = 0;
}

read_whole_file_directory-ServesFile_example :
    read_whole_file_directory controller (λ _. 1) start 4 small_info 3 ≡ ok directory
read_whole_file_directory-ServesFile_example =
    read_whole_file_directory-ServesFile controller (λ _. 1) start small_info directory 4
      controller-ServesFile (omega arith) (λ n. omega arith) (omega arith)
