-- ===== src/Slc/Values/Bits.antt =====
-- Bits that are written, as they are read.
use pycomm.Base.{
  ℕ, zero, suc, ◌^◌, ◌<◌, ◌≡◌, refl, sym, ap, ◌∙◌, arith, Bool, true, false, ◌&&◌, [], ◌∷◌, ◌++◌,
  some, ltb, ◌==◌, if◌then◌else◌, if-false, if-true, Bytes, take, Result, ok, raise_as,
  request_error, response_error, ◌>>=◌,
}
use pycomm.Base.BitAt.{bit_at, bit_at-lt, bit_at-complement, bit_at-pow}
use pycomm.Base.Bits.{holds_below, holds_below-at}
use pycomm.DataTypes.Integers.{unpack_int, of_pattern, le_bytes, of_le-le_bytes, int}
use pycomm.DataTypes.Types.{Typ}
use pycomm.DataTypes.Value.{Value, truthy}
use pycomm.DataTypes.Decode.{decode, decode_int}
use pycomm.DataTypes.Stream.{stream_read}
use pycomm.DataTypes.RoundTrip.Numbers.{encode_unsigned}
use pycomm.Slc.Files.{data_size}
use pycomm.Slc.Addresses.{Address}
use pycomm.Slc.Values.{
  number, format, is_bit, is_counter, is_word, get_bit, bit_of, one_value, under_mask,
  writeable_value, unpack_func, mask_of, read_bit, parse_read_reply, elements_of,
}

-- A controller's masked write to a word: the bits of the mask are taken from the data, the others are kept.
abbrev pub MasksWrites : (ℕ → ℕ → ℕ → ℕ) → Type 0
MasksWrites apply =
    (old mask new : ℕ)
    → old < 65536
    → mask < 65536
    → new < 65536
    → (apply old mask new < 65536)
      × ((j : ℕ)
          → j < 16
          → bit_at j (apply old mask new)
            ≡ (if bit_at j mask == 1 then bit_at j new else bit_at j old))

get_bit-of_pattern :
    (n j : ℕ) → j < 16 → n < 65536 → get_bit (of_pattern true 2 n) j ≡ (bit_at j n == 1)
unfolding get_bit
get_bit-of_pattern n j h low = ground (arith, bit_at-complement 16 j n h low, bit_at-lt j n)

decode_word :
    (n : ℕ)
    → n < 65536
    → (decode (Typ.int int) (le_bytes 2 n)).0 ≡ ok (Value.int (of_pattern true 2 n))
unfolding decode decode_int stream_read unpack_int le_bytes
decode_word n low = ap (λ m. ok (Value.int (of_pattern true 2 m))) (of_le-le_bytes 2 n low)

-- The same word's bit `j`.
abbrev pub at : Address → ℕ → Address
at a j = record a { sub_element = j }

bit_of_word :
    (n j : ℕ)
    → j < 16
    → n < 65536
    → ((decode (Typ.int int) (le_bytes 2 n)).0 >>= λ v. bit_of v j)
      ≡ ok (Value.bool (bit_at j n == 1))
bit_of_word n j h low =
    ap (λ r. r >>= λ v. bit_of v j) (decode_word n low)
    ∙ ap (λ b. ok (Value.bool b)) (get_bit-of_pattern n j h low)

all_below : holds_below 16 (λ i. ltb (2 ^ i) 65536) ≡ true
unfolding holds_below
all_below = refl

pow-lt : (b : ℕ) → b < 16 → 2 ^ b < 65536
pow-lt b h =
    let below : ltb (2 ^ b) 65536 ≡ true =
      holds_below-at 16 (λ i. ltb (2 ^ i) 65536) all_below b h in
    ground (arith)

bit_at_zero_below : (j : ℕ) → bit_at j 0 ≡ 0
unfolding bit_at
bit_at_zero_below zero = refl
bit_at_zero_below (suc j) = bit_at_zero_below j

chosen :
    (b j : ℕ) (v : Bool) (was now : ℕ) (other : Result Value)
    → now ≡ (if bit_at j (2 ^ b) == 1 then bit_at j (if v then 2 ^ b else 0) else was)
    → ok (Value.bool (was == 1)) ≡ other
    → ok (Value.bool (now == 1)) ≡ (if b == j then ok (Value.bool v) else other)
chosen b j true was now other h o = ground (arith, bit_at-pow j b)
chosen b j false was now other h o = ground (arith, bit_at-pow j b, bit_at_zero_below j)

if-lt : (v : Bool) (n : ℕ) → n < 65536 → (if v then n else 0) < 65536
if-lt true n h = h
if-lt false n h = omega arith

bit_or_none :
    (v : Bool) (n : ℕ)
    → ◌≡◌ {A = Result Bytes}
        (ok (le_bytes 2 n ++ (if v then le_bytes 2 n else 0 ∷ 0 ∷ [])))
        (ok (le_bytes 2 n ++ le_bytes 2 (if v then n else 0)))
unfolding le_bytes
bit_or_none true n = refl
bit_or_none false n = refl

module _ (pack_real : Value → Result Bytes) (unpack_real : Bytes → Result Value) where
  parse_read_reply_bit :
      (a : Address) (j n : ℕ)
      → is_bit a ≡ true
      → is_counter a.file_type ≡ false
      → format a.file_type ≡ some (number int)
      → data_size a.file_type ≡ 2
      → j < 16
      → n < 65536
      → parse_read_reply pack_real unpack_real (at a j) (le_bytes 2 n)
        ≡ ok (Value.bool (bit_at j n == 1))
  unfolding parse_read_reply read_bit unpack_func le_bytes
  parse_read_reply_bit a j n bit c f d h low =
      ap (raise_as response_error) (if-true (is_bit a) _ _ bit)
      ∙ ap (raise_as response_error)
          (if-false (is_counter a.file_type && j == 1) _ _ (ground (arith, c)))
      ∙ ap (raise_as response_error)
          (if-false (is_counter a.file_type && j == 2) _ _ (ground (arith, c)))
      ∙ ap
          (λ s. raise_as response_error (
            unpack_func pack_real unpack_real (format a.file_type) (take s (le_bytes 2 n)) >>= λ v.
            bit_of v j))
          d
      ∙ ap
          (λ o.
            raise_as response_error
              (unpack_func pack_real unpack_real o (le_bytes 2 n) >>= λ v. bit_of v j))
          f
      ∙ ap (raise_as response_error) (bit_of_word n j h low)

  written_bit :
      (a : Address) (v : Bool)
      → is_bit a ≡ true
      → is_counter a.file_type ≡ false
      → a.element_count ≡ 1
      → a.sub_element < 16
      → writeable_value pack_real unpack_real a (Value.bool v)
        ≡ ok (le_bytes 2 (2 ^ a.sub_element) ++ le_bytes 2 (if v then 2 ^ a.sub_element else 0))
  unfolding writeable_value under_mask one_value truthy
  written_bit a v bit c e low =
      let mask : mask_of a ≡ ok (le_bytes 2 (2 ^ a.sub_element)) =
        if-true (is_bit a) _ _ bit
        ∙ (encode_unsigned (2 ^ a.sub_element)).1 (pow-lt a.sub_element low) in
      ap (λ m. m >>= under_mask pack_real unpack_real a (Value.bool v)) mask
      ∙ if-false (ltb 1 (elements_of a)) _ _ (ground (arith, e))
      ∙ ap (raise_as request_error) (if-true (is_bit a) _ _ bit)
      ∙ ap (raise_as request_error)
          (if-false (is_counter a.file_type && is_word a.sub_element) _ _ (ground (arith, c)))
      ∙ bit_or_none v (2 ^ a.sub_element)

  -- For the address of one of the 16 bits of a word in a file of words that is no timer or counter, status files
  -- included, though the docstring of `_write_tag` says that status bits cannot be written, with a count of
  -- 1, and a controller that honours the mask: a mask and a word are written for a bool, and the reply with the word that
  -- the controller then holds is parsed to that bool for this bit, and to what it was before for every other one.
  pub parse_read_reply-written_bit :
      (apply : ℕ → ℕ → ℕ → ℕ) (a : Address) (v : Bool) (old j : ℕ)
      → MasksWrites apply
      → is_bit a ≡ true
      → is_counter a.file_type ≡ false
      → format a.file_type ≡ some (number int)
      → data_size a.file_type ≡ 2
      → a.element_count ≡ 1
      → a.sub_element < 16
      → old < 65536
      → j < 16
      → (mask : ℕ) × (new : ℕ) × (writeable_value pack_real unpack_real a (Value.bool v)
          ≡ ok (le_bytes 2 mask ++ le_bytes 2 new))
        × (parse_read_reply pack_real unpack_real (at a j) (le_bytes 2 (apply old mask new)) ≡ (
            if a.sub_element == j
            then ok (Value.bool v)
            else parse_read_reply pack_real unpack_real (at a j) (le_bytes 2 old)))
  parse_read_reply-written_bit apply a v old j masks bit c f d e low h hj =
      let mask = 2 ^ a.sub_element in
      let new = if v then mask else 0 in
      let mask_lt = pow-lt a.sub_element low in
      let new_lt : new < 65536 = if-lt v mask mask_lt in
      let (below, each) = masks old mask new h mask_lt new_lt in
      (
        mask,
        new,
        written_bit a v bit c e low,
        parse_read_reply_bit a j (apply old mask new) bit c f d hj below
            ∙ chosen a.sub_element j v (bit_at j old) _ _ (each j hj)
                (sym (parse_read_reply_bit a j old bit c f d hj h)),
      )
