-- ===== src/Paths/ReadBack/Items.antt =====
-- Logical and data segments of pycomm3/cip/data_types.py, as the reader sees them.
use pycomm.Base.{
  ℕ, ◌+◌, ◌*◌, ◌/◌, ◌%◌, ◌^◌, ◌<◌, ◌≡◌, refl, ap, arith, true, bit_or, [], ◌∷◌, ◌++◌, append_assoc,
  some, ◌==◌, ==_iff, Text, Bytes, length, length-append, take, drop, take-append, drop-append,
  Result, ok, Bool-cases, inl, inr, le→leb, gt→leb,
}
use native.Mathlib.Nat.{add-zero}
use native.Mathlib.Decide.{dec_lt}
use pycomm.Base.Ints.{pos}
use pycomm.Base.Bits.{holds_below, holds_below-at}
use pycomm.Base.Strings.{utf8}
use pycomm.DataTypes.Integers.{of_le, le_bytes, of_le-le_bytes}
use pycomm.DataTypes.RoundTrip.Numbers.{encode_unsigned, encode_byte}
use pycomm.Paths.Segments.{
  table_get, logical_types, LogicalValue, symbol, logical_number, logical_bytes, encode_logical,
  encode_data, pad_even,
}
use pycomm.Paths.Reader.{Item, object, read_item}

head_table : holds_below 32 (λ x. bit_or (bit_or 32 (x / 4 * 4)) (x % 4) == 32 + x) ≡ true
unfolding holds_below
head_table = refl

-- The first byte of a logical segment: three fields side by side.
head-eq : (t f : ℕ) → t < 32 → t % 4 ≡ 0 → f < 4 → bit_or (bit_or 32 t) f ≡ 32 + (t + f)
head-eq t f ht h4 hf =
    let x : (t + f) / 4 * 4 ≡ t = omega arith in
    let y : (t + f) % 4 ≡ f = omega arith in
    rw (x, y) at ((==_iff _ _).0 (holds_below-at 32 _ head_table (t + f) (omega arith)))

logical_types-code :
    (name : Text) (t : ℕ) → table_get logical_types name ≡ some t → (t < 32) × (t % 4 ≡ 0)
unfolding table_get
logical_types-code name t h = ground arith

-- One, two and four bytes of value, the latter two behind a pad.
module _ (t : ℕ) (ht : t < 32) (h4 : t % 4 ≡ 0) (rest : Bytes) where
  read_one :
      (x : ℕ) → read_item ((32 + (t + 0)) ∷ x ∷ rest) ≡ some (object (t / 4) (of_le (x ∷ [])), rest)
  unfolding read_item
  read_one x = ground arith

  read_two :
      (x y : ℕ)
      → read_item ((32 + (t + 1)) ∷ 0 ∷ x ∷ y ∷ rest)
        ≡ some (object (t / 4) (of_le (x ∷ y ∷ [])), rest)
  unfolding read_item
  read_two x y = ground arith

  read_four :
      (x y z w : ℕ)
      → read_item ((32 + (t + 3)) ∷ 0 ∷ x ∷ y ∷ z ∷ w ∷ rest)
        ≡ some (object (t / 4) (of_le (x ∷ y ∷ z ∷ w ∷ [])), rest)
  unfolding read_item
  read_four x y z w = ground arith

-- A segment's bytes: even in number, and read back to an item whatever follows.
abbrev pub ReadsBack : Result Bytes → Item → Type 0
ReadsBack r i =
    (b : Bytes) × (r ≡ ok b)
    × (length b % 2 ≡ 0)
    × ((rest : Bytes) → read_item (b ++ rest) ≡ some (i, rest))

-- The lengths that the table of formats has.
abbrev pub IsWidth : Bytes → Type 0
IsWidth (x ∷ []) = Unit
IsWidth (x ∷ y ∷ []) = Unit
IsWidth (x ∷ y ∷ z ∷ w ∷ []) = Unit
IsWidth _ = ⊥

pub logical-reads :
    (lv : LogicalValue) (name : Text) (t : ℕ) (v : Bytes)
    → table_get logical_types name ≡ some t
    → logical_bytes lv ≡ ok v
    → IsWidth v
    → ReadsBack (encode_logical lv name true) (object (t / 4) (of_le v))
unfolding encode_logical
logical-reads lv name t (x ∷ []) ht hv w =
    let (small, low) = logical_types-code name t ht in
    (
      (32 + (t + 0)) ∷ x ∷ [],
      rw (ht, hv) (ap (λ h. ok (h ∷ x ∷ [])) (head-eq t 0 small low (omega arith))),
      refl,
      λ rest. read_one t small low rest x,
    )
logical-reads lv name t (x ∷ y ∷ []) ht hv w =
    let (small, low) = logical_types-code name t ht in
    (
      (32 + (t + 1)) ∷ 0 ∷ x ∷ y ∷ [],
      rw (ht, hv) (ap (λ h. ok (h ∷ 0 ∷ x ∷ y ∷ [])) (head-eq t 1 small low (omega arith))),
      refl,
      λ rest. read_two t small low rest x y,
    )
logical-reads lv name t (x ∷ y ∷ z ∷ u ∷ []) ht hv w =
    let (small, low) = logical_types-code name t ht in
    (
      (32 + (t + 3)) ∷ 0 ∷ x ∷ y ∷ z ∷ u ∷ [],
      rw (ht, hv) (ap (λ h. ok (h ∷ 0 ∷ x ∷ y ∷ z ∷ u ∷ [])) (head-eq t 3 small low (omega arith))),
      refl,
      λ rest. read_four t small low rest x y z u,
    )
logical-reads lv name t v ht hv w = elim w [ ]

-- A number of 32 bits takes a width that the table has, and stands for itself.
pub number_bytes :
    (n : ℕ) → n < 2 ^ 32 → (v : Bytes) × (logical_number (pos n) ≡ ok v) × IsWidth v × (of_le v ≡ n)
unfolding logical_number
number_bytes n h =
    let enc = encode_unsigned n in
    elim (dec_lt n 256) [
      | yes a ↦ (
        le_bytes 1 n,
        rw (le→leb n 0xFF (omega arith)) (enc.0 a),
        unfold le_bytes in tt,
        of_le-le_bytes 1 n a,
      )
      | no a ↦ elim (dec_lt n 65536) [
        | yes b ↦ (
          le_bytes 2 n,
          rw (gt→leb n 0xFF (omega arith), le→leb n 0xFFFF (omega arith)) (enc.1 b),
          unfold le_bytes in tt,
          of_le-le_bytes 2 n b,
        )
        | no b ↦ (
          le_bytes 4 n,
          rw
              (
                gt→leb n 0xFF (omega arith),
                gt→leb n 0xFFFF (omega arith),
                le→leb n 0xFFFF_FFFF (omega arith),
              )
              (enc.2 h),
          unfold le_bytes in tt,
          of_le-le_bytes 4 n h,
        )
      ]
    ]

-- The characters, and the pad byte that makes an odd number of them even.
pub pad_even-reads :
    (chars rest : Bytes)
    → (length (pad_even chars) % 2 ≡ 0)
      × (take (length chars) (pad_even chars ++ rest) ≡ chars)
      × (drop (length chars + length chars % 2) (pad_even chars ++ rest) ≡ rest)
pad_even-reads chars rest = elim (Bool-cases (length chars % 2 == 0)) [
  | inl even ↦
      let zero_left : length chars % 2 ≡ 0 = ground arith in
      rw even (
        zero_left,
        take-append (length chars) chars rest refl,
        rw (zero_left, add-zero) (drop-append (length chars) chars rest refl),
      )
  | inr odd ↦
      let one_left : length chars % 2 ≡ 1 = ground arith in
      let longer = length-append chars (0 ∷ []) in
      rw odd (
        omega (arith, longer),
        rw (append_assoc chars (0 ∷ []) rest) (take-append (length chars) chars (0 ∷ rest) refl),
        rw one_left
            (drop-append (length chars + 1) (chars ++ (0 ∷ [])) rest (omega (arith, longer))),
      )
]

pub symbol-reads :
    (s : Text) (chars : Bytes)
    → utf8 s ≡ ok chars
    → length chars < 256
    → ReadsBack (encode_data (symbol s)) (Item.symbol chars)
unfolding encode_data
symbol-reads s chars hs h = (
  0x91 ∷ length chars ∷ pad_even chars,
  rw (hs, encode_byte (bit_or 0b10000000 0b00010001) (omega arith), encode_byte (length chars) h),
  (let even = (pad_even-reads chars []).0 in omega arith),
  λ rest. let (_, t, d) = pad_even-reads chars rest in unfold read_item in rw (t, d),
)
