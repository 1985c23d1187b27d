-- ===== src/Paths/ReadBack/Hops.antt =====
-- Port segments of pycomm3/cip/data_types.py, as the reader sees them.
use pycomm.Base.{
  lt→ltb, ltb, suc, ℕ, ◌+◌, ◌⊎◌, ◌/◌, ◌%◌, ◌<◌, ◌≡◌, refl, ap, arith, Bool, true, false, bit_or, [],
  ◌∷◌, some, ◌==◌, ==_iff, Text, Bytes, length, ok, Bool-cases, inl, inr,
}
use pycomm.Base.Ints.{pos}
use pycomm.Base.Bits.{holds_below, holds_below-at}
use pycomm.Base.Strings.{utf8, is_digit, int_of}
use pycomm.DataTypes.RoundTrip.Numbers.{encode_byte}
use pycomm.Paths.Segments.{
  table_get, port_segments, Port, Link, address, port_number, link_bytes, encode_port, pad_even,
}
use pycomm.Paths.Reader.{hop, read_item}
use pycomm.Paths.ReadBack.Items.{ReadsBack, pad_even-reads}

extended_head : holds_below 16 (λ p. bit_or p 16 == 16 + p) ≡ true
unfolding holds_below
extended_head = refl

-- A number, or the name of a port.
abbrev pub IsPort : Port → ℕ → Type 0
IsPort (Port.number z) p = z ≡ pos p
IsPort (Port.name s) p = table_get port_segments s ≡ some p

-- A number of one byte, the bytes themselves, or a text: of digits, for such a number, or an address.
abbrev pub IsLink : (Text → Bool) → Link → Bytes → Type 0
IsLink is_ip_address (Link.number z) bs = (n : ℕ) × (z ≡ pos n) × (n < 256) × (bs ≡ n ∷ [])
IsLink is_ip_address (Link.raw raw) bs = raw ≡ bs
IsLink is_ip_address (address s) bs =
    ((is_digit s ≡ true) × ((n : ℕ) × (int_of s ≡ ok (pos n)) × (n < 256) × (bs ≡ n ∷ [])))
    ⊎ ((is_digit s ≡ false) × (is_ip_address s ≡ true) × (utf8 s ≡ ok bs))

pub port-number :
    (is_ip_address : Text → Bool) (p : Port) (n : ℕ)
    → IsPort p n
    → port_number is_ip_address p ≡ ok (pos n)
unfolding port_number
port-number is_ip_address (Port.number z) n h = ap ok h
port-number is_ip_address (Port.name s) n h = rw h refl

pub link-bytes :
    (is_ip_address : Text → Bool) (l : Link) (bs : Bytes)
    → IsLink is_ip_address l bs
    → link_bytes is_ip_address l ≡ ok bs
unfolding link_bytes
link-bytes is_ip_address (Link.number z) bs (n, e, small, same) = rw (e, same) (encode_byte n small)
link-bytes is_ip_address (Link.raw raw) bs h = ap ok h
link-bytes is_ip_address (address s) bs (inl (digits, (n, e, small, same))) =
    rw (digits, e, same) (encode_byte n small)
link-bytes is_ip_address (address s) bs (inr (digits, is, e)) = rw (digits, is, e) refl

pad_even-cons : (a b : ℕ) (bs : Bytes) → pad_even (a ∷ b ∷ bs) ≡ a ∷ b ∷ pad_even bs
pad_even-cons a b bs = elim (Bool-cases (length bs % 2 == 0)) [
  | inl even ↦
      let longer : (suc (suc (length bs)) % 2 == 0) ≡ true = ground arith in rw (even, longer) refl
  | inr odd ↦
      let longer : (suc (suc (length bs)) % 2 == 0) ≡ false = ground arith in rw (odd, longer) refl
]

module _ (is_ip_address : Text → Bool) (p : Port) (l : Link) (n : ℕ) (hn : n < 16)
    (hp : port_number is_ip_address p ≡ ok (pos n)) where
  pub one_byte_link :
      (b : ℕ)
      → link_bytes is_ip_address l ≡ ok (b ∷ [])
      → ReadsBack (encode_port is_ip_address p l) (hop n (b ∷ []))
  unfolding encode_port
  one_byte_link b hl = (
    n ∷ b ∷ [],
    rw (hp, hl) (rw (encode_byte n (omega arith)) refl),
    refl,
    λ rest. unfold read_item in ground arith,
  )

  pub long_link :
      (b c : ℕ) (bs : Bytes)
      → link_bytes is_ip_address l ≡ ok (b ∷ c ∷ bs)
      → length (b ∷ c ∷ bs) < 256
      → ReadsBack (encode_port is_ip_address p l) (hop n (b ∷ c ∷ bs))
  unfolding encode_port
  long_link b c bs hl short =
      let link : Bytes = b ∷ c ∷ bs in
      let wide : ltb 1 (length link) ≡ true = lt→ltb 1 (length link) (omega arith) in
      let head : bit_or n 16 ≡ 16 + n = (==_iff _ _).0 (holds_below-at 16 _ extended_head n hn) in
      (
        (16 + n) ∷ length link ∷ pad_even link,
        rw (hp, hl)
            (rw (wide, head, encode_byte (16 + n) (omega arith), encode_byte (length link) short)
              (ap ok (pad_even-cons (16 + n) (length link) link))),
        (let even = (pad_even-reads link []).0 in omega arith),
        λ rest.
            let (_, t, d) = pad_even-reads link rest in
            unfold read_item in
            (let low : (16 + n) / 32 == 1 ≡ false = ground arith in
              let ext : (16 + n) / 16 == 1 ≡ true = ground arith in
              let num : (16 + n) % 16 ≡ n = omega arith in rw (low, ext, num, t, d) refl),
      )
