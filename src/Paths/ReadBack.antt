-- ===== src/Paths/ReadBack.antt =====
-- The paths that the encoders of pycomm3/cip/data_types.py write, as the reader sees them.
pub mod Items
pub mod Hops
use pycomm.Base.{
  if◌then◌else◌, lt→ltb, ltb, suc, ℕ, ◌+◌, ◌*◌, ◌⊎◌, ◌/◌, ◌%◌, ◌^◌, ◌<◌, ◌≡◌, refl, ap, ◌∙◌, arith,
  Bool, true, false, bit_or, List, [], ◌∷◌, ◌++◌, append_assoc, some, ◌==◌, ==_iff, Text, Bytes,
  length, length-append, take, drop, take-append, drop-append, Result, ok, err, Bool-cases, inl,
  inr, data_error, le→leb, gt→leb,
}
use native.Mathlib.Nat.{add-zero}
use native.Mathlib.Decide.{dec_lt}
use pycomm.Base.Ints.{pos}
use pycomm.Base.Bits.{holds_below, holds_below-at}
use pycomm.Base.Strings.{utf8, is_digit, int_of}
use pycomm.DataTypes.Integers.{of_le, le_bytes, of_le-le_bytes}
use pycomm.DataTypes.RoundTrip.Numbers.{encode_unsigned, encode_byte, encode_byte_wide, one_byte}
use pycomm.Paths.Segments.{
  table_get, logical_types, port_segments, Port, Link, address, port, port_number, link_bytes,
  encode_port, LogicalValue, symbol, Segment, logical, data_segment, logical_number, logical_bytes,
  encode_logical, encode_data, pad_even, encode_segment, encode_segments, encode_path,
}
use pycomm.Paths.Reader.{Item, hop, object, read_item, read_items}
use pycomm.Paths.ReadBack.Items.{ReadsBack, logical-reads, number_bytes, symbol-reads}
use pycomm.Paths.ReadBack.Hops.{IsPort, IsLink, port-number, link-bytes, one_byte_link, long_link}

-- The item that a segment stands for: of a port segment a port below 15 and a link address of 1 to 255 bytes, of
-- a logical segment a known type and a number of 32 bits, given as an `int`, or one byte, and of a
-- data segment a name of less than 256 bytes.
abbrev pub Denotes : (Text → Bool) → Segment → Item → Type 0
Denotes is_ip_address (port p l) (hop n bs) =
    IsPort p n × IsLink is_ip_address l bs × (n < 15) × (0 < length bs) × (length bs < 256)
Denotes is_ip_address (logical (LogicalValue.number (pos n)) name) (object k m) =
    (t : ℕ) × (table_get logical_types name ≡ some t) × (t / 4 ≡ k) × (n ≡ m) × (n < 2 ^ 32)
Denotes is_ip_address (logical (LogicalValue.raw (x ∷ [])) name) (object k m) =
    (t : ℕ) × (table_get logical_types name ≡ some t) × (t / 4 ≡ k) × (x ≡ m)
Denotes is_ip_address (data_segment (symbol s)) (Item.symbol chars) =
    (utf8 s ≡ ok chars) × (length chars < 256)
Denotes is_ip_address _ _ = ⊥

abbrev pub AllDenote : (Text → Bool) → List Segment → List Item → Type 0
AllDenote is_ip_address [] [] = Unit
AllDenote is_ip_address (s ∷ ss) (i ∷ is) =
    Denotes is_ip_address s i × AllDenote is_ip_address ss is
AllDenote is_ip_address _ _ = ⊥

read_items_step :
    (n : ℕ) (bs rest : Bytes) (i : Item) (is : List Item)
    → read_item bs ≡ some (i, rest)
    → read_items n rest ≡ some is
    → read_items (suc n) bs ≡ some (i ∷ is)
unfolding read_items
read_items_step n bs rest i is one others = cc (one, others)

module _ (is_ip_address : Text → Bool) where
  segment-reads :
      (s : Segment) (i : Item)
      → Denotes is_ip_address s i
      → ReadsBack (encode_segment is_ip_address s true) i
  unfolding encode_segment
  segment-reads (port p l) (hop n (b ∷ [])) (hp, hl, hn, some_bytes, short) =
      let (bytes, r, even, back) =
        one_byte_link is_ip_address p l n (omega arith) (port-number is_ip_address p n hp) b
          (link-bytes is_ip_address l (b ∷ []) hl) in
      (bytes, rw r, even, back)
  segment-reads (port p l) (hop n (b ∷ c ∷ bs)) (hp, hl, hn, some_bytes, short) =
      let (bytes, r, even, back) =
        long_link is_ip_address p l n (omega arith) (port-number is_ip_address p n hp) b c bs
          (link-bytes is_ip_address l (b ∷ c ∷ bs) hl) short in
      (bytes, rw r, even, back)
  segment-reads (port p l) (hop n []) (hp, hl, hn, some_bytes, short) = absurd (omega arith)
  segment-reads (logical (LogicalValue.number (pos n)) name) (object k m) (t, ht, hk, hm, h) =
      let (v, e, w, o) = number_bytes n h in
      let (b, r, even, back) =
        logical-reads (LogicalValue.number (pos n)) name t v ht (unfold logical_bytes in e) w in
      (b, rw r, even, λ rest. rw (← hk, ← hm, ← o) (back rest))
  segment-reads (logical (LogicalValue.raw (x ∷ [])) name) (object k m) (t, ht, hk, hm) =
      let (b, r, even, back) =
        logical-reads (LogicalValue.raw (x ∷ [])) name t (x ∷ []) ht (unfold logical_bytes in refl)
          tt in
      (
        b,
        rw r,
        even,
        λ rest. rw (← hk, ← hm) (back rest ∙ ap (λ z. some (object (t / 4) z, rest)) (one_byte x)),
      )
  segment-reads (data_segment (symbol s)) (Item.symbol chars) h =
      let (b, r, even, back) = symbol-reads s chars h.0 h.1 in (b, rw r, even, back)
  segment-reads s i h = elim h [ ]

  segments-read :
      (ss : List Segment) (is : List Item)
      → AllDenote is_ip_address ss is
      → (body : Bytes) × (encode_segments is_ip_address true ss ≡ ok body)
        × (length body % 2 ≡ 0)
        × (read_items (length is) body ≡ some is)
  unfolding encode_segments read_items
  segments-read [] [] h = ([], refl, refl, refl)
  segments-read [] (i ∷ is) h = elim h [ ]
  segments-read (s ∷ ss) [] h = elim h [ ]
  segments-read (s ∷ ss) (i ∷ is) h =
      let (b, e, even, back) = segment-reads s i h.0 in
      let (bs, es, evens, backs) = segments-read ss is h.1 in
      (
        b ++ bs,
        rw (e, es),
        omega (arith, length-append b bs, even, evens),
        read_items_step (length is) (b ++ bs) bs i is (back bs) backs,
      )

  -- A padded path of segments that stand for items is an even number of bytes, from which the
  -- reader gets exactly those items: hops, objects and symbols, where a number of more than 16 bits is written with
  -- four bytes for every logical type, though pycomm3/cip/data_types.py notes that these are only valid for
  -- instance ids and connection points. With its length in front, the path has one more byte, half the
  -- number of the others; from 512 bytes on that does not fit, and `encode` raises DataError.
  pub encode_path-reads :
      (ss : List Segment) (is : List Item)
      → AllDenote is_ip_address ss is
      → (body : Bytes) × (read_items (length is) body ≡ some is)
        × (length body ≡ 2 * (length body / 2))
        × (encode_path is_ip_address true ss true false
            ≡ (if ltb (length body) 512 then ok ((length body / 2) ∷ body) else err data_error))
  unfolding encode_path
  encode_path-reads ss is h =
      let (body, e, even, back) = segments-read ss is h in
      (
        body,
        back,
        omega (arith, even),
        elim (Bool-cases (ltb (length body) 512)) [
          | inl h ↦ rw (e, h, encode_byte (length body / 2) (ground arith)) refl
          | inr h ↦ rw (e, h, encode_byte_wide (length body / 2) (ground (arith, even))) refl
        ],
      )
