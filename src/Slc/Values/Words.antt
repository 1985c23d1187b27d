-- ===== src/Slc/Values/Words.antt =====
-- Whole words that are written, as they are read.
use pycomm.Base.{
  ℕ, zero, suc, ◌*◌, ◌<◌, ◌≤◌, ◌≡◌, refl, sym, ap, ◌∙◌, arith, false, List, [], ◌∷◌, ◌++◌, Option,
  some, ltb, if-false, if-true, Bytes, append-nil, length, length-append, take-append, drop-append,
  All, Result, ok, raise_as, request_error, response_error, ◌>>=◌, lt→ltb,
}
use pycomm.Base.Ints.{ℤ}
use pycomm.DataTypes.Integers.{IntType, size, is_signed, InRange, unpack_int-pack_int}
use pycomm.DataTypes.Types.{Typ}
use pycomm.DataTypes.Value.{Value, Values, int, list, nil, cons, count, iterate, take_values}
use pycomm.DataTypes.Encode.{encode, pack_value}
use pycomm.DataTypes.Decode.{decode, decode_int}
use pycomm.DataTypes.RoundTrip.Leaves.{stream_read-append}
use pycomm.Slc.Files.{data_size}
use pycomm.Slc.Addresses.{Address}
use pycomm.Slc.Values.{
  Format, number, format, is_bit, pack_func, pack_all, many_values, one_value, under_mask,
  writeable_value, elements_of, unpack_func, unpack_all, first_values, as_value, read_words,
  parse_read_reply,
}

abbrev pub ints : List ℤ → Values
ints [] = nil
ints (z ∷ zs) = cons (int z) (ints zs)

-- What is given for the values of an address: one value, or a list.
abbrev pub given : List ℤ → Value
given (z ∷ []) = int z
given zs = list (ints zs)

size_pos : (t : IntType) → 0 < size t
size_pos IntType.sint = omega arith
size_pos t = omega arith

le-size : (t : IntType) (n : ℕ) → n ≤ size t * n
le-size IntType.sint n = omega arith
le-size t n = omega arith

-- An element has the size of its type, and is read back.
element :
    (t : IntType) (z : ℤ)
    → InRange (is_signed t) (size t) z
    → (b : Bytes) × (encode (Typ.int t) (int z) ≡ ok b)
      × (length b ≡ size t)
      × ((decode (Typ.int t) b).0 ≡ ok (int z))
unfolding encode decode pack_value decode_int
element t z h =
    let (b, packed, len, unpacked) = unpack_int-pack_int (is_signed t) (size t) z h in
    let whole = stream_read-append (size t) b [] (size_pos t) len in
    (b, rw packed refl, len, rw (rw (append-nil b) at whole, unpacked) refl)

count-ints : (zs : List ℤ) → count (ints zs) ≡ length zs
unfolding count
count-ints [] = refl
count-ints (z ∷ zs) = ap suc (count-ints zs)

take_values-ints : (zs : List ℤ) → take_values (length zs) (ints zs) ≡ ints zs
unfolding take_values
take_values-ints [] = refl
take_values-ints (z ∷ zs) = ap (cons (int z)) (take_values-ints zs)

first_values-all : (zs : List ℤ) → first_values (length zs) (list (ints zs)) ≡ ok (ints zs)
unfolding iterate
first_values-all zs = ground (arith, count-ints zs, take_values-ints zs)

module _ (pack_real : Value → Result Bytes) (unpack_real : Bytes → Result Value) where
  unpack_all-append :
      (fuel : ℕ) (t : Option Format) (b rest : Bytes)
      → 0 < length b
      → unpack_all pack_real unpack_real (suc fuel) (length b) t (b ++ rest) ≡ (
          unpack_func pack_real unpack_real t b >>= λ v.
          unpack_all pack_real unpack_real fuel (length b) t rest >>= λ vs. ok (cons v vs))
  unfolding unpack_all
  unpack_all-append fuel t [] rest h = absurd (omega arith)
  unpack_all-append fuel t (x ∷ xs) rest h =
      rw
        (
          take-append (length (x ∷ xs)) (x ∷ xs) rest refl,
          drop-append (length (x ∷ xs)) (x ∷ xs) rest refl,
        )
        refl

  unpack_none :
      (fuel n : ℕ) (t : Option Format) → unpack_all pack_real unpack_real fuel n t [] ≡ ok nil
  unfolding unpack_all
  unpack_none zero n t = refl
  unpack_none (suc fuel) n t = refl

  unpack_more :
      (fuel n : ℕ) (t : IntType) (b rest : Bytes) (v : Value) (vs : Values)
      → length b ≡ size t
      → (decode (Typ.int t) b).0 ≡ ok v
      → ((f : ℕ)
          → n ≤ f
          → unpack_all pack_real unpack_real f (size t) (some (number t)) rest ≡ ok vs)
      → suc n ≤ fuel
      → unpack_all pack_real unpack_real fuel (size t) (some (number t)) (b ++ rest)
        ≡ ok (cons v vs)
  unfolding unpack_func
  unpack_more zero n t b rest v vs len back more le = absurd (omega arith)
  unpack_more (suc fuel) n t b rest v vs len back more le =
      let whole =
        unpack_all-append fuel (some (number t)) b rest (omega (arith, len, size_pos t)) in
      rw (len, back, more fuel (omega arith)) at whole

  elements :
      (t : IntType) (zs : List ℤ)
      → All (InRange (is_signed t) (size t)) zs
      → (b : Bytes) × (pack_all pack_real unpack_real (some (number t)) (ints zs) ≡ ok b)
        × (length b ≡ size t * length zs)
        × ((fuel : ℕ)
            → length zs ≤ fuel
            → unpack_all pack_real unpack_real fuel (size t) (some (number t)) b ≡ ok (ints zs))
  unfolding pack_all pack_func
  elements t [] h = ([], refl, omega arith, λ fuel le. unpack_none fuel (size t) (some (number t)))
  elements t (z ∷ zs) (h, hs) =
      let (b, e, len, back) = element t z h in
      let (bs, es, lens, backs) = elements t zs hs in
      (
        b ++ bs,
        rw (e, es) refl,
        omega (arith, length-append b bs, len, lens),
        λ fuel le. unpack_more fuel (length zs) t b bs (int z) (ints zs) len back backs le,
      )

  written_one :
      (a : Address) (t : IntType) (z : ℤ) (b : Bytes)
      → is_bit a ≡ false
      → a.element_count ≡ 1
      → format a.file_type ≡ some (number t)
      → encode (Typ.int t) (int z) ≡ ok b
      → writeable_value pack_real unpack_real a (int z) ≡ ok (0xFF ∷ 0xFF ∷ b)
  unfolding writeable_value under_mask one_value pack_func
  written_one a t z b bit e f w =
      ap (λ m. m >>= under_mask pack_real unpack_real a (int z)) (if-false (is_bit a) _ _ bit)
      ∙ if-false (ltb 1 (elements_of a)) _ _ (ground (arith, e))
      ∙ ap (raise_as request_error) (if-false (is_bit a) _ _ bit)
      ∙ ap
          (λ o.
            raise_as request_error
              (pack_func pack_real unpack_real o (int z) >>= λ b. ok (0xFF ∷ 0xFF ∷ b)))
          f
      ∙ ap (λ r. raise_as request_error (r >>= λ b. ok (0xFF ∷ 0xFF ∷ b))) w

  abbrev many_under : Address → Values → Result Bytes
  many_under a vs =
      raise_as request_error (many_values pack_real unpack_real a (0xFF ∷ 0xFF ∷ []) vs)

  written_many :
      (a : Address) (t : IntType) (zs : List ℤ) (b : Bytes)
      → is_bit a ≡ false
      → a.element_count ≡ length zs
      → 1 < length zs
      → format a.file_type ≡ some (number t)
      → pack_all pack_real unpack_real (some (number t)) (ints zs) ≡ ok b
      → writeable_value pack_real unpack_real a (list (ints zs)) ≡ ok (0xFF ∷ 0xFF ∷ b)
  unfolding writeable_value under_mask many_values
  written_many a t zs b bit e more f w =
      let n : elements_of a ≡ length zs = ground (arith, e) in
      ap (λ m. m >>= under_mask pack_real unpack_real a (list (ints zs)))
        (if-false (is_bit a) _ _ bit)
      ∙ if-true (ltb 1 (elements_of a)) _ _ (lt→ltb 1 (elements_of a) (omega (arith, n)))
      ∙ ap (λ k. first_values k (list (ints zs)) >>= many_under a) n
      ∙ ap (λ r. r >>= many_under a) (first_values-all zs)
      ∙ ap
          (λ o.
            raise_as request_error
              (pack_all pack_real unpack_real o (ints zs) >>= λ b. ok (0xFF ∷ 0xFF ∷ b)))
          f
      ∙ ap (λ r. raise_as request_error (r >>= λ b. ok (0xFF ∷ 0xFF ∷ b))) w

  read_back :
      (a : Address) (t : IntType) (vs : Values) (v : Value) (n : ℕ) (b : Bytes)
      → is_bit a ≡ false
      → format a.file_type ≡ some (number t)
      → data_size a.file_type ≡ size t
      → ((fuel : ℕ)
          → n ≤ fuel
          → unpack_all pack_real unpack_real fuel (size t) (some (number t)) b ≡ ok vs)
      → n ≤ length b
      → as_value vs ≡ ok v
      → parse_read_reply pack_real unpack_real a b ≡ ok v
  unfolding parse_read_reply read_words
  read_back a t vs v n b bit f d back le one =
      ap (raise_as response_error) (if-false (is_bit a) _ _ bit)
      ∙ ap
          (λ s.
            raise_as response_error
              (unpack_all pack_real unpack_real (length b) s (format a.file_type) b >>= as_value))
          d
      ∙ ap
          (λ o.
            raise_as response_error
              (unpack_all pack_real unpack_real (length b) (size t) o b >>= as_value))
          f
      ∙ ap (λ r. raise_as response_error (r >>= as_value)) (back (length b) le)
      ∙ ap (raise_as response_error) one

  -- A word address without a bit, whose type's elements have the size of its data: as many integers as the address
  -- counts, all in the type's range, are written under the full mask in as many elements, and the
  -- reply with these elements is parsed to what was given.
  pub parse_read_reply-writeable_value :
      (a : Address) (t : IntType) (zs : List ℤ)
      → is_bit a ≡ false
      → format a.file_type ≡ some (number t)
      → data_size a.file_type ≡ size t
      → 0 < length zs
      → a.element_count ≡ length zs
      → All (InRange (is_signed t) (size t)) zs
      → (b : Bytes) × (writeable_value pack_real unpack_real a (given zs) ≡ ok (0xFF ∷ 0xFF ∷ b))
        × (length b ≡ data_size a.file_type * length zs)
        × (parse_read_reply pack_real unpack_real a b ≡ ok (given zs))
  parse_read_reply-writeable_value a t [] bit f d h e hs = absurd (omega arith)
  parse_read_reply-writeable_value a t (z ∷ []) bit f d h e hs =
      let (b, w, len, back) = element t z hs.0 in
      (
        b,
        written_one a t z b bit e f w,
        omega (arith, len, d),
        read_back a t (ints (z ∷ [])) (int z) 1 b bit f d
            (λ fuel le. rw (append-nil b) at (
              unpack_more fuel 0 t b [] (int z) nil len back
                (λ f _. unpack_none f (size t) (some (number t))) le))
            (omega (arith, len, size_pos t)) refl,
      )
  parse_read_reply-writeable_value a t (z ∷ y ∷ zs) bit f d h e hs =
      let (b, w, len, back) = elements t (z ∷ y ∷ zs) hs in
      (
        b,
        written_many a t (z ∷ y ∷ zs) b bit e (omega arith) f w,
        (len ∙ ap (λ k. k * length (z ∷ y ∷ zs)) (sym d)),
        read_back a t (ints (z ∷ y ∷ zs)) (given (z ∷ y ∷ zs)) (length (z ∷ y ∷ zs)) b bit f d back
            (omega (arith, len, le-size t (length (z ∷ y ∷ zs)))) refl,
      )
