-- ===== src/DataTypes/RoundTrip/Leaves.antt =====
-- Round trips of the types with no parts, and of a row of items.
use pycomm.Base.{
  ℕ, zero, suc, ◌<◌, ◌≡◌, refl, arith, [], ◌∷◌, ◌++◌, append_assoc, append-nil, ◌^◌, take_all, Bool,
  true, false, some, Text, Bytes, length, take-append, drop-append, All, Result, ok, lt→ltb,
}
use pycomm.Base.Ints.{ℤ, pos}
use pycomm.DataTypes.Integers.{IntType, size, is_signed, InRange, IsByte, unpack_int-pack_int}
use pycomm.DataTypes.Types.{StringType, len_type, Typ, logix_string}
use pycomm.DataTypes.Value.{Value, Values, int, str, bytes, nil, cons, count, truthy}
use pycomm.DataTypes.Encode.{
  encode, encode_int, encode_string, encode_bytes, encode_first, latin1, pack_value,
}
use pycomm.DataTypes.Stream.{Decoder, stream_read}
use pycomm.DataTypes.Decode.{
  decode, decode_int, decode_string, decode_first, decode_bool, decode_n_bytes,
}

-- `enc` writes bytes for `v` from which `dec` reads `v` back, and leaves what follows them.
abbrev pub Trip {ℓ} : {A : Type ℓ} → (A → Result Bytes) → Decoder A → A → Type ℓ
Trip enc dec v = (b : Bytes) × (enc v ≡ ok b) × ((rest : Bytes) → dec (b ++ rest) ≡ (ok v, rest))

pub stream_read-append :
    (n : ℕ) (bs rest : Bytes)
    → 0 < n
    → length bs ≡ n
    → stream_read (some n) (bs ++ rest) ≡ (ok bs, rest)
unfolding stream_read
stream_read-append zero bs rest h e = absurd (omega arith)
stream_read-append (suc n) [] rest h e = absurd (omega arith)
stream_read-append (suc n) (b ∷ bs) rest h e =
    ground (arith, take-append n bs rest (omega arith), drop-append n bs rest (omega arith))

pub size_pos : (t : IntType) → 0 < size t
size_pos IntType.sint = omega arith
size_pos t = omega arith

-- Every integer type reads back each integer of its range.
pub encode_int-Trip :
    (t : IntType) (z : ℤ) → InRange (is_signed t) (size t) z → Trip (encode_int t) (decode_int t) z
unfolding encode_int decode_int
encode_int-Trip t z h =
    let (b, packed, len, unpacked) = unpack_int-pack_int (is_signed t) (size t) z h in
    (b, rw packed, λ rest. rw (stream_read-append (size t) b rest (size_pos t) len, unpacked))

pub int-Trip :
    (t : IntType) (z : ℤ)
    → InRange (is_signed t) (size t) z
    → Trip (encode (Typ.int t)) (decode (Typ.int t)) (int z)
unfolding encode decode encode_int pack_value
int-Trip t z h = let (b, e, d) = encode_int-Trip t z h in (b, e, λ rest. rw (d rest))

pub bool-Trip : (b : Bool) → Trip (encode Typ.bool) (decode Typ.bool) (Value.bool b)
unfolding encode decode decode_bool truthy stream_read
bool-Trip true = (0xFF ∷ [], refl, λ rest. refl)
bool-Trip false = (0 ∷ [], refl, λ rest. refl)

pub latin1-eq : (s : Text) → All IsByte s → latin1 s ≡ ok s
unfolding latin1
latin1-eq [] h = refl
latin1-eq (c ∷ cs) h = rw (latin1-eq cs h.1, lt→ltb c 256 h.0)

-- The characters of a text fit one byte, and their number fits the prefix.
abbrev pub FitsString : StringType → Text → Type 0
FitsString t s = All IsByte s × (length s < 256 ^ size (len_type t))

len_InRange :
    (t : StringType) (n : ℕ)
    → n < 256 ^ size (len_type t)
    → InRange (is_signed (len_type t)) (size (len_type t)) (pos n)
len_InRange logix_string n h = h
len_InRange t n h = h

pub string-Trip :
    (t : StringType) (s : Text)
    → FitsString t s
    → Trip (encode (Typ.string t)) (decode (Typ.string t)) (str s)
unfolding encode decode encode_string decode_string latin1
string-Trip t [] h =
    let (p, e, d) = encode_int-Trip (len_type t) (pos 0) (len_InRange t 0 h.1) in
    (p ++ [], rw e, λ rest. rw (append-nil, d rest))
string-Trip t (c ∷ cs) h =
    let s : Text = c ∷ cs in
    let (p, e, d) = encode_int-Trip (len_type t) (pos (length s)) (len_InRange t (length s) h.1) in
    (
      p ++ s,
      rw (e, latin1-eq s h.0),
      λ rest. rw (
        append_assoc p s rest,
        d (s ++ rest),
        stream_read-append (length s) s rest (omega arith) refl,
      ),
    )

pub n_bytes-Trip :
    (n : ℕ) (bs : Bytes)
    → 0 < n
    → length bs ≡ n
    → Trip (encode (Typ.n_bytes (some n))) (decode (Typ.n_bytes (some n))) (bytes bs)
unfolding encode decode encode_bytes decode_n_bytes
n_bytes-Trip n bs h e =
    (bs, rw (take_all n bs (omega arith)), λ rest. rw (stream_read-append n bs rest h e))

-- A row of items, each with its round trip.
abbrev pub AllValues {ℓ} : (Value → Type ℓ) → Values → Type ℓ
AllValues P nil = Unit
AllValues P (cons v vs) = P v × AllValues P vs

module _ (enc : Value → Result Bytes) (dec : Decoder Value) (P : Value → Type 0)
    (trip : (v : Value) → P v → Trip enc dec v) where
  pub items-Trip :
      (vs : Values)
      → AllValues P vs
      → Trip (encode_first (count vs) enc) (decode_first (count vs) dec) vs
  unfolding encode_first decode_first count
  items-Trip nil h = ([], refl, λ rest. refl)
  items-Trip (cons v vs) h =
      let (b, e, d) = trip v h.0 in
      let (bs, es, ds) = items-Trip vs h.1 in
      (b ++ bs, rw (e, es), λ rest. rw (append_assoc b bs rest, d (bs ++ rest), ds rest))
