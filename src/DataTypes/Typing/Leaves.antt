-- ===== src/DataTypes/Typing/Leaves.antt =====
-- The types with no parts: what they decode has its type.
use pycomm.Base.{
  Option, other_error, ℕ, zero, suc, ◌*◌, ◌/◌, ◌%◌, ◌^◌, ◌<◌, ◌≤◌, ◌≡◌, refl, ◌∙◌, ap, subst, arith,
  Bool, true, false, List, [], ◌∷◌, some, ◌==◌, ltb, Bytes, length, All, Result, ok, err,
  Bool-cases, inl, inr,
}
use pycomm.Base.Ints.{ℤ, pos, negsuc}
use pycomm.DataTypes.Integers.{
  IntType, size, is_signed, InRange, IsByte, unpack_int, of_pattern, of_le, of_le-lt,
}
use pycomm.DataTypes.BitArrays.{BitType, bit_size, host_type, bools_of}
use pycomm.DataTypes.BitArrays.Inverse.{value, bools_of-value}
use pycomm.DataTypes.Types.{StringType, len_type, logix_string, string, short_string, Typ}
use pycomm.DataTypes.Value.{int, str, count}
use pycomm.DataTypes.Stream.{stream_read, pure, lift}
use pycomm.DataTypes.Decode.{
  decode, decode_int, decode_bool, decode_bits, decode_string, decode_n_bytes, natural, read_text,
  bool_values,
}
use pycomm.DataTypes.RoundTrip.Leaves.{size_pos}
use pycomm.DataTypes.Typing.{HasType, AreBools, of_bool, of_int, of_bits, of_string, of_bytes}
use pycomm.DataTypes.Typing.Outcomes.{
  Outcome, Sound, Chunk, bind-Sound, decoding-Sound, lift-Sound, stream_read-Sound,
}
use native.Mathlib.Nat.{pow-suc}

of_pattern-InRange : (s : Bool) (k n : ℕ) → 0 < k → n < 256 ^ k → InRange s k (of_pattern s k n)
of_pattern-InRange false k n positive h = h
of_pattern-InRange true zero n positive h = absurd (omega arith)
of_pattern-InRange true (suc k) n positive h = elim (Bool-cases (ltb n (256 ^ suc k / 2))) [
  | inl low ↦ rw low (ground arith)
  | inr high ↦
      rw high (let above : 256 ^ suc k / 2 ≤ n = ground arith in omega (arith, pow-suc 256 k))
]

unpack_int-InRange :
    (s : Bool) (k : ℕ) (raw : Bytes) (z : ℤ)
    → 0 < k
    → All IsByte raw
    → unpack_int s k raw ≡ ok z
    → InRange s k z
unfolding unpack_int
unpack_int-InRange s k raw z positive h same = elim (Bool-cases (length raw == k)) [
  | inl fits ↦
      let len : length raw ≡ k = ground arith in
      let read : ◌≡◌ {A = Result ℤ} (ok (of_pattern s k (of_le raw))) (ok z) = rw fits at same in
      let is : of_pattern s k (of_le raw) ≡ z = cc in
      subst (InRange s k) is (
        of_pattern-InRange s k (of_le raw) positive
          (subst (λ n. of_le raw < 256 ^ n) len (of_le-lt raw h)))
  | inr short ↦
      let read : ◌≡◌ {A = Result ℤ} (err other_error) (ok z) = rw short at same in absurd (cc)
]

pub decode_int-Sound : (t : IntType) → Sound (decode_int t) (InRange (is_signed t) (size t))
unfolding decode_int
decode_int-Sound t = decoding-Sound (InRange (is_signed t) (size t)) _ (
    bind-Sound (Chunk (some (size t))) (InRange (is_signed t) (size t))
      (stream_read (some (size t))) (λ raw. lift (unpack_int (is_signed t) (size t) raw))
      (stream_read-Sound (some (size t)))
      (λ raw chunk.
        lift-Sound (InRange (is_signed t) (size t)) (unpack_int (is_signed t) (size t) raw)
          (λ z e. unpack_int-InRange (is_signed t) (size t) raw z (size_pos t) chunk.0 e)))

pub int-Sound : (t : IntType) → Sound (decode (Typ.int t)) (HasType (Typ.int t))
unfolding decode
int-Sound t =
    bind-Sound (InRange (is_signed t) (size t)) (HasType (Typ.int t)) (decode_int t)
      (λ z. pure (int z)) (decode_int-Sound t) (λ z range s all. (of_int t z range, all))

pub bool-Sound : Sound decode_bool (HasType Typ.bool)
unfolding decode_bool
bool-Sound =
    bind-Sound (Chunk (some 1)) (HasType Typ.bool) (stream_read (some 1)) _
      (stream_read-Sound (some 1)) (λ raw chunk s all. (of_bool _, all))

pub n_bytes-Sound : (n : Option ℕ) → Sound (decode_n_bytes n) (HasType (Typ.n_bytes n))
unfolding decode_n_bytes
n_bytes-Sound n =
    bind-Sound (Chunk n) (HasType (Typ.n_bytes n)) (stream_read n) _ (stream_read-Sound n)
      (λ raw chunk s all. (of_bytes n raw chunk.0 chunk.1 chunk.2, all))

-- The lowest `w` binary digits.
digits : ℕ → ℕ → List Bool
digits zero n = []
digits (suc w) n = (n % 2 == 1) ∷ digits w (n / 2)

length-digits : (w n : ℕ) → length (digits w n) ≡ w
unfolding digits
length-digits zero n = refl
length-digits (suc w) n = ap suc (length-digits w (n / 2))

value-digits : (w n : ℕ) → n < 2 ^ w → value (digits w n) ≡ n
unfolding digits value
value-digits zero n h = omega arith
value-digits (suc w) n h = ground (arith, value-digits w (n / 2) (omega (arith, pow-suc 2 w)))

length-bools_of : (w n : ℕ) → 0 < w → n < 2 ^ w → length (bools_of w n) ≡ w
length-bools_of w n positive h =
    let back = bools_of-value (digits w n) (omega (arith, length-digits w n)) in
    let same : bools_of w n ≡ digits w n = rw (length-digits w n, value-digits w n h) at back in
    ap length same ∙ length-digits w n

host_lt :
    (t : BitType) (z : ℤ)
    → InRange (is_signed (host_type t)) (size (host_type t)) z
    → natural z < 2 ^ (bit_size t * 8)
host_lt BitType.byte (pos n) h = h
host_lt BitType.word (pos n) h = h
host_lt BitType.dword (pos n) h = h
host_lt BitType.lword (pos n) h = h
host_lt BitType.engunit (pos n) h = h
host_lt BitType.byte (negsuc n) h = elim h [ ]
host_lt BitType.word (negsuc n) h = elim h [ ]
host_lt BitType.dword (negsuc n) h = elim h [ ]
host_lt BitType.lword (negsuc n) h = elim h [ ]
host_lt BitType.engunit (negsuc n) h = elim h [ ]

bit_size_pos : (t : BitType) → 0 < bit_size t * 8
bit_size_pos BitType.byte = omega arith
bit_size_pos BitType.word = omega arith
bit_size_pos BitType.dword = omega arith
bit_size_pos BitType.lword = omega arith
bit_size_pos BitType.engunit = omega arith

AreBools-bool_values : (bs : List Bool) → AreBools (bool_values bs)
AreBools-bool_values [] = tt
AreBools-bool_values (b ∷ bs) = AreBools-bool_values bs

count-bool_values : (bs : List Bool) → count (bool_values bs) ≡ length bs
unfolding count
count-bool_values [] = refl
count-bool_values (b ∷ bs) = ap suc (count-bool_values bs)

pub bits-Sound : (t : BitType) → Sound (decode_bits t) (HasType (Typ.bits t))
unfolding decode_bits
bits-Sound t =
    bind-Sound (InRange (is_signed (host_type t)) (size (host_type t))) (HasType (Typ.bits t))
      (decode_int (host_type t)) _ (decode_int-Sound (host_type t))
      (λ z range s all. (
        of_bits t (bool_values (bools_of (bit_size t * 8) (natural z)))
            (AreBools-bool_values (bools_of (bit_size t * 8) (natural z)))
            (count-bool_values (bools_of (bit_size t * 8) (natural z))
              ∙ length-bools_of (bit_size t * 8) (natural z) (bit_size_pos t) (host_lt t z range)),
        all,
      ))

len_lt :
    (t : StringType) (z : ℤ)
    → InRange (is_signed (len_type t)) (size (len_type t)) z
    → natural z < 256 ^ size (len_type t)
len_lt logix_string (pos n) h = h
len_lt string (pos n) h = h
len_lt short_string (pos n) h = h
len_lt logix_string (negsuc n) h = elim h [ ]
len_lt string (negsuc n) h = elim h [ ]
len_lt short_string (negsuc n) h = elim h [ ]

read_text-Sound : (n : ℕ) → Sound (read_text n) (λ s. All IsByte s × (length s ≤ n))
read_text-Sound zero s all = ((tt, omega arith), all)
read_text-Sound (suc n) s all =
    weaker (stream_read (some (suc n)) s) (stream_read-Sound (some (suc n)) s all)
  where
    weaker :
        (r : Result Bytes × Bytes)
        → Outcome (Chunk (some (suc n))) r
        → Outcome (λ s. All IsByte s × (length s ≤ suc n)) r
    weaker (ok a, s) h = ((h.0.0, h.0.2), h.1)
    weaker (err e, s) h = h

pub string-Sound : (t : StringType) → Sound (decode_string t) (HasType (Typ.string t))
unfolding decode_string
string-Sound t =
    bind-Sound (InRange (is_signed (len_type t)) (size (len_type t))) (HasType (Typ.string t))
      (decode_int (len_type t)) _ (decode_int-Sound (len_type t))
      (λ z range.
        bind-Sound (λ s. All IsByte s × (length s ≤ natural z)) (HasType (Typ.string t))
          (read_text (natural z)) (λ chars. pure (str chars)) (read_text-Sound (natural z))
          (λ chars text s all.
            (of_string t chars text.0 (omega (arith, text.1, len_lt t z range)), all)))
