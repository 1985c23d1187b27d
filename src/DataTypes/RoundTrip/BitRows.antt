-- ===== src/DataTypes/RoundTrip/BitRows.antt =====
-- The round trip of the bit array types.
use pycomm.Base.{
  ℕ, suc, ◌*◌, ◌^◌, ◌<◌, ◌≡◌, refl, sym, ap, ◌∙◌, arith, Bool, false, List, [], ◌∷◌, length,
  ==-refl,
}
use pycomm.Base.Ints.{pos}
use pycomm.DataTypes.Integers.{size, is_signed, InRange}
use pycomm.DataTypes.BitArrays.{BitType, byte, bit_size, host_type}
use pycomm.DataTypes.BitArrays.Inverse.{value, value-lt, or_bits-eq-value, bools_of-value}
use pycomm.DataTypes.Types.{Typ}
use pycomm.DataTypes.Value.{Value, Values, list, nil, cons, count, truthy, iterate}
use pycomm.DataTypes.Encode.{encode, encode_int, encode_bits, truths}
use pycomm.DataTypes.Decode.{decode, decode_bits, bool_values}
use pycomm.DataTypes.RoundTrip.Leaves.{Trip, AllValues, encode_int-Trip}

host_unsigned : (t : BitType) → is_signed (host_type t) ≡ false
host_unsigned byte = refl
host_unsigned t = refl

host_InRange :
    (t : BitType) (n : ℕ)
    → n < 2 ^ (8 * bit_size t)
    → InRange (is_signed (host_type t)) (size (host_type t)) (pos n)
host_InRange byte n h = omega arith
host_InRange t n h = omega arith

width_pos : (t : BitType) → 0 < 8 * bit_size t
width_pos byte = omega arith
width_pos t = omega arith

width_comm : (t : BitType) → bit_size t * 8 ≡ 8 * bit_size t
width_comm byte = refl
width_comm t = refl

count-bool_values : (bs : List Bool) → count (bool_values bs) ≡ length bs
unfolding count
count-bool_values [] = refl
count-bool_values (b ∷ bs) = ap suc (count-bool_values bs)

truths-bool_values : (bs : List Bool) → truths (bool_values bs) ≡ bs
unfolding truthy
truths-bool_values [] = refl
truths-bool_values (b ∷ bs) = ap (λ t. b ∷ t) (truths-bool_values bs)

-- A value is one of the two booleans.
abbrev pub IsBool : Value → Type 0
IsBool (Value.bool b) = Unit
IsBool _ = ⊥

bool_values-truths : (vs : Values) → AllValues IsBool vs → bool_values (truths vs) ≡ vs
unfolding truthy
bool_values-truths nil h = refl
bool_values-truths (cons (Value.bool b) vs) h = ap (cons (Value.bool b)) (bool_values-truths vs h.1)
bool_values-truths (cons Value.none_value vs) h = elim (h.0) [ ]
bool_values-truths (cons v vs) h = elim (h.0) [ ]

-- A row of as many booleans as the type has bits.
pub bits-Trip :
    (t : BitType) (bs : List Bool)
    → length bs ≡ 8 * bit_size t
    → Trip (encode (Typ.bits t)) (decode (Typ.bits t)) (list (bool_values bs))
unfolding encode decode encode_bits decode_bits encode_int iterate
bits-Trip t bs h =
    let small : value bs < 2 ^ (8 * bit_size t) = rw h at (value-lt bs) in
    let (b, e, d) =
      encode_int-Trip (host_type t) (pos (value bs)) (host_InRange t (value bs) small) in
    (
      b,
      rw
          (
            count-bool_values bs,
            h,
            ==-refl (8 * bit_size t),
            truths-bool_values bs,
            or_bits-eq-value bs,
            ← host_unsigned t,
          )
          e,
      λ rest. rw (d rest, width_comm t, ← h, bools_of-value bs (rw h (width_pos t))),
    )

pub row-Trip :
    (t : BitType) (vs : Values)
    → count vs ≡ 8 * bit_size t
    → AllValues IsBool vs
    → Trip (encode (Typ.bits t)) (decode (Typ.bits t)) (list vs)
row-Trip t vs h bools =
    let e = bool_values-truths vs bools in
    rw e at (bits-Trip t (truths vs) (sym (count-bool_values (truths vs)) ∙ ap count e ∙ h))
