-- ===== src/DataTypes/RoundTrip/Exact.antt =====
-- Which integers an integer type encodes.
use pycomm.Base.{
  ℕ, ◌≡◌, refl, arith, Bool, true, false, ◌⊎◌, inl, inr, Bytes, length, Result, ok, err, Error,
  data_error, other_error, raise_as,
}
use pycomm.Base.Ints.{ℤ, pos, negsuc}
use pycomm.DataTypes.Integers.{
  IntType, size, is_signed, pack_int, InRange, pack_int-InRange, unpack_int-pack_int,
}
use pycomm.DataTypes.Value.{int}
use pycomm.DataTypes.Types.{Typ}
use pycomm.DataTypes.Encode.{encode, pack_value}

pack_int-err :
    (s : Bool) (k : ℕ) (z : ℤ) (e : Error)
    → pack_int s k z ≡ err e
    → pack_int s k z ≡ err other_error
unfolding pack_int
pack_int-err false k (pos n) e h = ground arith
pack_int-err false k (negsuc n) e h = refl
pack_int-err true k (pos n) e h = ground arith
pack_int-err true k (negsuc n) e h = ground arith

-- An integer is encoded exactly if it is in the type's range, to as many bytes as the type has; any other
-- raises DataError.
pub encode-exact :
    (t : IntType) (z : ℤ)
    → ((bs : Bytes) × (encode (Typ.int t) (int z) ≡ ok bs)
        × (length bs ≡ size t)
        × InRange (is_signed t) (size t) z)
      ⊎ ((encode (Typ.int t) (int z) ≡ err data_error) × (InRange (is_signed t) (size t) z → ⊥))
unfolding encode pack_value
encode-exact t z = outcome (pack_int (is_signed t) (size t) z) refl
  where
    outcome :
        (r : Result Bytes)
        → pack_int (is_signed t) (size t) z ≡ r
        → ((bs : Bytes) × (raise_as data_error (pack_int (is_signed t) (size t) z) ≡ ok bs)
            × (length bs ≡ size t)
            × InRange (is_signed t) (size t) z)
          ⊎ ((raise_as data_error (pack_int (is_signed t) (size t) z) ≡ err data_error)
              × (InRange (is_signed t) (size t) z → ⊥))
    outcome (ok bs) h =
        let within = pack_int-InRange (is_signed t) (size t) z bs h in
        let (cs, e, l, back) = unpack_int-pack_int (is_signed t) (size t) z within in
        inl (cs, rw e refl, l, within)
    outcome (err x) h = inr (
      rw (pack_int-err (is_signed t) (size t) z x h) refl,
      λ within. let (cs, e, l, back) = unpack_int-pack_int (is_signed t) (size t) z within in cc,
    )
