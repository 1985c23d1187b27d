-- ===== src/DataTypes/Stream.antt =====
-- Reading from a `BytesIO`. A stream is what is left to read, and it comes back beside an error too.
use pycomm.Base.{
  ℕ, Bytes, [], ◌∷◌, Option, none, some, take, drop, Result, Error, ok, err, buffer_empty_error,
  data_error, diverges,
}

abbrev pub Decoder {ℓ} : Type ℓ → Type ℓ
Decoder A = Bytes → Result A × Bytes

module _ {ℓ κ} {A : Type ℓ} {B : Type κ} where
  abbrev pub continue : Result A → (A → Decoder B) → Decoder B
  continue (ok a) f s = f a s
  continue (err e) f s = (err e, s)

  infixl 5 ◌>>=◌
  abbrev pub ◌>>=◌ : Decoder A → (A → Decoder B) → Decoder B
  ◌>>=◌ m f s = let (r, s') = m s in continue r f s'

module _ {ℓ} {A : Type ℓ} where
  abbrev pub pure : A → Decoder A
  pure a s = (ok a, s)

  abbrev pub lift : Result A → Decoder A
  lift r s = (r, s)

-- `stream.read(n)`: at most `n` bytes, all of them for `none` (-1).
abbrev pub read : Option ℕ → Decoder Bytes
read (some n) s = (ok (take n s), drop n s)
read none s = (ok s, [])

abbrev pub nonempty : Bytes → Result Bytes
nonempty [] = err buffer_empty_error
nonempty (b ∷ bs) = ok (b ∷ bs)

-- `_stream_read`
unfoldable pub stream_read : Option ℕ → Decoder Bytes
stream_read n = do bytes ← read n; lift (nonempty bytes)

-- The handler of `decode`: BufferEmptyError goes through, all else becomes DataError.
abbrev pub handled : Error → Error
handled buffer_empty_error = buffer_empty_error
handled diverges = diverges
handled _ = data_error

abbrev pub handle {ℓ} : {A : Type ℓ} → Result A → Result A
handle (ok a) = ok a
handle (err e) = err (handled e)

abbrev pub decoding {ℓ} : {A : Type ℓ} → Decoder A → Decoder A
decoding m s = let (r, s') = m s in (handle r, s')
