-- ===== src/DataTypes/Typing/Outcomes.antt =====
-- What holds of a decoder's result and of the bytes that it leaves, where it raises nothing.
use pycomm.Base.{
  refl, ℕ, zero, suc, ◌<◌, ◌≡◌, arith, List, [], ◌∷◌, Option, none, some, Bytes, length,
  length-take, take, drop, All, Result, ok, err,
}
use pycomm.DataTypes.Integers.{IsByte}
use pycomm.DataTypes.Stream.{
  Decoder, ◌>>=◌, continue, lift, stream_read, nonempty, handle, decoding,
}
use pycomm.DataTypes.Typing.{AtMost}

abbrev pub Outcome : {A : Type 0} → (A → Type 0) → Result A × Bytes → Type 0
Outcome P (ok a, s) = P a × All IsByte s
Outcome P (err e, s) = All IsByte s

-- From bytes, the decoder reads what satisfies `P`, and leaves bytes.
abbrev pub Sound : {A : Type 0} → Decoder A → (A → Type 0) → Type 0
Sound m P = (s : Bytes) → All IsByte s → Outcome P (m s)

pub All-take : {A : Type 0} (P : A → Type 0) (n : ℕ) (xs : List A) → All P xs → All P (take n xs)
All-take P zero xs h = tt
All-take P (suc n) [] h = tt
All-take P (suc n) (x ∷ xs) h = (h.0, All-take P n xs h.1)

pub All-drop : {A : Type 0} (P : A → Type 0) (n : ℕ) (xs : List A) → All P xs → All P (drop n xs)
All-drop P zero xs h = h
All-drop P (suc n) [] h = tt
All-drop P (suc n) (x ∷ xs) h = All-drop P n xs h.1

continue-Outcome :
    {A B : Type 0} (P : A → Type 0) (Q : B → Type 0) (r : Result A × Bytes) (f : A → Decoder B)
    → Outcome P r
    → ((a : A) → P a → Sound (f a) Q)
    → Outcome Q (continue r.0 f r.1)
continue-Outcome P Q (ok a, s) f h next = next a h.0 s h.1
continue-Outcome P Q (err e, s) f h next = h

-- One decoder after another.
pub bind-Sound :
    {A B : Type 0} (P : A → Type 0) (Q : B → Type 0) (m : Decoder A) (f : A → Decoder B)
    → Sound m P
    → ((a : A) → P a → Sound (f a) Q)
    → Sound (m >>= f) Q
bind-Sound P Q m f first next s h = continue-Outcome P Q (m s) f (first s h) next

handle-Outcome :
    {A : Type 0} (P : A → Type 0) (r : Result A × Bytes) → Outcome P r → Outcome P (handle r.0, r.1)
handle-Outcome P (ok a, s) h = h
handle-Outcome P (err e, s) h = h

pub decoding-Sound :
    {A : Type 0} (P : A → Type 0) (m : Decoder A) → Sound m P → Sound (decoding m) P
decoding-Sound P m h s all = handle-Outcome P (m s) (h s all)

pub lift-Sound :
    {A : Type 0} (P : A → Type 0) (r : Result A) → ((a : A) → r ≡ ok a → P a) → Sound (lift r) P
lift-Sound P (ok a) h s all = (h a refl, all)
lift-Sound P (err e) h s all = all

-- The bytes of one reading.
abbrev pub Chunk : Option ℕ → Bytes → Type 0
Chunk n bs = All IsByte bs × (0 < length bs) × AtMost n bs

nonempty-Sound :
    (n : Option ℕ) (bs : Bytes) → All IsByte bs → AtMost n bs → Sound (lift (nonempty bs)) (Chunk n)
nonempty-Sound n [] h most s all = all
nonempty-Sound n (b ∷ bs) h most s all = ((h, omega arith, most), all)

pub stream_read-Sound : (n : Option ℕ) → Sound (stream_read n) (Chunk n)
unfolding stream_read
stream_read-Sound (some n) s all =
    nonempty-Sound (some n) (take n s) (All-take IsByte n s all) (omega (arith, length-take n s))
      (drop n s) (All-drop IsByte n s all)
stream_read-Sound none s all = nonempty-Sound none s all tt [] tt
