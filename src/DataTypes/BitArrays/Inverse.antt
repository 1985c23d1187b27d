-- ===== src/DataTypes/BitArrays/Inverse.antt =====
-- The number of a row of booleans, for `BitArrayType` of pycomm3/cip/data_types.py.
use pycomm.Base.{
  ℕ, zero, suc, ◌+◌, ◌-◌, ◌*◌, ◌/◌, ◌%◌, ◌^◌, ◌≤◌, ◌<◌, ◌≡◌, refl, ap, ◌∙◌, arith, Bool, true,
  false, List, [], ◌∷◌, ◌++◌, append-nil, append_assoc, reverse, ◌==◌, if◌then◌else◌, length,
  length-append, replicate,
}
use pycomm.Base.Bits.{bit_or-pow}
use pycomm.DataTypes.BitArrays.{bin_loop, bin, bools_of, or_bits}
use mathlib.Core.List.{reverse-append, reverse-cons, reverse-reverse}
use native.Mathlib.Nat.{pow-suc, sub-zero, suc-sub-suc}
use native.Mathlib.Numerals.{add-one, sub-one}
use pycomm.Base.{Bool-cases, inl, inr}

abbrev pub digit : Bool → ℕ
digit false = 0
digit true = 1

-- The number with these binary digits, the lowest first.
unfoldable pub value : List Bool → ℕ
value [] = 0
value (b ∷ bs) = digit b + 2 * value bs

pub value-lt : (bs : List Bool) → value bs < 2 ^ length bs
unfolding value
value-lt [] = omega arith
value-lt (true ∷ bs) = omega (arith, value-lt bs, pow-suc 2 (length bs))
value-lt (false ∷ bs) = omega (arith, value-lt bs, pow-suc 2 (length bs))

shifted : (i v : ℕ) → 2 ^ suc i * v ≡ 2 ^ i * (2 * v)
shifted i v = rw (pow-suc 2 i) (grind arith)

-- The loop of `_encode` adds up the digits above the number that it has.
or_bits-value :
    (i acc : ℕ) (bs : List Bool) → acc < 2 ^ i → or_bits i acc bs ≡ acc + 2 ^ i * value bs
unfolding or_bits value
or_bits-value i acc [] h = omega arith
or_bits-value i acc (false ∷ bs) h =
    rw add-one (
      omega
        (arith, or_bits-value (suc i) acc bs (omega (arith, pow-suc 2 i)), shifted i (value bs)))
or_bits-value i acc (true ∷ bs) h =
    rw (add-one, bit_or-pow i acc h)
      (omega (
        arith,
        or_bits-value (suc i) (acc + 2 ^ i) bs (omega (arith, pow-suc 2 i)),
        shifted i (value bs),
      ))

pub or_bits-eq-value : (bs : List Bool) → or_bits 0 0 bs ≡ value bs
or_bits-eq-value bs = omega (arith, or_bits-value 0 0 bs (omega arith))

-- The binary digits of a number, the lowest first, on fuel.
lowest_first : ℕ → ℕ → List Bool
lowest_first zero n = []
lowest_first (suc f) n =
    let rest = lowest_first f (n / 2) in if n == 0 then [] else (n % 2 == 1) ∷ rest

lowest_first_zero : (f : ℕ) → lowest_first f 0 ≡ []
unfolding lowest_first
lowest_first_zero zero = refl
lowest_first_zero (suc f) = refl

bin_loop-lowest_first :
    (f n : ℕ) (acc : List Bool) → bin_loop f n acc ≡ reverse (lowest_first f n) ++ acc
unfolding bin_loop lowest_first
bin_loop-lowest_first zero n acc = refl
bin_loop-lowest_first (suc f) n acc = elim (Bool-cases (n == 0)) [
  | inl e ↦ rw e
  | inr e ↦
      rw (e, reverse-cons, append_assoc) (bin_loop-lowest_first f (n / 2) ((n % 2 == 1) ∷ acc))
]

module _ {ℓ} {A : Type ℓ} where
  length-reverse : (xs : List A) → length (reverse xs) ≡ length xs
  length-reverse [] = refl
  length-reverse (x ∷ xs) =
      rw reverse-cons (omega (arith, length-append (reverse xs) (x ∷ []), length-reverse xs))

  replicate-snoc : (k : ℕ) (a : A) → replicate k a ++ (a ∷ []) ≡ a ∷ replicate k a
  replicate-snoc zero a = refl
  replicate-snoc (suc k) a = ap (λ t. a ∷ t) (replicate-snoc k a)

  reverse-replicate : (k : ℕ) (a : A) → reverse (replicate k a) ≡ replicate k a
  reverse-replicate zero a = refl
  reverse-replicate (suc k) a = rw (reverse-cons, reverse-replicate k a) (replicate-snoc k a)

all_false : (bs : List Bool) → value bs ≡ 0 → replicate (length bs) false ≡ bs
unfolding value
all_false [] h = refl
all_false (true ∷ bs) h = absurd (omega arith)
all_false (false ∷ bs) h = ap (λ t. false ∷ t) (all_false bs (omega arith))

abbrev Padded : ℕ → List Bool → Type 0
Padded f bs =
    lowest_first f (value bs) ++ replicate (length bs - length (lowest_first f (value bs))) false
    ≡ bs

Padded-zero : (f : ℕ) (bs : List Bool) → value bs ≡ 0 → Padded f bs
Padded-zero f bs h = rw (h, lowest_first_zero f, sub-zero (length bs)) (all_false bs h)

-- The digits of a value, padded with zeros to the length, are the booleans.
padded : (f : ℕ) (bs : List Bool) → value bs ≤ f → Padded f bs
unfolding lowest_first value
padded f [] h = rw (lowest_first_zero f)
padded zero (b ∷ bs) h = Padded-zero zero (b ∷ bs) (omega arith)
padded (suc f) (true ∷ bs) h =
    let rest = padded f bs (omega arith) in
    let half : (1 + 2 * value bs) / 2 ≡ value bs = omega arith in
    let odd : ((1 + 2 * value bs) % 2 == 1) ≡ true = ground arith in
    let more : (1 + 2 * value bs == 0) ≡ false = ground arith in
    rw (more, odd, half, suc-sub-suc) (ap (λ t. true ∷ t) rest)
padded (suc f) (false ∷ bs) h = elim (Bool-cases (value bs == 0)) [
  | inl e ↦ Padded-zero (suc f) (false ∷ bs) (ground arith)
  | inr e ↦
      let rest = padded f bs (ground arith) in
      let half : (0 + 2 * value bs) / 2 ≡ value bs = omega arith in
      let even : ((0 + 2 * value bs) % 2 == 1) ≡ false = ground arith in
      let more : (0 + 2 * value bs == 0) ≡ false = ground arith in
      rw (more, even, half, suc-sub-suc) (ap (λ t. false ∷ t) rest)
]

reverse-pad :
    (k : ℕ) (l : List Bool) → reverse (replicate k false ++ reverse l) ≡ l ++ replicate k false
reverse-pad k l =
    reverse-append (replicate k false) (reverse l)
    ∙ rw (reverse-reverse l, reverse-replicate k false)

-- Decoding the number of `bs` in as many places gives `bs` back.
pub bools_of-value : (bs : List Bool) → 0 < length bs → bools_of (length bs) (value bs) ≡ bs
unfolding bools_of bin
bools_of-value bs h = elim (Bool-cases (value bs == 0)) [
  | inl e ↦
      let z : value bs ≡ 0 = ground arith in
      rw e (
        reverse-append (replicate (length bs - 1) false) (false ∷ [])
        ∙ rw (reverse-replicate (length bs - 1) false) (one_more bs z h))
  | inr e ↦
      let l : List Bool = lowest_first (value bs) (value bs) in
      rw (e, bin_loop-lowest_first (value bs) (value bs) [], append-nil, length-reverse l)
        (reverse-pad (length bs - length l) l ∙ padded (value bs) bs (omega arith))
]
  where
    one_more :
        (cs : List Bool)
        → value cs ≡ 0
        → 0 < length cs
        → (false ∷ []) ++ replicate (length cs - 1) false ≡ cs
    one_more [] z p = absurd (omega arith)
    one_more (c ∷ cs) z p = rw (sub-one (suc (length cs))) (all_false (c ∷ cs) z)
