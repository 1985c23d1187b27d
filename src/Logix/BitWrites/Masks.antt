-- ===== src/Logix/BitWrites/Masks.antt =====
-- What the two masks ask of each bit of the tag.
use pycomm.Base.{
  take_all, lt→ltb, ◌%◌, ◌++◌, length-take, ℕ, ◌+◌, ◌<◌, ◌≤◌, ◌^◌, ◌≡◌, refl, ap, ◌∙◌, arith, Bool,
  true, false, List, [], ◌∷◌, Option, none, some, ◌==◌, if◌then◌else◌, length, length-append, take,
  ok,
}
use pycomm.Base.BitAt.{bit_at, bit_at-bit_or, bit_at-pow, bit_at-clear_bit, bit_at-lt}
use pycomm.Base.Bits.{holds_below, holds_below-at}
use pycomm.DataTypes.RoundTrip.Numbers.{encode_unsigned}
use pycomm.DataTypes.Encode.{encode_int}
use pycomm.DataTypes.Integers.{ulint, le_bytes, length-le_bytes, pack_int}
use pycomm.Base.Ints.{pos}
use mathlib.Core.Path.{fun_ext}
use pycomm.Logix.BitWrites.{
  BitWrite, set_bits, BitWrites, new_bit_writes, bit_in, set_bit, modify_data,
}

-- What becomes of a bit: it is written, or kept.
abbrev pub intent : BitWrites → ℕ → Option Bool
intent w j =
    if bit_at j w.or_mask == 1
    then some true
    else if bit_at j w.and_mask == 1
    then none
    else some false

-- The specification: a map from bits to what is written, changed at one bit.
abbrev pub update : (ℕ → Option Bool) → ℕ → Bool → ℕ → Option Bool
update f b v j = if b == j then some v else f j

-- Setting a bit changes what the masks ask of that bit, and of no other.
pub intent-set_bit :
    (bit : ℕ) (v : Bool) (id : ℕ) (w : BitWrites) (j : ℕ)
    → intent (set_bit bit v id w) j ≡ update (intent w) (bit_in w bit) v j
unfolding set_bit
intent-set_bit bit true id w j = ground (
  arith,
  bit_at-bit_or j w.or_mask (2 ^ bit_in w bit),
  bit_at-bit_or j w.and_mask (2 ^ bit_in w bit),
  bit_at-pow j (bit_in w bit),
  bit_at-lt j w.or_mask,
  bit_at-lt j w.and_mask,
)
intent-set_bit bit false id w j = ground (
  arith,
  bit_at-clear_bit j w.or_mask (bit_in w bit),
  bit_at-clear_bit j w.and_mask (bit_in w bit),
)

-- The map after all of the writes, the later ones over the earlier ones.
abbrev pub updates : Bool → List BitWrite → (ℕ → Option Bool) → ℕ → Option Bool
updates is_dword [] f = f
updates is_dword (b ∷ bs) f =
    updates is_dword bs (update f (if is_dword then b.bit % 32 else b.bit) b.value)

keeps_dword :
    (bit : ℕ) (v : Bool) (id : ℕ) (w : BitWrites) → (set_bit bit v id w).is_dword ≡ w.is_dword
unfolding set_bit
keeps_dword bit true id w = refl
keeps_dword bit false id w = refl

intent-set_bits :
    (bs : List BitWrite) (w : BitWrites) → intent (set_bits bs w) ≡ updates w.is_dword bs (intent w)
unfolding set_bits
intent-set_bits [] w = refl
intent-set_bits (b ∷ bs) w =
    intent-set_bits bs (set_bit b.bit b.value b.request_id w)
    ∙ rw
        (
          keeps_dword b.bit b.value b.request_id w,
          fun_ext (intent-set_bit b.bit b.value b.request_id w),
        )
        refl

kept_at_first : holds_below 64 (λ j. bit_at j 0xFFFF_FFFF_FFFF_FFFF == 1) ≡ true
unfolding holds_below bit_at
kept_at_first = refl

nothing_at_first : holds_below 64 (λ j. bit_at j 0 == 0) ≡ true
unfolding holds_below bit_at
nothing_at_first = refl

intent_new :
    (is_dword : Bool) (size j : ℕ) → j < 64 → intent (new_bit_writes is_dword size) j ≡ none
intent_new is_dword size j h = ground (
  arith,
  holds_below-at 64 (λ j. bit_at j 0xFFFF_FFFF_FFFF_FFFF == 1) kept_at_first j h,
  holds_below-at 64 (λ j. bit_at j 0 == 0) nothing_at_first j h,
)

updates-local :
    (is_dword : Bool) (bs : List BitWrite) (f g : ℕ → Option Bool) (j : ℕ)
    → f j ≡ g j
    → updates is_dword bs f j ≡ updates is_dword bs g j
updates-local is_dword [] f g j h = h
updates-local is_dword (b ∷ bs) f g j h =
    updates-local is_dword bs _ _ j
      (ap (λ o. if (if is_dword then b.bit % 32 else b.bit) == j then some b.value else o) h)

-- The masks of a packet that gathers any number of bit writes ask of each of 64 bits exactly what
-- the last write to it says, and leave the bits that are not written as they are.
pub set_bits-updates :
    (is_dword : Bool) (mask_size : ℕ) (bs : List BitWrite) (j : ℕ)
    → j < 64
    → intent (set_bits bs (new_bit_writes is_dword mask_size)) j ≡ updates is_dword bs (λ _. none) j
set_bits-updates is_dword mask_size bs j h =
    ap (λ f. f j) (intent-set_bits bs (new_bit_writes is_dword mask_size))
    ∙ updates-local is_dword bs (intent (new_bit_writes is_dword mask_size)) (λ _. none) j
        (intent_new is_dword mask_size j h)

ulint_bytes : (n : ℕ) → n < 2 ^ 64 → encode_int ulint (pos n) ≡ ok (le_bytes 8 n)
unfolding encode_int pack_int
ulint_bytes n h = rw (lt→ltb n (2 ^ 64) h)

-- The data of a packet whose masks fit 64 bits, with an AND mask of at least 8, are the mask size in two bytes,
-- the lowest `mask_size` bytes of the OR mask, and then all 8 bytes of the AND mask, also where
-- `mask_size` is less; the lowest byte of each is the first.
pub modify_data-too_long :
    (w : BitWrites)
    → w.mask_size ≤ 8
    → w.or_mask < 2 ^ 64
    → 8 ≤ w.and_mask
    → w.and_mask < 2 ^ 64
    → (modify_data w
        ≡ ok (
            le_bytes 2 w.mask_size
            ++ (take w.mask_size (le_bytes 8 w.or_mask) ++ le_bytes 8 w.and_mask)))
      × (length (
            le_bytes 2 w.mask_size
            ++ (take w.mask_size (le_bytes 8 w.or_mask) ++ le_bytes 8 w.and_mask))
          ≡ 2 + (w.mask_size + 8))
unfolding modify_data
modify_data-too_long w hs ho low ha =
    let s = le_bytes 2 w.mask_size in
    let o = le_bytes 8 w.or_mask in
    let a = le_bytes 8 w.and_mask in
    let la : length a ≡ 8 = length-le_bytes 8 w.and_mask in
    (
      rw
          (
            (encode_unsigned w.mask_size).1 (omega arith),
            ulint_bytes w.or_mask ho,
            ulint_bytes w.and_mask ha,
          )
          (ap (λ z. ok (s ++ (take w.mask_size o ++ z)))
            (take_all w.and_mask a (omega (arith, la)))),
      omega (
        arith,
        length-append s (take w.mask_size o ++ a),
        length-append (take w.mask_size o) a,
        length-take w.mask_size o,
        length-le_bytes 2 w.mask_size,
        length-le_bytes 8 w.or_mask,
        la,
      ),
    )
