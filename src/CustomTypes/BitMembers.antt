-- ===== src/CustomTypes/BitMembers.antt =====
-- The bits that `StructTag._encode` writes, and those that `StructTag._decode` reads.
use pycomm.Base.{
  All-map, ℕ, ◌^◌, ◌<◌, ◌≡◌, ◌≢◌, arith, refl, sym, ◌∙◌, ap, inl, inr, Bool, true, false, not, List,
  [], ◌∷◌, ◌==◌, if◌then◌else◌, some, ok, Text, Bytes, length, get_elem?, All, lt→ltb, ==-refl,
}
use pycomm.Base.BitAt.{
  bit_at, clear_bit, bit_at-lt, bit_at-bit_or, bit_at-pow, bit_at-clear_bit, bit_or-lt,
}
use native.Mathlib.Decide.{ℕ_discrete}
use native.Mathlib.Nat.{pow-le-pow_right}
use pycomm.DataTypes.Value.{Value, Fields, end, field, get_item, truthy}
use pycomm.CustomTypes.Codecs.{BitMember}
use pycomm.CustomTypes.Encoding.{splice, set_byte, with_bit, write_bit, write_bits}
use pycomm.CustomTypes.Decoding.{read_bits}
use pycomm.CustomTypes.Buffers.{length-splice, splice_inside, splice_outside}
use pycomm.CustomTypes.Layout.{Apart, LaidBits}

abbrev digit : Bool → ℕ
digit true = 1
digit false = 0

-- The buffer has a byte at `o`.
abbrev pub Byte : Bytes → ℕ → Type 0
Byte buf o = (x : ℕ) × (get_elem? buf o ≡ some x) × (x < 256)

-- Bit `j` of the byte at `o` is `v`.
abbrev BitIs : Bytes → ℕ → ℕ → Bool → Type 0
BitIs buf o j v = (x : ℕ) × (get_elem? buf o ≡ some x) × (bit_at j x ≡ digit v)

with_bit-lt : (v : Bool) (j x : ℕ) → j < 8 → x < 256 → with_bit v j x < 256
unfolding with_bit clear_bit
with_bit-lt true j x h lt =
    bit_or-lt 8 x (2 ^ j) lt
      (omega (arith, pow-le-pow_right {n = 2} (omega arith) {i = j} {j = 7} (omega arith)))
with_bit-lt false j x h lt = omega arith

bit_at-with_bit :
    (v : Bool) (i j x : ℕ) → bit_at i (with_bit v j x) ≡ (if j == i then digit v else bit_at i x)
unfolding with_bit
bit_at-with_bit true i j x =
    ground (arith, bit_at-bit_or i x (2 ^ j), bit_at-pow i j, bit_at-lt i x)
bit_at-with_bit false i j x = bit_at-clear_bit i x j

-- One bit is written into a byte of the buffer.
module _ (values : Fields) (m : BitMember) (v : Bool) (buf : Bytes)
    (found : get_item values (some m.bit_name) ≡ ok (Value.bool v)) (low : m.bit < 8)
    (byte : Byte buf m.byte_offset) (inside : m.byte_offset < length buf) where
  after_bit : Bytes
  after_bit = splice m.byte_offset (with_bit v m.bit byte.0 ∷ []) buf

  write_bit-eq : write_bit values m buf ≡ ok after_bit
  unfolding write_bit set_byte truthy after_bit
  write_bit-eq =
      rw
        (
          found,
          byte.1,
          lt→ltb (with_bit v m.bit byte.0) 256 (with_bit-lt v m.bit byte.0 low byte.2),
        )
        refl

  length-after_bit : length after_bit ≡ length buf
  unfolding after_bit
  length-after_bit = length-splice m.byte_offset (with_bit v m.bit byte.0 ∷ []) buf (omega arith)

  after_bit_here : get_elem? after_bit m.byte_offset ≡ some (with_bit v m.bit byte.0)
  unfolding after_bit
  after_bit_here =
      ap (get_elem? after_bit) (omega arith)
      ∙ splice_inside m.byte_offset (with_bit v m.bit byte.0 ∷ []) buf (omega arith) 0 (omega arith)

  after_bit_elsewhere : (i : ℕ) → m.byte_offset ≢ i → get_elem? after_bit i ≡ get_elem? buf i
  unfolding after_bit
  after_bit_elsewhere i ne =
      splice_outside m.byte_offset (with_bit v m.bit byte.0 ∷ []) buf (omega arith) i (ground arith)

  after_bit-Byte : (o : ℕ) → Byte buf o → Byte after_bit o
  after_bit-Byte o (x, at, lt) = elim (ℕ_discrete m.byte_offset o) [
    | yes same ↦ (
      with_bit v m.bit byte.0,
      ap (get_elem? after_bit) (sym same) ∙ after_bit_here,
      with_bit-lt v m.bit byte.0 low byte.2,
    )
    | no differ ↦ (x, after_bit_elsewhere o differ ∙ at, lt)
  ]

  another_bit :
      (o j x : ℕ)
      → Apart o j m
      → m.byte_offset ≡ o
      → get_elem? buf o ≡ some x
      → bit_at j (with_bit v m.bit byte.0) ≡ bit_at j x
  another_bit o j x (inl differ) same at = absurd (differ same)
  another_bit o j x (inr differ) same at =
      let read : some byte.0 ≡ some x = sym byte.1 ∙ ap (get_elem? buf) same ∙ at in
      let byte_eq : byte.0 ≡ x = cc in bit_at-with_bit v j m.bit byte.0 ∙ rw byte_eq (ground arith)

  after_bit-BitIs : (o j : ℕ) (u : Bool) → Apart o j m → BitIs buf o j u → BitIs after_bit o j u
  after_bit-BitIs o j u apart (x, at, is) = elim (ℕ_discrete m.byte_offset o) [
    | yes same ↦ (
      with_bit v m.bit byte.0,
      ap (get_elem? after_bit) (sym same) ∙ after_bit_here,
      another_bit o j x apart same at ∙ is,
    )
    | no differ ↦ (x, after_bit_elsewhere o differ ∙ at, is)
  ]

  written_bit : BitIs after_bit m.byte_offset m.bit v
  written_bit = (
    with_bit v m.bit byte.0,
    after_bit_here,
    bit_at-with_bit v m.bit m.bit byte.0 ∙ rw (==-refl m.bit) refl,
  )

-- Every bit is in the buffer as the fields say, and is read back from it.
abbrev pub BitsWritten : Fields → List BitMember → Fields → Bytes → Type 0
BitsWritten values ms gs buf =
    (buf' : Bytes) × (write_bits values ms buf ≡ ok buf')
    × (length buf' ≡ length buf)
    × ((i : ℕ) → All (λ m. m.byte_offset ≢ i) ms → get_elem? buf' i ≡ get_elem? buf i)
    × ((o j : ℕ) (u : Bool) → All (Apart o j) ms → BitIs buf o j u → BitIs buf' o j u)
    × (read_bits buf' ms ≡ ok gs)

digit_bool : (n : ℕ) (v : Bool) → n ≡ digit v → not (n == 0) ≡ v
digit_bool n true e = ground arith
digit_bool n false e = ground arith

read_bits-eq :
    (raw : Bytes) (m : BitMember) (ms : List BitMember) (v : Bool) (gs : Fields)
    → BitIs raw m.byte_offset m.bit v
    → read_bits raw ms ≡ ok gs
    → read_bits raw (m ∷ ms) ≡ ok (field (some m.bit_name) (Value.bool v) gs)
unfolding read_bits
read_bits-eq raw m ms v gs (x, at, is) rest = rw (at, rest, digit_bool (bit_at m.bit x) v is) refl

-- One bit before the others.
BitsWritten-step :
    (values : Fields) (m : BitMember) (ms : List BitMember) (v : Bool) (gs : Fields) (buf : Bytes)
    (found : get_item values (some m.bit_name) ≡ ok (Value.bool v)) (low : m.bit < 8)
    (byte : Byte buf m.byte_offset) (inside : m.byte_offset < length buf)
    → All (Apart m.byte_offset m.bit) ms
    → BitsWritten values ms gs (after_bit values m v buf found low byte inside)
    → BitsWritten values (m ∷ ms) (field (some m.bit_name) (Value.bool v) gs) buf
unfolding write_bits
BitsWritten-step values m ms v gs buf found low byte inside apart
      (buf', eq, len, same, kept, back) =
    (
      buf',
      rw (write_bit-eq values m v buf found low byte inside) eq,
      len ∙ length-after_bit values m v buf found low byte inside,
      λ i out. same i out.1 ∙ after_bit_elsewhere values m v buf found low byte inside i out.0,
      λ o j u out is.
          kept o j u out.1 (after_bit-BitIs values m v buf found low byte inside o j u out.0 is),
      read_bits-eq buf' m ms v gs
          (kept m.byte_offset m.bit v apart (written_bit values m v buf found low byte inside))
          back,
    )

module _ (private : List Text) (values : Fields) (bs : List (ℕ × Bytes)) where
  pub write_bits-LaidBits :
      (size : ℕ) (ms : List BitMember) (gs : Fields) (buf : Bytes)
      → LaidBits private values size bs ms gs
      → All (λ m. Byte buf m.byte_offset) ms
      → length buf ≡ size
      → BitsWritten values ms gs buf
  unfolding write_bits read_bits
  write_bits-LaidBits size [] end buf h bytes len =
      (buf, refl, refl, λ i out. refl, λ o j u out is. is, refl)
  write_bits-LaidBits size [] (field k v fs) buf h bytes len = elim h [ ]
  write_bits-LaidBits size (m ∷ ms) end buf h bytes len = elim h [ ]
  write_bits-LaidBits size (m ∷ ms) (field k (Value.bool v) fs) buf h bytes len =
      let inside : m.byte_offset < length buf = omega (arith, h.4) in
      let next = after_bit values m v buf h.2 h.3 bytes.0 inside in
      let rest =
        write_bits-LaidBits size ms fs next h.7
          (All-map ms (λ n. after_bit-Byte values m v buf h.2 h.3 bytes.0 inside n.byte_offset)
            bytes.1)
          (length-after_bit values m v buf h.2 h.3 bytes.0 inside ∙ len) in
      rw (h.0) (BitsWritten-step values m ms v fs buf h.2 h.3 bytes.0 inside h.6 rest)
  write_bits-LaidBits size (m ∷ ms) (field k v fs) buf h bytes len = elim h [ ]
