-- ===== src/CustomTypes/Layout.antt =====
-- Layouts of a structure and the values that they hold.
use pycomm.Base.{
  ℕ, ◌+◌, ◌≤◌, ◌<◌, ◌≡◌, ◌≢◌, ◌⊎◌, true, false, List, [], ◌∷◌, ◌++◌, some, ok, Text, text_eq, Bytes,
  length, All,
}
use pycomm.DataTypes.Value.{Value, Fields, end, field, get_item}
use pycomm.CustomTypes.Codecs.{Codec, TagMember, BitMember}
use pycomm.CustomTypes.Encoding.{is_private}

-- The type writes `b` for `v`, and reads `v` from it, whatever follows.
abbrev pub Block : Codec → Value → Bytes → Type 0
Block c v b =
    (c.encode_value v ≡ ok b) × ((rest : Bytes) → c.decode_value (b ++ rest) ≡ (ok v, rest))

-- The type reads some value from any `w` bytes.
abbrev pub ReadsAny : Codec → ℕ → Type 0
ReadsAny c w =
    (b : Bytes)
    → length b ≡ w
    → (v : Value) × ((rest : Bytes) → c.decode_value (b ++ rest) ≡ (ok v, rest))

-- The members stand one behind the other, from offset `k` to the size of the structure. The blocks
-- are what the members that are not private write, and the fields are their values.
pub data Laid (private : List Text) (values : Fields) (size : ℕ)
    : ℕ → List TagMember → List (ℕ × Bytes) → Fields → Type 0 where
  laid_end : {k : ℕ} → k ≤ size → Laid private values size k [] [] end
  laid_public :
      {k : ℕ} {m : TagMember} {ms : List TagMember} {v : Value} {b : Bytes} {bs : List (ℕ × Bytes)}
      {fs : Fields}
      → is_private private m.member_name ≡ false
      → k ≤ m.offset
      → get_item values (some m.member_name) ≡ ok v
      → Block m.codec v b
      → Laid private values size (m.offset + length b) ms bs fs
      → Laid private values size k (m ∷ ms) ((m.offset, b) ∷ bs) (field (some m.member_name) v fs)
  laid_private :
      {k : ℕ} {m : TagMember} {ms : List TagMember} {bs : List (ℕ × Bytes)} {fs : Fields} (w : ℕ)
      → is_private private m.member_name ≡ true
      → k ≤ m.offset
      → ReadsAny m.codec w
      → Laid private values size (m.offset + w) ms bs fs
      → Laid private values size k (m ∷ ms) bs fs

-- The index is in none of the blocks.
abbrev pub Outside : ℕ → List (ℕ × Bytes) → Type 0
Outside i [] = Unit
Outside i ((o, b) ∷ bs) = ((i < o) ⊎ (o + length b ≤ i)) × Outside i bs

-- Not the same bit of the same byte.
abbrev pub Apart : ℕ → ℕ → BitMember → Type 0
Apart o j m = (m.byte_offset ≢ o) ⊎ (m.bit ≢ j)

-- The bits are not private, lie in bytes that no block has, and no two are the same.
abbrev pub LaidBits : List Text → Fields → ℕ → List (ℕ × Bytes) → List BitMember → Fields → Type 0
LaidBits private values size bs [] end = Unit
LaidBits private values size bs (m ∷ ms) (field k (Value.bool v) fs) =
    (k ≡ some m.bit_name)
    × (is_private private m.bit_name ≡ false)
    × (get_item values (some m.bit_name) ≡ ok (Value.bool v))
    × (m.bit < 8)
    × (m.byte_offset < size)
    × Outside m.byte_offset bs
    × All (Apart m.byte_offset m.bit) ms
    × LaidBits private values size bs ms fs
LaidBits private values size bs _ _ = ⊥

abbrev pub member_names : List TagMember → List Text
member_names [] = []
member_names (m ∷ ms) = m.member_name ∷ member_names ms

abbrev pub bit_names : List BitMember → List Text
bit_names [] = []
bit_names (m ∷ ms) = m.bit_name ∷ bit_names ms

abbrev pub Different : List Text → Type 0
Different [] = Unit
Different (n ∷ ns) = All (λ t. text_eq n t ≡ false) ns × Different ns
