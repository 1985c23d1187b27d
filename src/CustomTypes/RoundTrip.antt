-- ===== src/CustomTypes/RoundTrip.antt =====
-- Structures and strings, written and read back.
use pycomm.Base.{
  Bool-cases, subst, ℕ, ◌+◌, ◌≤◌, ◌<◌, ◌≡◌, ◌≢◌, arith, refl, sym, ◌∙◌, ap, ◌⊎◌, inl, inr, false,
  List, [], ◌∷◌, ◌++◌, ok, Text, Bytes, length, replicate, All, All-map, take-append, drop-append,
  length-replicate, get_elem?,
}
use pycomm.DataTypes.Value.{Value, Fields, end, field, dict, set_item}
use pycomm.DataTypes.Decode.{set_all}
use pycomm.DataTypes.RoundTrip.Structs.{append_fields, set_all-append, Fresh-end}
use pycomm.CustomTypes.Codecs.{BitMember, Template}
use pycomm.CustomTypes.Encoding.{encode_struct_tag}
use pycomm.CustomTypes.Decoding.{
  read_bits, public_fields, struct_fields, decode_struct_tag, struct_tag, is_hidden,
}
use pycomm.CustomTypes.Buffers.{Holds, get_elem?-replicate}
use pycomm.CustomTypes.Layout.{Laid, LaidBits, Outside, Different, member_names, bit_names}
use pycomm.CustomTypes.Writing.{write_members-Laid}
use pycomm.CustomTypes.BitMembers.{Byte, write_bits-LaidBits}
use pycomm.CustomTypes.Reading.{Keyed, Keyed-append, Keyed-Unrepeated, read_members-Laid}

end-append : (fs : Fields) → append_fields end fs ≡ fs
unfolding append_fields
end-append fs = refl

set_all-set_all :
    (acc fs gs : Fields) → set_all (set_all acc fs) gs ≡ set_all acc (append_fields fs gs)
unfolding set_all append_fields
set_all-set_all acc end gs = refl
set_all-set_all acc (field k v fs) gs = set_all-set_all (set_item acc k v) fs gs

module _ (private : List Text) (values : Fields) (size : ℕ) (bs : List (ℕ × Bytes)) where
  LaidBits-Outside :
      (ms : List BitMember) (gs : Fields)
      → LaidBits private values size bs ms gs
      → All (λ m. (m.byte_offset < size) × Outside m.byte_offset bs) ms
  LaidBits-Outside [] end h = tt
  LaidBits-Outside [] (field k v gs) h = elim h [ ]
  LaidBits-Outside (m ∷ ms) end h = elim h [ ]
  LaidBits-Outside (m ∷ ms) (field k (Value.bool v) gs) h = ((h.4, h.5), LaidBits-Outside ms gs h.7)
  LaidBits-Outside (m ∷ ms) (field k v gs) h = elim h [ ]

  LaidBits-Keyed :
      (ms : List BitMember) (gs : Fields)
      → LaidBits private values size bs ms gs
      → Keyed (bit_names ms) gs
  LaidBits-Keyed [] end h = tt
  LaidBits-Keyed [] (field k v gs) h = elim h [ ]
  LaidBits-Keyed (m ∷ ms) end h = elim h [ ]
  LaidBits-Keyed (m ∷ ms) (field k (Value.bool v) gs) h = (h.0, LaidBits-Keyed ms gs h.7)
  LaidBits-Keyed (m ∷ ms) (field k v gs) h = elim h [ ]

  LaidBits-public_fields :
      (ms : List BitMember) (gs : Fields)
      → LaidBits private values size bs ms gs
      → public_fields private gs ≡ gs
  unfolding public_fields
  LaidBits-public_fields [] end h = refl
  LaidBits-public_fields [] (field k v gs) h = elim h [ ]
  LaidBits-public_fields (m ∷ ms) end h = elim h [ ]
  LaidBits-public_fields (m ∷ ms) (field k (Value.bool v) gs) h =
      let seen : is_hidden private k ≡ false = ap (is_hidden private) h.0 ∙ h.1 in
      rw (seen, LaidBits-public_fields ms gs h.7) refl
  LaidBits-public_fields (m ∷ ms) (field k v gs) h = elim h [ ]

public_fields-append :
    (private : List Text) (fs gs : Fields)
    → public_fields private (append_fields fs gs)
      ≡ append_fields (public_fields private fs) (public_fields private gs)
unfolding public_fields append_fields
public_fields-append private end gs = refl
public_fields-append private (field k v fs) gs = elim (Bool-cases (is_hidden private k)) [
  | inl hidden ↦ rw (hidden, public_fields-append private fs gs) refl
  | inr shown ↦ rw (shown, public_fields-append private fs gs) refl
]

apart : (n o w i : ℕ) → (n < o) ⊎ (o + w ≤ n) → i < w → n ≢ o + i
apart n o w i (inl h) lt same = absurd (omega arith)
apart n o w i (inr h) lt same = absurd (omega arith)

-- A block stays when what changes is outside of it.
All-Holds :
    (buf buf' : Bytes) (ms : List BitMember) (bs : List (ℕ × Bytes))
    → ((i : ℕ) → All (λ m. m.byte_offset ≢ i) ms → get_elem? buf' i ≡ get_elem? buf i)
    → All (λ m. Outside m.byte_offset bs) ms
    → All (Holds buf) bs
    → All (Holds buf') bs
All-Holds buf buf' ms [] same out held = tt
All-Holds buf buf' ms ((o, b) ∷ bs) same out held = (
  λ i lt.
      same (o + i) (All-map ms (λ m h. apart m.byte_offset o (length b) i h.0 lt) out)
      ∙ held.0 i lt,
  All-Holds buf buf' ms bs same (All-map ms (λ m h. h.1) out) held.1,
)

-- The public values are the fields, and the names of all members differ.
abbrev pub FitsTemplate : Template → Fields → List (ℕ × Bytes) → Fields → Fields → Type 0
FitsTemplate t values bs fs gs =
    Laid t.private_members values t.struct_size 0 t.members bs fs
    × LaidBits t.private_members values t.struct_size bs t.bit_members gs
    × Different (member_names t.members ++ bit_names t.bit_members)

-- A buffer of the structure's size with all blocks and bits in place.
abbrev Filled : Template → List (ℕ × Bytes) → Fields → Bytes → Type 0
Filled t bs gs buf =
    (length buf ≡ t.struct_size) × All (Holds buf) bs × (read_bits buf t.bit_members ≡ ok gs)

encode-Filled :
    (t : Template) (values : Fields) (bs : List (ℕ × Bytes)) (fs gs : Fields)
    → FitsTemplate t values bs fs gs
    → (buf : Bytes) × (encode_struct_tag t (dict values) ≡ ok buf) × Filled t bs gs buf
unfolding encode_struct_tag
encode-Filled t values bs fs gs (laid, bits, different) =
    let size = t.struct_size in
    let (buf, eq, len, held, same) =
      write_members-Laid (replicate size 0) laid (length-replicate size 0) in
    let outside = LaidBits-Outside t.private_members values size bs t.bit_members gs bits in
    let bytes : All (λ m. Byte buf m.byte_offset) t.bit_members =
      All-map t.bit_members
        (λ m h.
          (0, same m.byte_offset h.1 ∙ get_elem?-replicate size 0 m.byte_offset h.0, omega arith))
        outside in
    let (buf', eq', len', same', kept, back) =
      write_bits-LaidBits t.private_members values bs size t.bit_members gs buf bits bytes len in
    (
      buf',
      rw (eq, eq') refl,
      (
        len' ∙ len,
        All-Holds buf buf' t.bit_members bs same' (All-map t.bit_members (λ m h. h.1) outside) held,
        back,
      ),
    )

-- What the items that the loops set make of the result.
merged :
    (private ns ms : List Text) (all fs gs : Fields)
    → Keyed ns all
    → Keyed ms gs
    → Different (ns ++ ms)
    → public_fields private all ≡ fs
    → public_fields private gs ≡ gs
    → public_fields private (set_all (set_all end all) gs) ≡ append_fields fs gs
merged private ns ms all fs gs keyed keyed' different seen seen' =
    let whole = append_fields all gs in
    let unrepeated =
      Keyed-Unrepeated (ns ++ ms) whole (Keyed-append ns ms all gs keyed keyed') different in
    let joined : set_all (set_all end all) gs ≡ whole =
      set_all-set_all end all gs
      ∙ set_all-append end whole unrepeated (Fresh-end whole)
      ∙ end-append whole in
    ap (public_fields private) joined ∙ public_fields-append private all gs ∙ rw (seen, seen') refl

decode-Filled :
    (t : Template) (values : Fields) (bs : List (ℕ × Bytes)) (fs gs : Fields) (buf rest : Bytes)
    → FitsTemplate t values bs fs gs
    → Filled t bs gs buf
    → decode_struct_tag t (buf ++ rest) ≡ (ok (dict (append_fields fs gs)), rest)
unfolding decode_struct_tag struct_fields
decode-Filled t values bs fs gs buf rest (laid, bits, different) (len, held, back) =
    let private = t.private_members in
    let laid' = subst (λ n. Laid private values n 0 t.members bs fs) (sym len) laid in
    let (all, s, eq, seen, keyed) =
      read_members-Laid private values buf 0 laid' held (omega arith) in
    let result =
      merged private (member_names t.members) (bit_names t.bit_members) all fs gs keyed
        (LaidBits-Keyed private values t.struct_size bs t.bit_members gs bits) different seen
        (LaidBits-public_fields private values t.struct_size bs t.bit_members gs bits) in
    rw
      (
        take-append t.struct_size buf rest len,
        drop-append t.struct_size buf rest len,
        eq,
        back,
        result,
      )
      refl

-- Take a structure whose members stand one behind the other within its size, whose bits lie in
-- bytes that no public member has, no two on the same bit and none private, and where no two names
-- are equal. Let each public member read back the block that it writes for its value, whatever
-- follows, and each private member read any bytes of its width. Then a dictionary with the public
-- values is encoded, without an error, to as many bytes as the structure has, and decoding these,
-- whatever follows them, gives the public values and the bits and leaves what follows.
pub decode-struct_tag :
    (t : Template) (values : Fields) (bs : List (ℕ × Bytes)) (fs gs : Fields)
    → FitsTemplate t values bs fs gs
    → (b : Bytes) × ((struct_tag t).encode_value (dict values) ≡ ok b)
      × (length b ≡ t.struct_size)
      × ((rest : Bytes)
          → (struct_tag t).decode_value (b ++ rest) ≡ (ok (dict (append_fields fs gs)), rest))
decode-struct_tag t values bs fs gs fits =
    let (buf, eq, filled) = encode-Filled t values bs fs gs fits in
    (
      buf,
      rw eq refl,
      filled.0,
      λ rest. rw (decode-Filled t values bs fs gs buf rest fits filled) refl,
    )
