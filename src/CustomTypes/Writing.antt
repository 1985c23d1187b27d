-- ===== src/CustomTypes/Writing.antt =====
-- What the loops of `StructTag._encode` leave in the buffer.
use pycomm.Base.{
  ℕ, ◌+◌, ◌≤◌, ◌<◌, ◌≡◌, arith, refl, ◌∙◌, inl, List, some, ok, Text, Bytes, length, get_elem?, All,
}
use pycomm.DataTypes.Value.{Value, Fields, get_item}
use pycomm.CustomTypes.Codecs.{TagMember}
use pycomm.CustomTypes.Encoding.{splice, write_member, write_members}
use pycomm.CustomTypes.Buffers.{Holds, length-splice, splice_inside, splice_outside}
use pycomm.CustomTypes.Layout.{Block, Laid, laid_end, laid_public, laid_private, Outside}

-- All blocks stand in the buffer, and the bytes outside of them are as before.
abbrev pub Written : List Text → Fields → ℕ → List TagMember → List (ℕ × Bytes) → Bytes → Type 0
Written private values size ms bs buf =
    (buf' : Bytes) × (write_members private values ms buf ≡ ok buf')
    × (length buf' ≡ size)
    × All (Holds buf') bs
    × ((i : ℕ) → Outside i bs → get_elem? buf' i ≡ get_elem? buf i)

write_member-eq :
    (values : Fields) (m : TagMember) (v : Value) (b buf : Bytes)
    → get_item values (some m.member_name) ≡ ok v
    → Block m.codec v b
    → write_member values m buf ≡ ok (splice m.offset b buf)
unfolding write_member
write_member-eq values m v b buf found (enc, dec) = rw (found, enc) refl

module _ {private : List Text} {values : Fields} {size : ℕ} where
  pub Laid-le :
      {k : ℕ} {ms : List TagMember} {bs : List (ℕ × Bytes)} {fs : Fields}
      → Laid private values size k ms bs fs
      → k ≤ size
  Laid-le (laid_end h) = h
  Laid-le (laid_public p h g b rest) = omega (arith, Laid-le rest)
  Laid-le (laid_private w p h r rest) = omega (arith, Laid-le rest)

  -- No block begins before the first offset.
  Laid-Outside :
      {k : ℕ} {ms : List TagMember} {bs : List (ℕ × Bytes)} {fs : Fields} (i : ℕ)
      → Laid private values size k ms bs fs
      → i < k
      → Outside i bs
  Laid-Outside i (laid_end h) lt = tt
  Laid-Outside i (laid_public p h g b rest) lt =
      (inl (omega arith), Laid-Outside i rest (omega arith))
  Laid-Outside i (laid_private w p h r rest) lt = Laid-Outside i rest (omega arith)

  pub write_members-Laid :
      {k : ℕ} {ms : List TagMember} {bs : List (ℕ × Bytes)} {fs : Fields} (buf : Bytes)
      → Laid private values size k ms bs fs
      → length buf ≡ size
      → Written private values size ms bs buf
  unfolding write_members
  write_members-Laid buf (laid_end h) len = (buf, refl, len, tt, λ i out. refl)
  write_members-Laid buf (laid_private w p h r rest) len =
      let (buf', eq, len', held, same) = write_members-Laid buf rest len in
      (buf', rw p eq, len', held, same)
  write_members-Laid buf (laid_public {m = m} {v = v} {b = b} p h g block rest) len =
      let fits : m.offset + length b ≤ length buf = omega (arith, Laid-le rest) in
      let (buf', eq, len', held, same) =
        write_members-Laid (splice m.offset b buf) rest (length-splice m.offset b buf fits ∙ len) in
      (
        buf',
        rw (p, write_member-eq values m v b buf g block) eq,
        len',
        (
          λ i lt.
              same (m.offset + i) (Laid-Outside (m.offset + i) rest (omega arith))
              ∙ splice_inside m.offset b buf fits i lt,
          held,
        ),
        λ i out. same i out.1 ∙ splice_outside m.offset b buf fits i out.0,
      )
