-- ===== src/CustomTypes/Reading.antt =====
-- What the first loop of `StructTag._decode` reads, and the names of the items.
use pycomm.Base.{
  subst, take, take-append-drop, length-take, ℕ, ◌+◌, ◌-◌, ◌≤◌, ◌≡◌, arith, refl, sym, ◌∙◌, ap,
  false, List, [], ◌∷◌, ◌++◌, some, ok, Text, text_eq, Bytes, length, drop, All, length-drop,
  drop-drop,
}
use pycomm.DataTypes.Value.{Value, Fields, end, field, key_eq}
use pycomm.DataTypes.RoundTrip.Structs.{Absent, Unrepeated, append_fields}
use pycomm.CustomTypes.Codecs.{TagMember}
use pycomm.CustomTypes.Decoding.{skip, read_members, public_fields}
use pycomm.CustomTypes.Buffers.{Holds, drop-Holds}
use pycomm.CustomTypes.Layout.{Laid, laid_end, laid_public, laid_private, Different, member_names}
use pycomm.CustomTypes.Writing.{Laid-le}

-- The fields have these names.
abbrev pub Keyed : List Text → Fields → Type 0
Keyed [] end = Unit
Keyed (n ∷ ns) (field k v fs) = (k ≡ some n) × Keyed ns fs
Keyed ns fs = ⊥

pub Keyed-append :
    (ns ms : List Text) (fs gs : Fields)
    → Keyed ns fs
    → Keyed ms gs
    → Keyed (ns ++ ms) (append_fields fs gs)
unfolding append_fields
Keyed-append [] ms end gs h g = g
Keyed-append [] ms (field k v fs) gs h g = elim h [ ]
Keyed-append (n ∷ ns) ms end gs h g = elim h [ ]
Keyed-append (n ∷ ns) ms (field k v fs) gs h g = (h.0, Keyed-append ns ms fs gs h.1 g)

Keyed-Absent :
    (n : Text) (ns : List Text) (fs : Fields)
    → Keyed ns fs
    → All (λ t. text_eq n t ≡ false) ns
    → Absent (some n) fs
unfolding key_eq
Keyed-Absent n [] end h d = tt
Keyed-Absent n [] (field k v fs) h d = elim h [ ]
Keyed-Absent n (t ∷ ns) end h d = elim h [ ]
Keyed-Absent n (t ∷ ns) (field k v fs) h d =
    (ap (key_eq (some n)) h.0 ∙ d.0, Keyed-Absent n ns fs h.1 d.1)

pub Keyed-Unrepeated : (ns : List Text) (fs : Fields) → Keyed ns fs → Different ns → Unrepeated fs
Keyed-Unrepeated [] end h d = tt
Keyed-Unrepeated [] (field k v fs) h d = elim h [ ]
Keyed-Unrepeated (n ∷ ns) end h d = elim h [ ]
Keyed-Unrepeated (n ∷ ns) (field k v fs) h d = (
  subst (λ j. Absent j fs) (sym h.0) (Keyed-Absent n ns fs h.1 d.0),
  Keyed-Unrepeated ns fs h.1 d.1,
)

-- The stream over `raw`, read up to `p`, goes on at the offset `o`.
skip-eq :
    (raw : Bytes) (o p : ℕ) → p ≤ o → p ≤ length raw → skip raw o (drop p raw) ≡ (ok tt, drop o raw)
unfolding skip
skip-eq raw o p h inside =
    let told : length raw - length (drop p raw) ≡ p = omega (arith, length-drop p raw) in
    let sum : p + (o - p) ≡ o = omega arith in
    rw told (ap (λ s. (ok tt, s)) (sym (drop-drop p (o - p) raw) ∙ ap (λ n. drop n raw) sum))

split_at : (o w : ℕ) (raw : Bytes) → drop o raw ≡ take w (drop o raw) ++ drop (o + w) raw
split_at o w raw =
    sym (take-append-drop w (drop o raw))
    ∙ ap (λ t. take w (drop o raw) ++ t) (sym (drop-drop o w raw))

-- One member before the others.
read_members-eq :
    (raw : Bytes) (m : TagMember) (ms : List TagMember) (p q : ℕ) (v : Value) (all : Fields)
    (s : Bytes)
    → p ≤ m.offset
    → p ≤ length raw
    → m.codec.decode_value (drop m.offset raw) ≡ (ok v, drop q raw)
    → read_members raw ms (drop q raw) ≡ (ok all, s)
    → read_members raw (m ∷ ms) (drop p raw) ≡ (ok (field (some m.member_name) v all), s)
unfolding read_members
read_members-eq raw m ms p q v all s h inside here rest =
    rw (skip-eq raw m.offset p h inside, here, rest) refl

-- The public fields, among all items that the loop sets.
abbrev pub MembersRead : List Text → List TagMember → Fields → Bytes → ℕ → Type 0
MembersRead private ms fs raw p =
    (all : Fields) × (s : Bytes) × (read_members raw ms (drop p raw) ≡ (ok all, s))
    × (public_fields private all ≡ fs)
    × Keyed (member_names ms) all

module _ (private : List Text) (values : Fields) (raw : Bytes) where
  pub read_members-Laid :
      {k : ℕ} {ms : List TagMember} {bs : List (ℕ × Bytes)} {fs : Fields} (p : ℕ)
      → Laid private values (length raw) k ms bs fs
      → All (Holds raw) bs
      → p ≤ k
      → MembersRead private ms fs raw p
  unfolding read_members public_fields
  read_members-Laid p (laid_end h) held le = (end, drop p raw, refl, refl, tt)
  read_members-Laid p (laid_public {m = m} {ms = ms} {v = v} {b = b} hidden h g block rest) held
        le =
      let q = m.offset + length b in
      let inside : q ≤ length raw = Laid-le rest in
      let (all, s, eq, seen, keyed) = read_members-Laid q rest held.1 (omega arith) in
      let here : m.codec.decode_value (drop m.offset raw) ≡ (ok v, drop q raw) =
        ap m.codec.decode_value (drop-Holds m.offset b raw inside held.0) ∙ block.1 (drop q raw) in
      (
        field (some m.member_name) v all,
        s,
        read_members-eq raw m ms p q v all s (omega arith) (omega arith) here eq,
        rw (hidden, seen) refl,
        (refl, keyed),
      )
  read_members-Laid p (laid_private {m = m} {ms = ms} w hidden h reads rest) held le =
      let q = m.offset + w in
      let inside : q ≤ length raw = Laid-le rest in
      let (all, s, eq, seen, keyed) = read_members-Laid q rest held (omega arith) in
      let (v, read) =
        reads (take w (drop m.offset raw))
          (omega (arith, length-take w (drop m.offset raw), length-drop m.offset raw)) in
      (
        field (some m.member_name) v all,
        s,
        read_members-eq raw m ms p q v all s (omega arith) (omega arith)
            (ap m.codec.decode_value (split_at m.offset w raw) ∙ read (drop q raw)) eq,
        rw (hidden, seen) refl,
        (refl, keyed),
      )
