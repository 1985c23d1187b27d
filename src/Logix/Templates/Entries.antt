-- ===== src/Logix/Templates/Entries.antt =====
-- A structure of elementary members, as a list of entries, and what becomes of them one by one.
use pycomm.Base.{
  ℕ, ◌≡◌, refl, ap, Bool, false, List, [], ◌∷◌, ◌++◌, if◌then◌else◌, Text, text, text_eq, All,
}
use pycomm.CustomTypes.Codecs.{BitMember}
use pycomm.Logix.Templates.Types.{
  Class, ClassMembers, no_members, class_member, Members, no_tags, member, MemberInfo,
}
use pycomm.Logix.Templates.Names.{is_private_name}
use pycomm.Logix.Templates.Parse.{
  Parts, elementary_member, put_tag, put_bit_member, append_class_member,
}

-- The fields of a member, the name of its type, and its own name.
pub record Entry : Type 0 where
  pub type_info : ℕ
  pub type_code : ℕ
  pub entry_offset : ℕ
  pub entry_type : Text
  pub entry_name : Text

abbrev pub names_of : List Entry → List Text
names_of [] = []
names_of (e ∷ es) = e.entry_name ∷ names_of es

abbrev pub info_of : Entry → MemberInfo
info_of e = elementary_member e.type_info e.entry_offset e.entry_type

abbrev pub infos_of : List Entry → List MemberInfo
infos_of [] = []
infos_of (e ∷ es) = info_of e ∷ infos_of es

abbrev pub one_tag : Text → MemberInfo → Members → Members
one_tag key info rest =
    member key info.member_type info.member_class info.offset info.bit info.array rest

-- The dictionaries of the members, in order.
unfoldable pub tags_of : List Entry → Members
tags_of [] = no_tags
tags_of (e ∷ es) = one_tag e.entry_name (info_of e) (tags_of es)

abbrev pub is_bool : Entry → Bool
is_bool e = text_eq e.entry_type (text "BOOL")

-- The members that are no bits, in order.
unfoldable pub classes_of : List Entry → ClassMembers
classes_of [] = no_members
classes_of (e ∷ es) =
    let rest = classes_of es in
    if is_bool e
    then rest
    else class_member e.entry_name (info_of e).member_class e.entry_offset rest

abbrev pub bit_member : Entry → BitMember
bit_member e = record { bit_name = e.entry_name; byte_offset = e.entry_offset; bit = e.type_info }

-- The members that are bits, in order.
unfoldable pub bits_of : List Entry → List BitMember
bits_of [] = []
bits_of (e ∷ es) = let rest = bits_of es in if is_bool e then bit_member e ∷ rest else rest

unfoldable pub append_tags : Members → Members → Members
append_tags no_tags ts = ts
append_tags (member k t c o b a rest) ts = member k t c o b a (append_tags rest ts)

pub append_tags_assoc :
    (a b c : Members) → append_tags (append_tags a b) c ≡ append_tags a (append_tags b c)
unfolding append_tags
append_tags_assoc no_tags b c = refl
append_tags_assoc (member k t cl o bi ar rest) b c =
    ap (member k t cl o bi ar) (append_tags_assoc rest b c)

unfoldable pub append_classes : ClassMembers → ClassMembers → ClassMembers
append_classes no_members ms = ms
append_classes (class_member n t o rest) ms = class_member n t o (append_classes rest ms)

pub append_classes_assoc :
    (a b c : ClassMembers)
    → append_classes (append_classes a b) c ≡ append_classes a (append_classes b c)
unfolding append_classes
append_classes_assoc no_members b c = refl
append_classes_assoc (class_member n t o rest) b c =
    ap (class_member n t o) (append_classes_assoc rest b c)

pub append_classes_none : (a : ClassMembers) → append_classes a no_members ≡ a
unfolding append_classes
append_classes_none no_members = refl
append_classes_none (class_member n t o rest) = ap (class_member n t o) (append_classes_none rest)

pub append_class_member-eq :
    (ms : ClassMembers) (n : Text) (t : Class) (o : ℕ)
    → append_class_member ms n t o ≡ append_classes ms (class_member n t o no_members)
unfolding append_class_member append_classes
append_class_member-eq no_members n t o = refl
append_class_member-eq (class_member m u p rest) n t o =
    ap (class_member m u p) (append_class_member-eq rest n t o)

-- The name is no key of the dictionary, or of the bits.
abbrev pub TagLacks : Text → Members → Type 0
TagLacks n no_tags = Unit
TagLacks n (member k t c o b a rest) = (text_eq k n ≡ false) × TagLacks n rest

abbrev pub BitLacks : Text → List BitMember → Type 0
BitLacks n ms = All (λ m. text_eq m.bit_name n ≡ false) ms

pub put_tag-TagLacks :
    (n : Text) (info : MemberInfo) (ts : Members)
    → TagLacks n ts
    → put_tag n info ts ≡ append_tags ts (one_tag n info no_tags)
unfolding put_tag append_tags
put_tag-TagLacks n info no_tags h = refl
put_tag-TagLacks n info (member k t c o b a rest) h =
    rw (h.0, put_tag-TagLacks n info rest h.1) refl

pub put_bit_member-BitLacks :
    (m : BitMember) (ms : List BitMember)
    → BitLacks m.bit_name ms
    → put_bit_member m ms ≡ ms ++ (m ∷ [])
unfolding put_bit_member
put_bit_member-BitLacks m [] h = refl
put_bit_member-BitLacks m (x ∷ xs) h = rw (h.0, put_bit_member-BitLacks m xs h.1) refl

-- What the loop has gathered when the entries are added to `p`.
abbrev pub after_entries : Parts → List Entry → Parts
after_entries p es = record {
  internal_tags = append_tags p.internal_tags (tags_of es);
  attributes = p.attributes ++ names_of es;
  struct_members = append_classes p.struct_members (classes_of es);
  bit_members = p.bit_members ++ bits_of es;
  private_members = p.private_members;
  unknown_count = p.unknown_count;
}

-- A name that is neither empty nor private.
abbrev pub Shown : Bool → Text → Type 0
Shown predefine [] = ⊥
Shown predefine (c ∷ cs) = is_private_name predefine (c ∷ cs) ≡ false
