-- ===== src/Logix/Templates/Gathered.antt =====
-- The loop over the members of a template, all at once.
use pycomm.Base.{
  subst, ◌+◌, ◌≡◌, refl, sym, ◌∙◌, ap, arith, inl, inr, Bool, true, false, List, [], ◌∷◌, ◌++◌,
  append_assoc, append-nil, if◌then◌else◌, Text, text_eq, All, All-append, Bool-cases,
}
use pycomm.CustomTypes.Layout.{Different}
use pycomm.Logix.Templates.Types.{elementary, Members, no_tags, member, MemberInfo}
use pycomm.Logix.Templates.Parse.{Parts, put_tag, add_member, add_members, place, array_class}
use pycomm.Logix.Templates.Entries.{
  Entry, names_of, info_of, infos_of, tags_of, is_bool, classes_of, bits_of, bit_member,
  append_tags, append_tags_assoc, append_classes, append_classes_assoc, append_classes_none,
  append_class_member-eq, TagLacks, BitLacks, put_tag-TagLacks, put_bit_member-BitLacks,
  after_entries, Shown,
}

add_member-Shown :
    (predefine : Bool) (n : Text) (info : MemberInfo) (p : Parts)
    → Shown predefine n
    → add_member predefine n info p
      ≡ place info.bit n info (record p {
        internal_tags = put_tag n info p.internal_tags;
        attributes = p.attributes ++ (n ∷ []);
      })
unfolding add_member
add_member-Shown predefine [] info p h = absurd h
add_member-Shown predefine (c ∷ cs) info p h =
    let same : p.unknown_count + 0 ≡ p.unknown_count = omega arith in rw (h, same) refl

place_bit :
    (e : Entry) (p : Parts)
    → is_bool e ≡ true
    → TagLacks e.entry_name p.internal_tags
    → BitLacks e.entry_name p.bit_members
    → place (info_of e).bit e.entry_name (info_of e) (record p {
      internal_tags = put_tag e.entry_name (info_of e) p.internal_tags;
      attributes = p.attributes ++ (e.entry_name ∷ []);
    })
      ≡ after_entries p (e ∷ [])
unfolding tags_of classes_of bits_of
place_bit e p is tags bits =
    rw
      (
        put_tag-TagLacks e.entry_name (info_of e) p.internal_tags tags,
        is,
        put_bit_member-BitLacks (bit_member e) p.bit_members bits,
        append_classes_none p.struct_members,
      )
      refl

place_class :
    (e : Entry) (p : Parts)
    → is_bool e ≡ false
    → TagLacks e.entry_name p.internal_tags
    → place (info_of e).bit e.entry_name (info_of e) (record p {
      internal_tags = put_tag e.entry_name (info_of e) p.internal_tags;
      attributes = p.attributes ++ (e.entry_name ∷ []);
    })
      ≡ after_entries p (e ∷ [])
unfolding tags_of classes_of bits_of
place_class e p is tags =
    rw
      (
        put_tag-TagLacks e.entry_name (info_of e) p.internal_tags tags,
        is,
        append-nil,
        append_class_member-eq p.struct_members e.entry_name
            (array_class e.type_info (elementary e.entry_type)) e.entry_offset,
      )
      refl

add_member-eq :
    (predefine : Bool) (e : Entry) (p : Parts)
    → Shown predefine e.entry_name
    → TagLacks e.entry_name p.internal_tags
    → BitLacks e.entry_name p.bit_members
    → add_member predefine e.entry_name (info_of e) p ≡ after_entries p (e ∷ [])
add_member-eq predefine e p shown tags bits = elim (Bool-cases (is_bool e)) [
  | inl is ↦
      add_member-Shown predefine e.entry_name (info_of e) p shown ∙ place_bit e p is tags bits
  | inr is ↦ add_member-Shown predefine e.entry_name (info_of e) p shown ∙ place_class e p is tags
]

append_tags_none : (ts : Members) → append_tags ts no_tags ≡ ts
unfolding append_tags
append_tags_none no_tags = refl
append_tags_none (member k t c o b a rest) = ap (member k t c o b a) (append_tags_none rest)

after_entries_none : (p : Parts) → after_entries p [] ≡ p
unfolding tags_of classes_of bits_of
after_entries_none p =
    rw
      (
        append_tags_none p.internal_tags,
        append_classes_none p.struct_members,
        append-nil p.attributes,
        append-nil p.bit_members,
      )
      refl

classes_of-step :
    (e : Entry) (es : List Entry)
    → append_classes (classes_of (e ∷ [])) (classes_of es) ≡ classes_of (e ∷ es)
unfolding classes_of append_classes
classes_of-step e es = elim (Bool-cases (is_bool e)) [ inl is ↦ rw is refl | inr is ↦ rw is refl ]

bits_of-step : (e : Entry) (es : List Entry) → bits_of (e ∷ []) ++ bits_of es ≡ bits_of (e ∷ es)
unfolding bits_of
bits_of-step e es = elim (Bool-cases (is_bool e)) [ inl is ↦ rw is refl | inr is ↦ rw is refl ]

tags_of-step :
    (e : Entry) (es : List Entry) → append_tags (tags_of (e ∷ [])) (tags_of es) ≡ tags_of (e ∷ es)
unfolding tags_of append_tags
tags_of-step e es = refl

after_entries_twice :
    (p : Parts) (e : Entry) (es : List Entry)
    → after_entries (after_entries p (e ∷ [])) es ≡ after_entries p (e ∷ es)
after_entries_twice p e es =
    rw
      (
        append_tags_assoc p.internal_tags (tags_of (e ∷ [])) (tags_of es),
        tags_of-step e es,
        append_classes_assoc p.struct_members (classes_of (e ∷ [])) (classes_of es),
        classes_of-step e es,
        append_assoc p.attributes (e.entry_name ∷ []) (names_of es),
        append_assoc p.bit_members (bits_of (e ∷ [])) (bits_of es),
        bits_of-step e es,
      )
      refl

TagLacks-append :
    (n : Text) (ts : Members) (e : Entry)
    → text_eq e.entry_name n ≡ false
    → TagLacks n ts
    → TagLacks n (append_tags ts (tags_of (e ∷ [])))
unfolding append_tags tags_of
TagLacks-append n no_tags e differ h = (differ, tt)
TagLacks-append n (member k t c o b a rest) e differ h = (h.0, TagLacks-append n rest e differ h.1)

BitLacks-one :
    (n : Text) (e : Entry) → text_eq e.entry_name n ≡ false → BitLacks n (bits_of (e ∷ []))
unfolding bits_of
BitLacks-one n e differ = elim (Bool-cases (is_bool e)) [
  | inl is ↦ subst (λ b. BitLacks n (if b then bit_member e ∷ [] else [])) (sym is) (differ, tt)
  | inr is ↦ subst (λ b. BitLacks n (if b then bit_member e ∷ [] else [])) (sym is) tt
]

-- Two conditions on the same names.
both :
    {P Q R : Text → Type 0} (ns : List Text)
    → ((n : Text) → P n → Q n → R n)
    → All P ns
    → All Q ns
    → All R ns
both [] f p q = tt
both (n ∷ ns) f p q = (f n p.0 q.0, both ns f p.1 q.1)

-- Entries with shown names that differ are gathered in order; more names than members do not count.
pub add_members-eq :
    (predefine : Bool) (es : List Entry) (extra : List Text) (p : Parts)
    → All (Shown predefine) (names_of es)
    → Different (names_of es)
    → All (λ n. TagLacks n p.internal_tags) (names_of es)
    → All (λ n. BitLacks n p.bit_members) (names_of es)
    → add_members predefine (names_of es ++ extra) (infos_of es) p ≡ after_entries p es
unfolding add_members
add_members-eq predefine [] [] p shown different tags bits = sym (after_entries_none p)
add_members-eq predefine [] (n ∷ extra) p shown different tags bits = sym (after_entries_none p)
add_members-eq predefine (e ∷ es) extra p shown different tags bits =
    let next = after_entries p (e ∷ []) in
    ap (add_members predefine (names_of es ++ extra) (infos_of es))
      (add_member-eq predefine e p shown.0 tags.0 bits.0)
    ∙ add_members-eq predefine es extra next shown.1 different.1
        (both (names_of es) (λ n d h. TagLacks-append n p.internal_tags e d h) different.0 tags.1)
        (both (names_of es)
          (λ n d h.
            All-append (λ m. text_eq m.bit_name n ≡ false) p.bit_members (bits_of (e ∷ [])) h
              (BitLacks-one n e d))
          different.0 bits.1)
    ∙ after_entries_twice p e es
