-- ===== src/Paths/TagPaths.antt =====
-- The request path of a symbolic tag name, from the text of the name to the items of the path.
use pycomm.Base.{
  if◌then◌else◌, ltb, ℕ, ◌/◌, ◌^◌, ◌<◌, ◌≡◌, refl, text_eq, Bool, false, List, [], ◌∷◌, ◌++◌,
  append_assoc, Option, some, Text, Bytes, length, All, ok, err, data_error,
}
use pycomm.Base.Ints.{pos}
use pycomm.Base.Strings.{contains, join_with, int_of, utf8}
use pycomm.Base.Splitting.{
  Lacks, Lacks-append, Lacks-cons, Lacks-join_with, contains-middle, before-middle, after-middle,
  split-join_with, drop_last-snoc,
}
use pycomm.Paths.Segments.{Segment, data_segment, symbol, table_get}
use pycomm.Paths.Requests.{
  find_tag_index, member_segment, member_segments, attr_segments, tag_segments_of, tag_segments,
  tag_request_path,
}
use pycomm.Paths.Reader.{Item, object, read_items}
use pycomm.Paths.ReadBack.{Denotes, AllDenote, encode_path-reads}

-- An index as it is written, and its number.
pub record Index : Type 0 where
  pub written : Text
  pub number : ℕ

-- A name between two dots, its bytes, and the indices behind it.
pub record Part : Type 0 where
  pub name : Text
  pub chars : Bytes
  pub indices : List Index

pub record IsIndex (i : Index) : Type 0 where
  pub parses : int_of i.written ≡ ok (pos i.number)
  pub fits : i.number < 2 ^ 32
  pub no_comma : Lacks b',' i.written
  pub no_dot : Lacks b'.' i.written

pub record IsPart (p : Part) : Type 0 where
  pub encodes : utf8 p.name ≡ ok p.chars
  pub short : length p.chars < 256
  pub no_dot : Lacks b'.' p.name
  pub no_bracket : Lacks b'[' p.name
  pub indices : All IsIndex p.indices

abbrev written_all : List Index → List Text
written_all [] = []
written_all (i ∷ is) = i.written ∷ written_all is

abbrev bracketed : Text → List Index → Text
bracketed name [] = name
bracketed name (i ∷ is) = name ++ (b'[' ∷ (join_with b',' (written_all (i ∷ is)) ++ (b']' ∷ [])))

-- A part as it is written: `name` or `name[i,j]`.
abbrev pub part_text : Part → Text
part_text p = bracketed p.name p.indices

abbrev pub part_texts : List Part → List Text
part_texts [] = []
part_texts (p ∷ ps) = part_text p ∷ part_texts ps

commas : (is : List Index) → All IsIndex is → All (Lacks b',') (written_all is)
commas [] h = tt
commas (i ∷ is) h = (h.0.no_comma, commas is h.1)

dots : (is : List Index) → All IsIndex is → All (Lacks b'.') (written_all is)
dots [] h = tt
dots (i ∷ is) h = (h.0.no_dot, dots is h.1)

find_bracketed :
    (name : Text) (is : List Index)
    → Lacks b'[' name
    → All IsIndex is
    → find_tag_index (bracketed name is) ≡ (name, written_all is)
unfolding find_tag_index
find_bracketed name [] h his = rw h
find_bracketed name (i ∷ is) h his =
    let inside : Text = join_with b',' (written_all (i ∷ is)) in
    rw (
      contains-middle b'[' name (inside ++ (b']' ∷ [])),
      ← append_assoc name (b'[' ∷ inside) (b']' ∷ []),
      drop_last-snoc (name ++ (b'[' ∷ inside)) b']',
      before-middle b'[' name inside h,
      after-middle b'[' name inside h,
      split-join_with b',' i.written (written_all is) (commas (i ∷ is) his),
    )

bracketed-dots :
    (name : Text) (is : List Index)
    → Lacks b'.' name
    → All IsIndex is
    → Lacks b'.' (bracketed name is)
bracketed-dots name [] h his = h
bracketed-dots name (i ∷ is) h his =
    let inside : Text = join_with b',' (written_all (i ∷ is)) in
    Lacks-append b'.' name (b'[' ∷ (inside ++ (b']' ∷ []))) h (
      Lacks-cons b'.' b'[' (inside ++ (b']' ∷ [])) refl (
        Lacks-append b'.' inside (b']' ∷ [])
          (Lacks-join_with b'.' b',' (written_all (i ∷ is)) refl (dots (i ∷ is) his))
          (unfold contains in refl)))

parts-dots : (ps : List Part) → All IsPart ps → All (Lacks b'.') (part_texts ps)
parts-dots [] h = tt
parts-dots (p ∷ ps) h = (bracketed-dots p.name p.indices h.0.no_dot h.0.indices, parts-dots ps h.1)

abbrev index_items : List Index → List Item
index_items [] = []
index_items (i ∷ is) = object 2 i.number ∷ index_items is

-- The items of the path: each name, with its indices as member numbers behind it.
abbrev pub part_items : List Part → List Item
part_items [] = []
part_items (p ∷ ps) = Item.symbol p.chars ∷ (index_items p.indices ++ part_items ps)

abbrev index_segments : List Index → List Segment
index_segments [] = []
index_segments (i ∷ is) = member_segment (pos i.number) ∷ index_segments is

abbrev part_segments : List Part → List Segment
part_segments [] = []
part_segments (p ∷ ps) =
    data_segment (symbol p.name) ∷ (index_segments p.indices ++ part_segments ps)

member_segments-eq :
    (is : List Index) → All IsIndex is → member_segments (written_all is) ≡ ok (index_segments is)
unfolding member_segments
member_segments-eq [] h = refl
member_segments-eq (i ∷ is) h = rw (h.0.parses, member_segments-eq is h.1)

attr_segments-eq :
    (ps : List Part) → All IsPart ps → attr_segments (part_texts ps) ≡ ok (part_segments ps)
unfolding attr_segments
attr_segments-eq [] h = refl
attr_segments-eq (p ∷ ps) h = rw (
  find_bracketed p.name p.indices h.0.no_bracket h.0.indices,
  member_segments-eq p.indices h.0.indices,
  attr_segments-eq ps h.1,
)

tag_segments-eq :
    (p : Part) (ps : List Part) (inst : Option ℕ)
    → All IsPart (p ∷ ps)
    → tag_segments (join_with b'.' (part_texts (p ∷ ps))) inst false ≡ ok (part_segments (p ∷ ps))
unfolding tag_segments tag_segments_of
tag_segments-eq p ps inst h = rw (
  split-join_with b'.' (part_text p) (part_texts ps) (parts-dots (p ∷ ps) h),
  find_bracketed p.name p.indices h.0.no_bracket h.0.indices,
  member_segments-eq p.indices h.0.indices,
  attr_segments-eq ps h.1,
)

member-Denotes :
    (is_ip_address : Text → Bool) (i : Index)
    → IsIndex i
    → Denotes is_ip_address (member_segment (pos i.number)) (object 2 i.number)
unfolding table_get text_eq
member-Denotes is_ip_address i h = (8, refl, refl, refl, h.fits)

indices_denote :
    (is_ip_address : Text → Bool) (is : List Index) (ss : List Segment) (items : List Item)
    → All IsIndex is
    → AllDenote is_ip_address ss items
    → AllDenote is_ip_address (index_segments is ++ ss) (index_items is ++ items)
indices_denote is_ip_address [] ss items h d = d
indices_denote is_ip_address (i ∷ is) ss items h d =
    (member-Denotes is_ip_address i h.0, indices_denote is_ip_address is ss items h.1 d)

parts_denote :
    (is_ip_address : Text → Bool) (ps : List Part)
    → All IsPart ps
    → AllDenote is_ip_address (part_segments ps) (part_items ps)
parts_denote is_ip_address [] h = tt
parts_denote is_ip_address (p ∷ ps) h = (
  (h.0.encodes, h.0.short),
  indices_denote is_ip_address p.indices (part_segments ps) (part_items ps) h.0.indices
      (parts_denote is_ip_address ps h.1),
)

-- The request path of a tag written as names joined by dots, with indices in brackets, reads back
-- as exactly those names and numbers, in order, behind the count of its words; a path of 512 bytes
-- or more raises DataError. This is the path without instance ids. The path is the padded one, not the packed one
-- of the docstring of `tag_request_path`, which also says that errors return None; and an index of more
-- than 16 bits is written with four bytes, though pycomm3/cip/data_types.py notes that these are only
-- valid for instance ids and connection points.
pub tag_request_path-reads :
    (is_ip_address : Text → Bool) (p : Part) (ps : List Part) (inst : Option ℕ)
    → All IsPart (p ∷ ps)
    → (body : Bytes) × (read_items (length (part_items (p ∷ ps))) body ≡ some (part_items (p ∷ ps)))
      × (tag_request_path is_ip_address (join_with b'.' (part_texts (p ∷ ps))) inst false
          ≡ (if ltb (length body) 512 then ok ((length body / 2) ∷ body) else err data_error))
unfolding tag_request_path
tag_request_path-reads is_ip_address p ps inst h =
    let (body, back, even, path) =
      encode_path-reads is_ip_address (part_segments (p ∷ ps)) (part_items (p ∷ ps))
        (parts_denote is_ip_address (p ∷ ps) h) in
    let segments = tag_segments-eq p ps inst h in (body, back, rw segments path)
