-- ===== src/Logix/TagRequests/BoolArrays.antt =====
-- A slice of a bool array that the user reads, from the name to the bools.
use pycomm.Base.{
  ℕ, ◌+◌, ◌-◌, ◌*◌, ◌/◌, ◌%◌, ◌<◌, ◌≤◌, ◌≡◌, refl, sym, ap, ◌∙◌, arith, Bool, true, false, [], ◌∷◌,
  ◌++◌, append_assoc, none, some, ◌==◌, ==-refl, ltb, if◌then◌else◌, Text, text, text_eq, ok,
}
use pycomm.Base.Ints.{pos, floor_div, has_remainder, ◌+ℤ◌}
use pycomm.Base.Strings.{contains, starts_with, ends_with, int_of}
use pycomm.Base.Splitting.{
  Lacks, Lacks-append, Lacks-cons, contains-middle, before-middle, split-Lacks, split-middle,
  drop_last-snoc,
}
use pycomm.Utilities.{strip_array, rsplit, get_array_index}
use pycomm.DataTypes.Value.{Values, list, count, take_values, drop_values}
use pycomm.Logix.Results.{read_result, value_result, bools_result, slice_values, bound, array_name}
use pycomm.Logix.TagRequests.{
  atomic, Tags, lookup, get_tag_info, TagRequest, split_elements, split_base, last_bit, dwords,
  make_request, parse_tag_request,
}

module _ (c : ℕ) where
  ends_with-snoc : (s : Text) → ends_with c (s ++ (c ∷ [])) ≡ true
  unfolding ends_with
  ends_with-snoc [] = ==-refl c
  ends_with-snoc (x ∷ []) = ==-refl c
  ends_with-snoc (x ∷ y ∷ ys) = ends_with-snoc (y ∷ ys)

  rsplit-Lacks : (s : Text) → Lacks c s → rsplit c s ≡ none
  unfolding rsplit contains
  rsplit-Lacks [] h = refl
  rsplit-Lacks (x ∷ xs) h = ground (arith, rsplit-Lacks xs (ground arith))

  rsplit-middle : (s t : Text) → Lacks c t → rsplit c (s ++ (c ∷ t)) ≡ some (s, t)
  unfolding rsplit
  rsplit-middle [] t h = ground (arith, rsplit-Lacks t h)
  rsplit-middle (x ∷ xs) t h = rw (rsplit-middle xs t h) refl

-- `name[index]`
abbrev pub indexed : Text → Text → Text
indexed name index = name ++ (b'[' ∷ (index ++ (b']' ∷ [])))

-- `tag{count}`
abbrev pub counted : Text → Text → Text
counted tag n = tag ++ (b'{' ∷ (n ++ (b'}' ∷ [])))

ends_with-closed :
    (close open_ : ℕ) (s t : Text) → ends_with close (s ++ (open_ ∷ (t ++ (close ∷ [])))) ≡ true
ends_with-closed close open_ s t =
    ap (ends_with close) (sym (append_assoc s (open_ ∷ t) (close ∷ [])))
    ∙ ends_with-snoc close (s ++ (open_ ∷ t))

Lacks-one : (c d : ℕ) → (d == c) ≡ false → Lacks c (d ∷ [])
Lacks-one c d h = Lacks-cons c d [] h (unfold contains in refl)

split_elements-counted :
    (tag ns : Text) (n : ℕ)
    → Lacks b'{' tag
    → Lacks b'{' ns
    → int_of ns ≡ ok (pos n)
    → split_elements (counted tag ns) ≡ ok (tag, some (pos n))
unfolding split_elements
split_elements-counted tag ns n ht hn e =
    rw
      (
        ends_with-closed b'}' b'{' tag ns,
        contains-middle b'{' tag (ns ++ (b'}' ∷ [])),
        split-middle b'{' tag (ns ++ (b'}' ∷ [])) ht,
        split-Lacks b'{' (ns ++ (b'}' ∷ []))
            (Lacks-append b'{' ns (b'}' ∷ []) hn (Lacks-one b'{' b'}' refl)),
        drop_last-snoc ns b'}',
        e,
      )
      refl

get_array_index-indexed :
    (name is : Text) (i : ℕ)
    → Lacks b'[' is
    → int_of is ≡ ok (pos i)
    → get_array_index (indexed name is) ≡ ok (name, some (pos i))
unfolding get_array_index
get_array_index-indexed name is i h e =
    rw
      (
        ends_with-closed b']' b'[' name is,
        rsplit-middle b'[' name (is ++ (b']' ∷ []))
            (Lacks-append b'[' is (b']' ∷ []) h (Lacks-one b'[' b']' refl)),
        drop_last-snoc is b']',
        e,
      )
      refl

-- The request for a slice: it reads from the first DWORD to the one with the last bit.
abbrev pub slice_request : Text → Text → ℕ → ℕ → TagRequest
slice_request name is i n = record {
  user_tag = indexed name is;
  plc_tag = name ++ text "[0]";
  bit = some (pos i);
  elements = dwords (some (pos i)) (pos n);
  tag_info = atomic (text "DWORD");
  bool_elements = some (pos n);
}

plus_if :
    (q : ℕ) (b : Bool) → (pos q) +ℤ (if b then pos 1 else pos 0) ≡ pos (q + (if b then 1 else 0))
unfolding ◌+ℤ◌
plus_if q true = refl
plus_if q false = refl

-- The number of DWORDs that hold so many bits.
abbrev pub words_for : ℕ → ℕ
words_for bits = (bits + 31) / 32

dwords-words_for : (i n : ℕ) → dwords (some (pos i)) (pos n) ≡ pos (words_for (i + n))
unfolding dwords floor_div has_remainder ◌+ℤ◌
dwords-words_for i n = plus_if ((i + n) / 32) (ltb 0 ((i + n) % 32)) ∙ ap pos (ground arith)

not_one : (n : ℕ) → 1 < n → (n == 1) ≡ false
not_one n h = ground arith

parse_slice :
    (tags : Tags) (name is ns : Text) (i n : ℕ)
    → Lacks b'.' (indexed name is)
    → Lacks b'{' (indexed name is)
    → Lacks b'[' name
    → Lacks b'[' is
    → Lacks b'{' ns
    → starts_with (text "Program:") (indexed name is) ≡ false
    → int_of is ≡ ok (pos i)
    → int_of ns ≡ ok (pos n)
    → 1 < n
    → lookup tags name ≡ some (atomic (text "DWORD"))
    → parse_tag_request tags true (counted (indexed name is) ns) ≡ ok (slice_request name is i n)
unfolding parse_tag_request split_base last_bit get_tag_info make_request text_eq strip_array
parse_slice tags name is ns i n dot brace bracket bracket' brace' no_program ei en h found =
    rw
      (
        split_elements-counted (indexed name is) ns n brace brace' en,
        split-Lacks b'.' (indexed name is) dot,
        no_program,
        contains-middle b'[' name (is ++ (b']' ∷ [])),
        before-middle b'[' name (is ++ (b']' ∷ [])) bracket,
        found,
        get_array_index-indexed name is i bracket' ei,
      )
      (rw (not_one n h) refl)

-- The bools of a slice, of values that reach to its end.
slice_values-within :
    (i n : ℕ) (vs : Values)
    → i + n ≤ count vs
    → slice_values (pos i) (pos (i + n)) vs ≡ take_values n (drop_values i vs)
unfolding slice_values
slice_values-within i n vs h =
    let lo : bound (count vs) (pos i) ≡ i = ground arith in
    let hi : bound (count vs) (pos (i + n)) ≡ i + n = ground arith in
    let len : i + n - i ≡ n = omega arith in rw (lo, hi, len) refl

-- A slice of a bool array, `name[is]{ns}` with a count of at least 2, where `name` is known as an array of DWORDs:
-- it is read from the first DWORD on, as many DWORDs as hold all bits up to its last one, and of the bools of these
-- DWORDs the result has the ones from the index on, as many as were asked for.
pub read_result-parse_tag_request :
    (tags : Tags) (name is ns : Text) (i n : ℕ) (vs : Values) (sent : Text)
    → Lacks b'.' (indexed name is)
    → Lacks b'{' (indexed name is)
    → Lacks b'[' name
    → Lacks b'[' is
    → Lacks b'{' ns
    → starts_with (text "Program:") (indexed name is) ≡ false
    → int_of is ≡ ok (pos i)
    → int_of ns ≡ ok (pos n)
    → 1 < n
    → lookup tags name ≡ some (atomic (text "DWORD"))
    → count vs ≡ 32 * words_for (i + n)
    → (r : TagRequest) × (parse_tag_request tags true (counted (indexed name is) ns) ≡ ok r)
      × (r.plc_tag ≡ name ++ text "[0]")
      × (r.elements ≡ pos (words_for (i + n)))
      × (read_result
            (counted (indexed name is) ns)
            (ok r)
            (some (record { tag = sent; value = some (list vs); data_type = none; failed = false }))
          ≡ record {
            tag = indexed name is;
            value = some (list (take_values n (drop_values i vs)));
            data_type = some (array_name (pos n));
            failed = false;
          })
unfolding read_result value_result bools_result text_eq ◌+ℤ◌
read_result-parse_tag_request tags name is ns i n vs sent dot brace bracket bracket' brace'
      no_program ei en h found len =
    (
      slice_request name is i n,
      parse_slice tags name is ns i n dot brace bracket bracket' brace' no_program ei en h found,
      refl,
      dwords-words_for i n,
      rw (slice_values-within i n vs (omega (arith, len))) refl,
    )
