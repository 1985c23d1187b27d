-- ===== src/Logix/TagUpload/Complete.antt =====
-- Uploads from a controller that serves its tags in pages.
use pycomm.Logix.TagUpload.Order.{
  Increasing, starting_at, bound_after, bound_after-le, bound_after-Increasing,
  starting_at-Increasing, starting_at-bound_after, starting_at_twice, All-front, All-back,
  last_instance_of-bound_after,
}
use pycomm.Base.{
  ℕ, zero, suc, ◌/◌, ◌^◌, ◌<◌, ◌≤◌, ◌≡◌, refl, sym, ap, ◌∙◌, subst, arith, ◌⊎◌, inl, inr, Bool,
  true, List, [], ◌∷◌, ◌++◌, append_assoc, append-nil, none, some, Text, text, text_eq, Bytes,
  length, length-append, All, Result, ok, raise_as, response_error,
}
use pycomm.Base.Ints.{pos}
use pycomm.DataTypes.RoundTrip.Numbers.{encode_byte}
use pycomm.Paths.Segments.{
  logical, LogicalValue, logical_number, logical_bytes, encode_logical, encode_segment,
  encode_segments, encode_path, table_get,
}
use pycomm.Paths.ReadBack.Items.{IsWidth, number_bytes}
use pycomm.Logix.Symbols.{Symbol, has_access}
use pycomm.Logix.Symbols.ReadBack.{FitsEntry, page_bytes, decode_symbols-page}
use pycomm.Logix.TagUpload.{
  ListReply, list_request, upload, get_instance_attribute_list, next_instance, attributes, go_on,
}

-- A controller with these symbols: a request for those from a number on, 0 or one that leaves some, is answered with a page of them, and with
-- status 0 if it is the last one, else with status 6, with at least one symbol, and with others behind it.
abbrev pub ServesSymbols :
    (Text → Bool) → (List Bytes → Bytes → Result ListReply) → Bool → List Symbol → Type 0
ServesSymbols is_ip_address respond with_access symbols =
    (sent : List Bytes) (start : ℕ) (message : Bytes)
    → list_request is_ip_address with_access none start ≡ ok message
    → (start ≡ 0) ⊎ (0 < length (starting_at start symbols))
    → (page rest : List Symbol) × (status : ℕ) × (respond sent message
        ≡ ok (record { valid = true; status = some status; reply_data = page_bytes page }))
      × (page ++ rest ≡ starting_at start symbols)
      × (((rest ≡ []) × (status ≡ 0)) ⊎ ((0 < length page) × (0 < length rest) × (status ≡ 6)))

module _ (is_ip_address : Text → Bool) where
  segment_of_width :
      (n : ℕ) (v : Bytes)
      → logical_number (pos n) ≡ ok v
      → IsWidth v
      → (b : Bytes) × (encode_segment is_ip_address
            (logical (LogicalValue.number (pos n)) (text "instance_id"))
            true
          ≡ ok b)
        × (length b ≤ 6)
  unfolding encode_segment encode_logical logical_bytes table_get text_eq
  segment_of_width n (x ∷ []) e w = (0x24 ∷ x ∷ [], rw e refl, omega arith)
  segment_of_width n (x ∷ y ∷ []) e w = (0x25 ∷ 0 ∷ x ∷ y ∷ [], rw e refl, omega arith)
  segment_of_width n (x ∷ y ∷ z ∷ u ∷ []) e w =
      (0x27 ∷ 0 ∷ x ∷ y ∷ z ∷ u ∷ [], rw e refl, omega arith)
  segment_of_width n v e w = elim w [ ]

  class_segment :
      encode_segment is_ip_address (logical (LogicalValue.raw (0x6B ∷ [])) (text "class_id")) true
      ≡ ok (0x20 ∷ 0x6B ∷ [])
  unfolding encode_segment encode_logical logical_bytes table_get text_eq
  class_segment = refl

  list_request_ok :
      (with_access : Bool) (n : ℕ)
      → n < 2 ^ 32
      → (m : Bytes) × (list_request is_ip_address with_access none n ≡ ok m)
  unfolding list_request encode_path encode_segments
  list_request_ok with_access n h =
      let (v, e, w, _) = number_bytes n h in
      let (b, eb, small) = segment_of_width n v e w in
      let body : Bytes = 0x20 ∷ 0x6B ∷ (b ++ []) in
      (
        0x55 ∷ ((length body / 2 ∷ body) ++ attributes with_access),
        rw
            (
              class_segment,
              eb,
              encode_byte (length body / 2) (omega (arith, length-append b [], small)),
            )
            refl,
      )

  module _ (respond : List Bytes → Bytes → Result ListReply) (with_access : Bool) where
    turn :
        (fuel : ℕ) (sent : List Bytes) (lo : ℕ) (before page : List Symbol) (message : Bytes)
        (status : ℕ)
        → list_request is_ip_address with_access none lo ≡ ok message
        → respond sent message
          ≡ ok (record { valid = true; status = some status; reply_data = page_bytes page })
        → All (FitsEntry with_access) page
        → upload is_ip_address respond (suc fuel) with_access none sent lo before
          ≡ go_on (next_instance (some status) page) (before ++ page) (λ n.
            upload is_ip_address respond fuel with_access none
              (sent ++ (message ∷ []))
              n
              (before ++ page))
    unfolding upload
    turn fuel sent lo before page message status em er fits =
        rw (em, er, decode_symbols-page with_access page fits) refl

    last_turn :
        (fuel : ℕ) (sent : List Bytes) (lo : ℕ) (before page : List Symbol) (message : Bytes)
        (status : ℕ)
        → list_request is_ip_address with_access none lo ≡ ok message
        → respond sent message
          ≡ ok (record { valid = true; status = some status; reply_data = page_bytes page })
        → All (FitsEntry with_access) page
        → status ≡ 0
        → upload is_ip_address respond (suc fuel) with_access none sent lo before
          ≡ ok (before ++ page)
    last_turn fuel sent lo before page message status em er fits zero_status =
        rw (zero_status) at (turn fuel sent lo before page message status em er fits)

    next_turn :
        (fuel : ℕ) (sent : List Bytes) (lo : ℕ) (before page : List Symbol) (message : Bytes)
        (status : ℕ)
        → list_request is_ip_address with_access none lo ≡ ok message
        → respond sent message
          ≡ ok (record { valid = true; status = some status; reply_data = page_bytes page })
        → All (FitsEntry with_access) page
        → status ≡ 6
        → 0 < length page
        → upload is_ip_address respond (suc fuel) with_access none sent lo before
          ≡ upload is_ip_address respond fuel with_access none
              (sent ++ (message ∷ []))
              (bound_after lo page)
              (before ++ page)
    next_turn fuel sent lo before page message status em er fits six some_page =
        rw (six, last_instance_of-bound_after lo page some_page) at
          (turn fuel sent lo before page message status em er fits)

    module _ (symbols : List Symbol)
        (serves : ServesSymbols is_ip_address respond with_access symbols) where
      upload_rest :
          (fuel : ℕ) (sent : List Bytes) (lo : ℕ) (before rest : List Symbol)
          → All (FitsEntry with_access) rest
          → Increasing lo rest
          → before ++ rest ≡ symbols
          → starting_at lo symbols ≡ rest
          → lo < 2 ^ 32
          → (lo ≡ 0) ⊎ (0 < length rest)
          → length rest < fuel
          → upload is_ip_address respond fuel with_access none sent lo before ≡ ok symbols
      upload_rest zero sent lo before rest fits increasing all from low asked enough =
          absurd (omega arith)
      upload_rest (suc fuel) sent lo before rest fits increasing all from low asked enough =
          let (message, em) = list_request_ok with_access lo low in
          let (page, after, status, er, cut, ends) = serves sent lo message em (still asked) in
          let whole : rest ≡ page ++ after = sym (cut ∙ from) in
          let fits' = subst (All (FitsEntry with_access)) whole fits in
          let inc' = subst (Increasing lo) whole increasing in
          let fits_page = All-front (FitsEntry with_access) page after fits' in
          let grown : (before ++ page) ++ after ≡ symbols =
            append_assoc before page after ∙ ap (λ r. before ++ r) (sym whole) ∙ all in
          elim ends [
            | inl (none_left, zero_status) ↦
                last_turn fuel sent lo before page message status em er fits_page zero_status
                ∙ ap ok (
                    sym (append-nil (before ++ page))
                    ∙ ap (λ r. (before ++ page) ++ r) (sym none_left)
                    ∙ grown)
            | inr (some_page, more, six) ↦
                let next = bound_after lo page in
                let inc_after = bound_after-Increasing lo page after inc' in
                next_turn fuel sent lo before page message status em er fits_page six some_page
                ∙ upload_rest fuel (sent ++ (message ∷ [])) next (before ++ page) after
                    (All-back (FitsEntry with_access) page after fits') inc_after grown
                    (sym (starting_at_twice lo next symbols (bound_after-le lo page after inc'))
                      ∙ ap (starting_at next) (from ∙ whole)
                      ∙ starting_at-bound_after lo page after inc')
                    (first-lt next after more inc_after
                      (All-back (FitsEntry with_access) page after fits'))
                    (inr more) (omega (arith, ap length whole, length-append page after, some_page))
          ]
        where
          still : (lo ≡ 0) ⊎ (0 < length rest) → (lo ≡ 0) ⊎ (0 < length (starting_at lo symbols))
          still (inl first) = inl first
          still (inr some_left) = inr (omega (arith, some_left, ap length from))

          first-lt :
              (lo : ℕ) (ss : List Symbol)
              → 0 < length ss
              → Increasing lo ss
              → All (FitsEntry with_access) ss
              → lo < 2 ^ 32
          first-lt lo [] h inc f = absurd (omega arith)
          first-lt lo (s ∷ ss) h inc f = omega (arith, inc.0, f.0.0)

-- Uploading the tags of a controller that serves them in pages, in the order of their numbers, ends after at most one
-- request more than there are tags, and the result is the whole list.
pub get_instance_attribute_list-ServesSymbols :
    (is_ip_address : Text → Bool) (respond : List Bytes → Bytes → Result ListReply)
    (revision fuel : ℕ) (symbols : List Symbol)
    → ServesSymbols is_ip_address respond (has_access revision) symbols
    → All (FitsEntry (has_access revision)) symbols
    → Increasing 0 symbols
    → length symbols < fuel
    → get_instance_attribute_list is_ip_address respond fuel revision none ≡ ok symbols
unfolding get_instance_attribute_list
get_instance_attribute_list-ServesSymbols is_ip_address respond revision fuel symbols serves fits
      increasing enough =
    ap (raise_as response_error) (
      upload_rest is_ip_address respond (has_access revision) symbols serves fuel [] 0 [] symbols
        fits increasing refl (starting_at-Increasing 0 symbols increasing) (omega arith) (inl refl)
        enough)
