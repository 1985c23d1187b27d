-- ===== src/Logix/Fragments/Read.antt =====
-- What `_send_read_fragmented` of pycomm3/logix_driver.py puts together.
use pycomm.Base.{
  ℕ, zero, suc, ◌+◌, ◌-◌, ◌<◌, ◌≤◌, ◌≡◌, refl, sym, ap, ◌∙◌, arith, true, false, List, [], ◌∷◌,
  ◌++◌, append_assoc, append-nil, some, inl, inr, ◌⊎◌, Bytes, length, drop, join, join-append,
  length-append, drop-append, length-drop, drop-drop, text_eq, Result, ok,
}
use pycomm.Logix.Fragments.{
  ReadReply, structure_read_reply, split_data, read_pieces, send_read_fragmented,
}

-- The data type in front of the value: two bytes, or four for a structure.
abbrev pub IsDataType : Bytes → Type 0
IsDataType t =
    ((a b : ℕ) × (t ≡ a ∷ b ∷ []) × (text_eq t structure_read_reply ≡ false))
    ⊎ ((a b : ℕ) × (t ≡ 0xA0 ∷ 0x02 ∷ a ∷ b ∷ []))

-- A target that holds `stored`: it answers an offset within it with some bytes from there and "more
-- packets", or with all the bytes from there and success.
abbrev pub Serves : Bytes → Bytes → (List ℕ → Result ReadReply) → Type 0
Serves t stored respond =
    (asked : List ℕ) (offset : ℕ)
    → offset ≤ length stored
    → (chunk : Bytes) × (rest : Bytes) × (drop offset stored ≡ chunk ++ rest)
      × (((0 < length chunk)
            × (respond (asked ++ (offset ∷ []))
                ≡ ok (record { valid = true; status = some 6; reply_data = some (t ++ chunk) })))
          ⊎ ((rest ≡ [])
              × (respond (asked ++ (offset ∷ []))
                  ≡ ok (record { valid = true; status = some 0; reply_data = some (t ++ chunk) }))))

split_data-type : (t chunk : Bytes) → IsDataType t → split_data (t ++ chunk) ≡ (t, chunk)
unfolding split_data
split_data-type t chunk (inl (a, b, e, other)) =
    rw e (rw (sym (ap (λ z. text_eq z structure_read_reply) e) ∙ other) refl)
split_data-type t chunk (inr (a, b, e)) = unfold text_eq in rw e refl

join-snoc : (parts : List Bytes) (c : Bytes) → join (parts ++ (c ∷ [])) ≡ join parts ++ c
join-snoc parts c = join-append parts (c ∷ []) ∙ ap (λ z. join parts ++ z) (append-nil c)

module _ (t stored : Bytes) (respond : List ℕ → Result ReadReply) (ht : IsDataType t)
    (serves : Serves t stored respond) where
  reads :
      (fuel offset : ℕ) (asked : List ℕ) (parts : List Bytes)
      → offset ≤ length stored
      → length stored < offset + fuel
      → join parts ++ drop offset stored ≡ stored
      → read_pieces respond fuel offset asked parts true ≡ ok (some (t ++ stored))
  unfolding read_pieces
  reads zero offset asked parts within left so_far = absurd (omega arith)
  reads (suc fuel) offset asked parts within left so_far =
      let (chunk, rest, cut, answer) = serves asked offset within in
      let size : length chunk + length rest ≡ length stored - offset =
        sym (length-append chunk rest) ∙ sym (ap length cut) ∙ length-drop offset stored in
      let after : drop (offset + length chunk) stored ≡ rest =
        drop-drop offset (length chunk) stored
        ∙ ap (drop (length chunk)) cut
        ∙ drop-append (length chunk) chunk rest refl in
      let whole : join (parts ++ (chunk ∷ [])) ++ rest ≡ stored =
        ap (λ z. z ++ rest) (join-snoc parts chunk)
        ∙ append_assoc (join parts) chunk rest
        ∙ ap (λ z. join parts ++ z) (sym cut)
        ∙ so_far in
      elim answer [
        | inl (grows, e) ↦
            rw (e, split_data-type t chunk ht)
              (reads fuel (offset + length chunk) (asked ++ (offset ∷ [])) (parts ++ (chunk ∷ []))
                (omega (arith, size)) (omega arith)
                (ap (λ z. join (parts ++ (chunk ∷ [])) ++ z) after ∙ whole))
        | inr (ends, e) ↦
            rw (e, split_data-type t chunk ht)
              (ap (λ z. ok (some (t ++ z)))
                (sym (append-nil (join (parts ++ (chunk ∷ []))))
                  ∙ ap (λ z. join (parts ++ (chunk ∷ [])) ++ z) (sym ends)
                  ∙ whole))
      ]

  -- A read in pieces of a target that holds `stored` returns exactly that, behind its data type,
  -- however the target cuts it; as many replies as there are bytes, and one, are enough.
  pub send_read_fragmented-reads :
      send_read_fragmented respond (suc (length stored)) false ≡ ok (some (t ++ stored))
  unfolding send_read_fragmented
  send_read_fragmented-reads = reads (suc (length stored)) 0 [] [] (omega arith) (omega arith) refl
