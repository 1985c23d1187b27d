-- ===== src/Slc/Directory/Whole.antt =====
-- The directory file, read in pieces.
use pycomm.Base.{
  ℕ, zero, suc, ◌+◌, ◌-◌, ◌*◌, ◌/◌, ◌<◌, ◌≤◌, ◌≡◌, refl, sym, ap, ◌∙◌, arith, ◌⊎◌, inl, inr, List,
  [], ◌∷◌, ◌++◌, Option, none, some, ltb, if-true, if-false, Bytes, length, length-take,
  length-drop, take, take-append-drop, length-append, append-nil, append_assoc, drop, drop_past,
  drop-drop, Result, ok, lt→ltb, le→ltb,
}
use pycomm.DataTypes.Integers.{uint, usint}
use pycomm.DataTypes.RoundTrip.Numbers.{encode-InRange}
use pycomm.Slc.Messages.{command, request_status}
use pycomm.Slc.Directory.{
  read_directory, directory_message, offset_field, chunk_size, Sys0Info, read_whole_file_directory,
}

-- A controller that holds `file`: a request for bytes that the file has is answered with them. The offset counts
-- words.
abbrev pub ServesFile :
    (List Bytes → Bytes → Result (Option Bytes)) → (ℕ → ℕ) → Bytes → ℕ → Bytes → Type 0
ServesFile respond numbers start file_type file =
    (sent : List Bytes) (size offset : ℕ) (message : Bytes)
    → directory_message start (numbers (length sent)) file_type size offset ≡ ok message
    → 0 < size
    → 2 * offset + size ≤ length file
    → (raw : Bytes) × (respond sent message ≡ ok (some raw))
      × (request_status (some raw) ≡ none)
      × (drop 61 raw ≡ take size (drop (2 * offset) file))

offset_field_ok : (offset : ℕ) → offset < 65536 → (b : Bytes) × (offset_field offset ≡ ok b)
unfolding offset_field
offset_field_ok offset h = elim (below offset) [
  | inl small ↦
      let (b, e, len) = encode-InRange usint offset small in
      (b, if-true (ltb offset 256) _ _ (lt→ltb offset 256 small) ∙ e)
  | inr large ↦
      let (b, e, len) = encode-InRange uint offset h in
      (0xFF ∷ b, if-false (ltb offset 256) _ _ (le→ltb offset 256 large) ∙ rw e refl)
]
  where
    below : (n : ℕ) → (n < 256) ⊎ (256 ≤ n)
    below n = omega arith

message_ok :
    (start : Bytes) (transaction file_type size offset : ℕ)
    → transaction < 65536
    → size < 256
    → offset < 65536
    → (m : Bytes) × (directory_message start transaction file_type size offset ≡ ok m)
unfolding directory_message command
message_ok start transaction file_type size offset ht hs ho =
    let (s, es, _) = encode-InRange usint size hs in
    let (o, eo) = offset_field_ok offset ho in
    let (t, et, _) = encode-InRange uint transaction ht in
    (start ++ (0x0F ∷ 0x00 ∷ (t ++ (0xA1 ∷ (s ++ (0x00 ∷ file_type ∷ o))))), rw (es, eo, et) refl)

front_grows :
    (file acc chunk : Bytes) (size : ℕ)
    → chunk ≡ take size (drop (length acc) file)
    → length (acc ++ chunk) ≡ length acc + size
    → acc ++ drop (length acc) file ≡ file
    → (acc ++ chunk) ++ drop (length (acc ++ chunk)) file ≡ file
front_grows file acc chunk size e len front =
    append_assoc acc chunk (drop (length (acc ++ chunk)) file)
    ∙ ap (λ r. acc ++ r)
        (ap (λ n. chunk ++ drop n file) len
          ∙ ap (λ r. chunk ++ r) (drop-drop (length acc) size file)
          ∙ ap (λ c. c ++ drop size (drop (length acc) file)) e
          ∙ take-append-drop size (drop (length acc) file))
    ∙ front

module _ (respond : List Bytes → Bytes → Result (Option Bytes)) (numbers : ℕ → ℕ) (start : Bytes)
    (file_type : ℕ) where
  -- One turn.
  turn :
      (fuel size : ℕ) (sent : List Bytes) (offset : ℕ) (acc message raw : Bytes)
      → length acc < size
      → directory_message start
          (numbers (length sent))
          file_type
          (chunk_size (size - length acc))
          offset
        ≡ ok message
      → respond sent message ≡ ok (some raw)
      → request_status (some raw) ≡ none
      → read_directory respond numbers start (suc fuel) sent file_type size offset acc
        ≡ read_directory respond numbers start fuel
            (sent ++ (message ∷ []))
            file_type
            size
            (offset + length (drop 61 raw) / 2)
            (acc ++ drop 61 raw)
  unfolding read_directory
  turn fuel size sent offset acc message raw h em er es =
      if-true (ltb (length acc) size) _ _ (lt→ltb (length acc) size h) ∙ rw (em, er, es) refl

  done :
      (fuel size : ℕ) (sent : List Bytes) (offset : ℕ) (acc : Bytes)
      → size ≤ length acc
      → read_directory respond numbers start (suc fuel) sent file_type size offset acc ≡ ok acc
  unfolding read_directory
  done fuel size sent offset acc h =
      if-false (ltb (length acc) size) _ _ (le→ltb (length acc) size h)

  module _ (file : Bytes) (serves : ServesFile respond numbers start file_type file)
      (short : length file ≤ 131072) (sequence : (n : ℕ) → numbers n < 65536) where
    -- What is read so far is the front of the file, and its length is even before the last turn.
    read_rest :
        (fuel : ℕ) (sent : List Bytes) (offset : ℕ) (acc : Bytes)
        → acc ++ drop (length acc) file ≡ file
        → length acc ≤ length file
        → (length acc < length file → length acc ≡ 2 * offset)
        → length file - length acc < fuel
        → read_directory respond numbers start fuel sent file_type (length file) offset acc
          ≡ ok file
    read_rest zero sent offset acc front le even enough = absurd (omega arith)
    read_rest (suc fuel) sent offset acc front le even enough =
        elim (compared (length acc) (length file)) [
          | inl more ↦
              let size = chunk_size (length file - length acc) in
              let bounds : (0 < size)
                  × (size ≤ 80)
                  × (length acc + size ≤ length file)
                  × (length acc + size < length file → size ≡ 80) =
                ground (arith, more) in
              let at : length acc ≡ 2 * offset = even more in
              let (message, em) =
                message_ok start (numbers (length sent)) file_type size offset
                  (sequence (length sent)) (omega (arith, bounds))
                  (omega (arith, at, more, short)) in
              let (raw, er, es, ed) =
                serves sent size offset message em bounds.0 (omega (arith, bounds, at)) in
              let chunk = drop 61 raw in
              let ec : chunk ≡ take size (drop (length acc) file) =
                ed ∙ ap (λ m. take size (drop m file)) (sym at) in
              let lc : length chunk ≡ size = omega (
                arith,
                ap length ec,
                length-take size (drop (length acc) file),
                length-drop (length acc) file,
                bounds,
              ) in
              let la : length (acc ++ chunk) ≡ length acc + size =
                omega (arith, length-append acc chunk, lc) in
              turn fuel (length file) sent offset acc message raw more em er es
              ∙ read_rest fuel (sent ++ (message ∷ [])) (offset + length chunk / 2) (acc ++ chunk)
                  (front_grows file acc chunk size ec la front) (omega (arith, la, bounds))
                  (λ again. omega (arith, la, lc, at, bounds.3 (omega (arith, la, again))))
                  (omega (arith, la, bounds))
          | inr end ↦
              done fuel (length file) sent offset acc end
              ∙ ap ok (
                  sym (append-nil acc)
                  ∙ ap (λ r. acc ++ r) (sym (drop_past (length acc) file end))
                  ∙ front)
        ]
      where
        compared : (m n : ℕ) → (m < n) ⊎ (n ≤ m)
        compared m n = omega arith

-- Reading the whole directory from a controller that holds a file of at most 131072 bytes ends after at most as many
-- turns as the file has bytes and one, and the result is the file, byte by byte.
pub read_whole_file_directory-ServesFile :
    (respond : List Bytes → Bytes → Result (Option Bytes)) (numbers : ℕ → ℕ) (start : Bytes)
    (info : Sys0Info) (file : Bytes) (fuel : ℕ)
    → ServesFile respond numbers start info.file_type file
    → length file ≤ 131072
    → ((n : ℕ) → numbers n < 65536)
    → length file < fuel
    → read_whole_file_directory respond numbers start fuel info (length file) ≡ ok file
unfolding read_whole_file_directory
read_whole_file_directory-ServesFile respond numbers start info file fuel serves short sequence
      enough =
    read_rest respond numbers start info.file_type file serves short sequence fuel [] 0 [] refl
      (omega arith) (λ _. omega arith) (omega arith)
