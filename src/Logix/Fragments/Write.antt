-- ===== src/Logix/Fragments/Write.antt =====
-- The pieces that `_send_write_fragmented` of pycomm3/logix_driver.py sends.
use pycomm.Base.{
  ℕ, zero, suc, ◌+◌, ◌-◌, ◌<◌, ◌≤◌, ◌≡◌, refl, sym, ap, ◌∙◌, arith, Bool, true, false, ◌&&◌, List,
  [], ◌∷◌, ◌++◌, append_assoc, append-nil, ltb, lt→ltb, le→ltb, Bool-cases, inl, inr, ◌⊎◌, Bytes,
  length, take, drop, join, All, length-take, length-drop, drop_past, drop-drop, take-append-drop,
  Result, ok, err, other_error,
}
use pycomm.Logix.Fragments.{
  Piece, segments_from, segments, send_segments, send_all, send_write_fragmented,
}

-- Whether the reply to every piece is valid.
abbrev pub all_valid : (List Piece → Bool) → List Piece → List Piece → Bool
all_valid answers sent [] = true
all_valid answers sent (p ∷ ps) =
    answers (sent ++ (p ∷ [])) && all_valid answers (sent ++ (p ∷ [])) ps

-- Each piece starts where the one before it ended.
abbrev pub Consecutive : ℕ → List Piece → Type 0
Consecutive o [] = Unit {0}
Consecutive o (p ∷ ps) = (p.offset ≡ o) × Consecutive (o + length p.value) ps

abbrev pub values : List Piece → List Bytes
values [] = []
values (p ∷ ps) = p.value ∷ values ps

abbrev pieces : ℕ → List Bytes → List Piece
pieces o [] = []
pieces o (s ∷ ss) = (record { offset = o; value = s }) ∷ pieces (o + length s) ss

and_true : (b : Bool) → b && true ≡ b
and_true true = refl
and_true false = refl

and_assoc : (a b c : Bool) → (a && b) && c ≡ a && (b && c)
and_assoc true b c = refl
and_assoc false b c = refl

segments-cover :
    (fuel i step : ℕ) (value : Bytes)
    → 0 < step
    → length value ≤ i + fuel
    → (join (segments_from fuel i step value) ≡ drop i value)
      × All (λ s. (0 < length s) × (length s ≤ step)) (segments_from fuel i step value)
unfolding segments_from
segments-cover zero i step value hs hf = (sym (drop_past i value (omega arith)), tt)
segments-cover (suc fuel) i step value hs hf =
    let (whole, each) = segments-cover fuel (i + step) step value hs (omega arith) in
    let width : i + step - i ≡ step = omega arith in
    let size = length-take step (drop i value) in
    let left = length-drop i value in
    elim (Bool-cases (ltb i (length value))) [
      | inl h ↦
          rw (h, whole, width)
            (
              ap (λ t. take step (drop i value) ++ t) (drop-drop i step value)
                  ∙ take-append-drop step (drop i value),
              ((ground (arith, size, left), omega (arith, size)), each),
            )
      | inr h ↦ rw h (sym (drop_past i value (ground arith)), tt)
    ]

sends :
    (answers : List Piece → Bool) (whole : Bytes) (offset : ℕ) (sent : List Piece) (valid : Bool)
    (ss : List Bytes)
    → All (λ s. 0 < length s) ss
    → send_segments (λ ps. ok (answers ps)) whole offset sent valid ss
      ≡ ok (record {
        sent = sent ++ pieces offset ss;
        succeeded = valid && all_valid answers sent (pieces offset ss);
      })
unfolding send_segments
sends answers whole offset sent valid [] h = rw (append-nil sent, and_true valid) refl
sends answers whole offset sent valid ([] ∷ ss) h = absurd (omega (arith, h.0))
sends answers whole offset sent valid ((b ∷ bs) ∷ ss) h =
    let this : Piece = record { offset = offset; value = b ∷ bs } in
    sends answers whole (offset + length (b ∷ bs)) (sent ++ (this ∷ []))
      (valid && answers (sent ++ (this ∷ []))) ss h.1
    ∙ ap (λ r. ok r)
        (rw
          (
            append_assoc sent (this ∷ []) (pieces (offset + length (b ∷ bs)) ss),
            and_assoc valid (answers (sent ++ (this ∷ [])))
                (all_valid answers (sent ++ (this ∷ [])) (pieces (offset + length (b ∷ bs)) ss)),
          )
          refl)

pieces-Consecutive : (o : ℕ) (ss : List Bytes) → Consecutive o (pieces o ss)
pieces-Consecutive o [] = tt
pieces-Consecutive o (s ∷ ss) = (refl, pieces-Consecutive (o + length s) ss)

values-pieces : (o : ℕ) (ss : List Bytes) → values (pieces o ss) ≡ ss
values-pieces o [] = refl
values-pieces o (s ∷ ss) = ap (λ t. s ∷ t) (values-pieces (o + length s) ss)

sends-All :
    (answers : List Piece → Bool) (whole : Bytes) (ss : List Bytes)
    → 0 < length (join ss)
    → All (λ s. 0 < length s) ss
    → send_all (λ ps. ok (answers ps)) whole ss
      ≡ ok (record { sent = pieces 0 ss; succeeded = all_valid answers [] (pieces 0 ss) })
unfolding send_all
sends-All answers whole [] h hs = absurd (omega (arith, h))
sends-All answers whole (s ∷ ss) h hs = sends answers whole 0 [] true (s ∷ ss) hs

abbrev pub Holds : ℕ → ℕ → List Piece → Type 0
Holds overhead connection_size =
    All (λ p. (0 < length p.value) × (overhead + length p.value ≤ connection_size))

pieces-Holds :
    (overhead connection_size step o : ℕ) (ss : List Bytes)
    → overhead + step ≤ connection_size
    → All (λ s. (0 < length s) × (length s ≤ step)) ss
    → Holds overhead connection_size (pieces o ss)
pieces-Holds overhead connection_size step o [] fits h = tt
pieces-Holds overhead connection_size step o (s ∷ ss) fits h = (
  (h.0.0, omega (arith, h.0.1)),
  pieces-Holds overhead connection_size step (o + length s) ss fits h.1,
)

nonempty_each :
    (step : ℕ) (ss : List Bytes)
    → All (λ s. (0 < length s) × (length s ≤ step)) ss
    → All (λ s. 0 < length s) ss
nonempty_each step [] h = tt
nonempty_each step (s ∷ ss) h = (h.0.0, nonempty_each step ss h.1)

-- A value of at least one byte whose packet's other parts leave room in the connection is sent in
-- pieces that, one behind the other, are the value: each starts where the one before it ended, none is empty,
-- and each packet fits the connection. The write succeeds exactly if the reply to every piece is valid.
-- This is for a socket that does not fail.
pub send_write_fragmented-covers :
    (answers : List Piece → Bool) (connection_size message_size : ℕ) (value : Bytes)
    → 0 < length value
    → message_size - length value < connection_size
    → (ps : List Piece) × (send_write_fragmented
          (λ sent. ok (answers sent))
          connection_size
          message_size
          false
          value
        ≡ ok (record { sent = ps; succeeded = all_valid answers [] ps }))
      × (join (values ps) ≡ value)
      × Consecutive 0 ps
      × Holds (message_size - length value) connection_size ps
unfolding send_write_fragmented segments
send_write_fragmented-covers answers connection_size message_size value some_bytes room =
    let overhead : ℕ = message_size - length value in
    let step : ℕ = connection_size - overhead in
    let (whole, each) = segments-cover (length value) 0 step value (omega arith) (omega arith) in
    let ss : List Bytes = segments_from (length value) 0 step value in
    (
      pieces 0 ss,
      rw (lt→ltb overhead connection_size room)
          (sends-All answers value ss (rw whole some_bytes) (nonempty_each step ss each)),
      rw (values-pieces 0 ss) whole,
      pieces-Consecutive 0 ss,
      pieces-Holds overhead connection_size step 0 ss (omega arith) each,
    )

-- Without bytes to write, or without room for any, the write raises an exception.
send_write_fragmented-raises :
    (send : List Piece → Result Bool) (connection_size message_size : ℕ) (value : Bytes)
    → (length value ≡ 0) ⊎ (connection_size ≤ message_size - length value)
    → send_write_fragmented send connection_size message_size false value ≡ err other_error
unfolding send_write_fragmented segments segments_from send_all
send_write_fragmented-raises send connection_size message_size value (inr none_left) =
    rw (le→ltb (message_size - length value) connection_size none_left) refl
send_write_fragmented-raises send connection_size message_size (b ∷ bs) (inl no_bytes) =
    absurd (omega (arith, no_bytes))
send_write_fragmented-raises send connection_size message_size [] (inl no_bytes) =
    elim (Bool-cases (ltb (message_size - 0) connection_size)) [
      | inl h ↦ rw h refl
      | inr h ↦ rw h refl
    ]
