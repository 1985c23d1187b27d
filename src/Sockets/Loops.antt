-- ===== src/Sockets/Loops.antt =====
-- The loops of pycomm3/socket_.py, for a system that makes progress.
use pycomm.Base.{
  take, take-append-drop, drop_past, drop-drop, ℕ, zero, suc, ◌+◌, ◌<◌, ◌≤◌, ◌≡◌, refl, sym, ap,
  ◌∙◌, arith, false, List, [], ◌∷◌, ◌++◌, append_assoc, append-nil, ltb, lt→ltb, le→ltb, Bool-cases,
  inl, inr, Bytes, length, length-append, length-drop, drop, slice, join, All, ok, ◌==◌,
}
use mathlib.Core.Path.{ap₂}
use pycomm.DataTypes.Integers.{of_le}
use pycomm.Sockets.{header_size, send_from, send, receive_more, receive}

-- The system takes at least one of the bytes that it is given, and no more than there are.
abbrev pub Takes : (List Bytes → ℕ) → Type 0
Takes answers =
    (given : List Bytes) (bytes : Bytes)
    → 0 < length bytes
    → (0 < answers (given ++ (bytes ∷ []))) × (answers (given ++ (bytes ∷ [])) ≤ length bytes)

sends :
    (answers : List Bytes → ℕ) (fuel : ℕ) (msg : Bytes) (total : ℕ) (given : List Bytes)
    (wire : Bytes)
    → Takes answers
    → total ≤ length msg
    → length msg < total + fuel
    → wire ++ drop total msg ≡ msg
    → send_from (λ g. ok (answers g)) fuel msg total given wire ≡ (ok (length msg), msg)
unfolding send_from
sends answers zero msg total given wire ht hl hf hw = absurd (omega arith)
sends answers (suc fuel) msg total given wire ht hl hf hw =
    let left = length-drop total msg in
    let given' = given ++ (drop total msg ∷ []) in
    elim (Bool-cases (ltb total (length msg))) [
      | inl h ↦
          let (some_bytes, bounded) = ht given (drop total msg) (ground (arith, left)) in
          rw (h, positive (answers given') some_bytes)
            (sends answers fuel msg (total + answers given') given'
              (wire ++ take (answers given') (drop total msg)) ht (omega (arith, left))
              (omega arith) (more_on_wire (answers given')))
      | inr h ↦
          let all : total ≡ length msg = ground arith in
          let ends = ap (λ z. wire ++ z) (drop_past total msg (omega arith)) in
          rw h (ap₂ (λ n w. (ok n, w)) all (sym (append-nil wire) ∙ sym ends ∙ hw))
    ]
  where
    more_on_wire : (n : ℕ) → (wire ++ take n (drop total msg)) ++ drop (total + n) msg ≡ msg
    more_on_wire n =
        append_assoc wire (take n (drop total msg)) (drop (total + n) msg)
        ∙ ap (λ z. wire ++ (take n (drop total msg) ++ z)) (drop-drop total n msg)
        ∙ ap (λ z. wire ++ z) (take-append-drop n (drop total msg))
        ∙ hw

    positive : (n : ℕ) → 0 < n → n == 0 ≡ false
    positive n h = ground arith

-- If the system takes at least one of the bytes that it is given each time, `send` ends after at most as many
-- turns as there are bytes, returns their number, and the bytes that the system took of each call, one after the
-- other, are the message.
pub send_all_bytes :
    (answers : List Bytes → ℕ) (msg : Bytes)
    → Takes answers
    → send (λ given. ok (answers given)) msg ≡ (ok (length msg), msg)
unfolding send
send_all_bytes answers msg ht =
    sends answers (suc (length msg)) msg 0 [] [] ht (omega arith) (omega arith) refl

more_received :
    (data_len : ℕ) (bytes : Bytes) (cs later : List Bytes)
    → All (λ c. 0 < length c) cs
    → length bytes + length (join cs) ≡ data_len + header_size
    → receive_more data_len bytes (cs ++ later) ≡ ok (bytes ++ join cs, later)
unfolding receive_more
more_received data_len bytes [] [] h e =
    rw (le→ltb (length bytes) (data_len + header_size) (omega (arith, e)), append-nil bytes) refl
more_received data_len bytes [] (l ∷ ls) h e =
    rw (le→ltb (length bytes) (data_len + header_size) (omega (arith, e)), append-nil bytes) refl
more_received data_len bytes (c ∷ cs) later h e =
    let all = length-append c (join cs) in
    rw (lt→ltb (length bytes) (data_len + header_size) (omega (arith, e, all, h.0))) (
      more_received data_len (bytes ++ c) cs later h.1
        (omega (arith, length-append bytes c, all, e))
      ∙ ap (λ z. ok (z, later)) (append_assoc bytes c (join cs)))

-- A frame whose length field counts what follows its header, and that arrives in chunks that are not empty,
-- is received whole, however it is cut after its first four bytes, and what arrives later is left.
pub receive-frame :
    (c : Bytes) (cs later : List Bytes)
    → 4 ≤ length c
    → All (λ d. 0 < length d) cs
    → length (c ++ join cs) ≡ of_le (slice 2 4 c) + header_size
    → receive (c ∷ (cs ++ later)) ≡ ok (c ++ join cs, later)
unfolding receive
receive-frame c cs later h hs e =
    rw (le→ltb (length c) 4 h)
      (more_received (of_le (slice 2 4 c)) c cs later hs (sym (length-append c (join cs)) ∙ e))
