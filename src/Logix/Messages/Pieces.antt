-- ===== src/Logix/Messages/Pieces.antt =====
-- The messages of a value that is written in pieces.
use pycomm.Base.{
  ℕ, ◌+◌, ◌-◌, ◌^◌, ◌<◌, ◌≤◌, ◌≡◌, refl, ap, subst, arith, false, List, [], ◌∷◌, ◌++◌, some, Bytes,
  Bool, length, length-append, join, All, Result, ok,
}
use pycomm.DataTypes.Integers.{uint, udint}
use pycomm.DataTypes.RoundTrip.Numbers.{encode-InRange}
use pycomm.Logix.Fragments.{Piece, send_write_fragmented}
use pycomm.Logix.Fragments.Write.{
  Consecutive, Holds, values, all_valid, send_write_fragmented-covers,
}
use pycomm.Logix.Messages.{connected, write_fragment_message}

-- The message of a piece.
abbrev pub piece_message : Bytes → ℕ → Bytes → ℕ → ℕ → Bytes → Result Bytes
piece_message path elements packed sequence offset value =
    connected sequence (write_fragment_message (some path) elements packed offset value)

abbrev overhead : Bytes → Bytes → ℕ
overhead path packed = 9 + length path + length packed

piece_message_ok :
    (path : Bytes) (elements : ℕ) (packed : Bytes) (sequence offset : ℕ) (value : Bytes)
    → elements < 65536
    → sequence < 65536
    → offset < 2 ^ 32
    → (m : Bytes) × (piece_message path elements packed sequence offset value ≡ ok m)
      × (length m ≡ overhead path packed + length value)
unfolding connected write_fragment_message
piece_message_ok path elements packed sequence offset value he hs ho =
    let (c, ec, lc) = encode-InRange uint elements he in
    let (o, eo, lo) = encode-InRange udint offset ho in
    let (s, es, ls) = encode-InRange uint sequence hs in
    (
      s ++ (0x53 ∷ (path ++ (packed ++ (c ++ (o ++ value))))),
      rw (ec, eo, es) refl,
      omega (
        arith,
        length-append s (0x53 ∷ (path ++ (packed ++ (c ++ (o ++ value))))),
        length-append path (packed ++ (c ++ (o ++ value))),
        length-append packed (c ++ (o ++ value)),
        length-append c (o ++ value),
        length-append o value,
        lc,
        lo,
        ls,
      ),
    )

-- No piece starts behind the value.
offsets-le :
    (limit o : ℕ) (ps : List Piece)
    → Consecutive o ps
    → o + length (join (values ps)) ≤ limit
    → All (λ p. p.offset ≤ limit) ps
offsets-le limit o [] h le = tt
offsets-le limit o (p ∷ ps) (h, hs) le =
    let split = length-append p.value (join (values ps)) in
    (omega (arith, h, le), offsets-le limit (o + length p.value) ps hs (omega (arith, split, le)))

-- The message of a piece is built, and fits the connection.
abbrev pub Fits : ℕ → Bytes → ℕ → Bytes → ℕ → Piece → Type 0
Fits connection_size path elements packed sequence p =
    (m : Bytes) × (piece_message path elements packed sequence p.offset p.value ≡ ok m)
    × (length m ≤ connection_size)

All-Fits :
    (connection_size limit : ℕ) (path : Bytes) (elements : ℕ) (packed : Bytes) (sequence : ℕ)
    (ps : List Piece)
    → elements < 65536
    → sequence < 65536
    → limit < 2 ^ 32
    → All (λ p. p.offset ≤ limit) ps
    → Holds (overhead path packed) connection_size ps
    → All (Fits connection_size path elements packed sequence) ps
All-Fits connection_size limit path elements packed sequence [] he hs low le fit = tt
All-Fits connection_size limit path elements packed sequence (p ∷ ps) he hs low (l, le) (f, fit) =
    let (m, e, len) =
      piece_message_ok path elements packed sequence p.offset p.value he hs
        (omega (arith, l, low)) in
    (
      (m, e, omega (arith, len, f.1)),
      All-Fits connection_size limit path elements packed sequence ps he hs low le fit,
    )

-- For a socket that does not fail, and a value of at least one byte and less than 4 GiB whose message without the
-- value leaves room in the connection: the message with the whole value is built, and when the pieces are cut by
-- its length, the value is sent, and the message of every piece is built and fits the connection.
pub send_write_fragmented-Fits :
    (answers : List Piece → Bool) (connection_size : ℕ) (path : Bytes) (elements : ℕ)
    (packed : Bytes) (first sequence : ℕ) (value : Bytes)
    → elements < 65536
    → first < 65536
    → sequence < 65536
    → 0 < length value
    → length value < 2 ^ 32
    → 9 + length path + length packed < connection_size
    → (whole : Bytes) × (ps : List Piece) × (connected first
          (write_fragment_message (some path) elements packed 0 value)
        ≡ ok whole)
      × (send_write_fragmented
            (λ sent. ok (answers sent))
            connection_size
            (length whole)
            false
            value
          ≡ ok (record { sent = ps; succeeded = all_valid answers [] ps }))
      × (join (values ps) ≡ value)
      × All (Fits connection_size path elements packed sequence) ps
send_write_fragmented-Fits answers connection_size path elements packed first sequence value he hf
      hs some_bytes low room =
    let (whole, built, len) =
      piece_message_ok path elements packed first 0 value he hf (omega arith) in
    let over : length whole - length value ≡ overhead path packed = omega (arith, len) in
    let (ps, sent, joined, consecutive, holds) =
      send_write_fragmented-covers answers connection_size (length whole) value some_bytes
        (omega (arith, over, room)) in
    (
      whole,
      ps,
      built,
      sent,
      joined,
      All-Fits connection_size (length value) path elements packed sequence ps he hs low
          (offsets-le (length value) 0 ps consecutive (omega (arith, ap length joined)))
          (subst (λ o. Holds o connection_size ps) over holds),
    )
