-- ===== src/Sockets.antt =====
-- `Socket` of pycomm3/socket_.py: the loops around the operating system's `send` and `recv`.
pub mod Loops
use pycomm.Base.{
  take, ℕ, zero, suc, ◌+◌, ◌==◌, ltb, leb, if◌then◌else◌, List, [], ◌∷◌, ◌++◌, Bytes, length, drop,
  slice, Result, ok, err, comm_error, other_error, diverges,
}
use pycomm.DataTypes.Integers.{of_le}

-- `HEADER_SIZE` of pycomm3/const.py.
abbrev pub header_size : ℕ
header_size = 24

-- `accepts` is how many of the bytes that it is given the system takes, or the error that it raises;
-- it may depend on everything that has been given to it before.
module _ (accepts : List Bytes → Result ℕ) where
  abbrev pub accepted : Result ℕ → Result ℕ
  accepted (ok n) = if n == 0 then err comm_error else ok n
  accepted (err diverges) = err diverges
  accepted (err e) = err comm_error

  abbrev on_sent : Result ℕ → (ℕ → Result ℕ × Bytes) → Bytes → Result ℕ × Bytes
  on_sent (ok n) next wire = next n
  on_sent (err e) next wire = (err e, wire)

  -- The loop of `send`: `given` are the bytes that the system was given at each call, and `wire` those
  -- that it took of them, which stand beside the result.
  unfoldable pub send_from : ℕ → Bytes → ℕ → List Bytes → Bytes → Result ℕ × Bytes
  send_from zero msg total given wire = (err diverges, wire)
  send_from (suc fuel) msg total given wire =
      let rest = drop total msg in
      let given' = given ++ (rest ∷ []) in
      let more =
        on_sent (accepted (accepts given'))
          (λ sent. send_from fuel msg (total + sent) given' (wire ++ take sent rest)) wire in
      if ltb total (length msg) then more else (ok total, wire)

  -- `send`: each turn sends at least one byte.
  unfoldable pub send : Bytes → Result ℕ × Bytes
  send msg = send_from (suc (length msg)) msg 0 [] []

-- The loop of `receive`: `chunks` is what `recv` returns, one after the other; the end of the list is
-- a timeout. The result has the chunks that are left.
unfoldable pub receive_more : ℕ → Bytes → List Bytes → Result (Bytes × List Bytes)
receive_more data_len bytes [] =
    if ltb (length bytes) (data_len + header_size) then err comm_error else ok (bytes, [])
receive_more data_len bytes (c ∷ cs) =
    let longer = receive_more data_len (bytes ++ c) cs in
    if ltb (length bytes) (data_len + header_size) then longer else ok (bytes, c ∷ cs)

-- `receive`: the length is unpacked from the first chunk, which raises struct.error if it is too short.
unfoldable pub receive : List Bytes → Result (Bytes × List Bytes)
receive [] = err comm_error
receive (c ∷ cs) =
    if ltb (length c) 4 then err other_error else receive_more (of_le (slice 2 4 c)) c cs
