-- ===== src/Logix/Fragments.antt =====
-- `_send_write_fragmented` and `_send_read_fragmented` of pycomm3/logix_driver.py: a value that is
-- too long for one packet is moved in pieces.
pub mod Write
pub mod Read
use pycomm.Base.{
  text_eq, ℕ, suc, zero, ◌+◌, ◌-◌, Bool, true, false, ◌&&◌, List, [], ◌∷◌, ◌++◌, Option, none, some,
  ◌==◌, ltb, if◌then◌else◌, Bytes, length, slice, take, drop, join, Result, ok, err, ◌>>=◌,
  other_error, diverges,
}

-- The parts of a `WriteTagFragmentedRequestPacket` that differ from piece to piece.
pub record Piece : Type 0 where
  pub offset : ℕ
  pub value : Bytes

-- `value or request.value` in `from_request`.
abbrev pub or_whole : Bytes → Bytes → Bytes
or_whole [] whole = whole
or_whole (b ∷ bs) whole = b ∷ bs

-- What came back: `valid` is `bool(response)`, the last one stands for the response that is returned.
pub record WriteOutcome : Type 0 where
  pub sent : List Piece
  pub succeeded : Bool

-- `request.value[i : i + step] for i in range(0, len(request.value), step)`, for a positive step.
unfoldable pub segments_from : ℕ → ℕ → ℕ → Bytes → List Bytes
segments_from zero i step value = []
segments_from (suc fuel) i step value =
    let rest = segments_from fuel (i + step) step value in
    if ltb i (length value) then slice i (i + step) value ∷ rest else []

-- There are at most as many steps as bytes.
unfoldable pub segments : ℕ → Bytes → List Bytes
segments step value = segments_from (length value) 0 step value

-- `send` is what the target answers: whether the reply to the last of the pieces sent so far is
-- valid, or the exception of a socket that fails.
module _ (send : List Piece → Result Bool) where
  unfoldable pub send_segments : Bytes → ℕ → List Piece → Bool → List Bytes → Result WriteOutcome
  send_segments whole offset sent valid [] = ok (record { sent = sent; succeeded = valid })
  send_segments whole offset sent valid (s ∷ ss) =
      let sent' = sent ++ (record { offset = offset; value = or_whole s whole } ∷ []) in
      send sent' >>= λ v. send_segments whole (offset + length s) sent' (valid && v) ss

  -- Without a segment there is no `responses[-1]`.
  unfoldable pub send_all : Bytes → List Bytes → Result WriteOutcome
  send_all whole [] = err other_error
  send_all whole (s ∷ ss) = send_segments whole 0 [] true (s ∷ ss)

  -- `_send_write_fragmented`; `message_size` is the length of the message that is built first. `range`
  -- refuses a step of 0, and with a negative one there is no segment.
  unfoldable pub send_write_fragmented : ℕ → ℕ → Bool → Bytes → Result WriteOutcome
  send_write_fragmented connection_size message_size has_error value =
      if has_error
      then ok (record { sent = []; succeeded = false })
      else let overhead = message_size - length value in
        if ltb overhead connection_size
        then send_all value (segments (connection_size - overhead) value)
        else err other_error

-- What `_send_read_fragmented` uses of a `ReadTagFragmentedResponsePacket`: `bool(response)`, its
-- service status and its data.
pub record ReadReply : Type 0 where
  pub valid : Bool
  pub status : Option ℕ
  pub reply_data : Option Bytes

-- `STRUCTURE_READ_REPLY` of pycomm3/const.py.
abbrev pub structure_read_reply : Bytes
structure_read_reply = 0xA0 ∷ 0x02 ∷ []

-- `ReadTagFragmentedResponsePacket._parse_reply`: `_data_type` and `value_bytes`.
unfoldable pub split_data : Bytes → Bytes × Bytes
split_data bytes =
    if text_eq (take 2 bytes) structure_read_reply
    then (take 4 bytes, drop 4 bytes)
    else (take 2 bytes, drop 2 bytes)

abbrev split_reply : Option Bytes → Result (Bytes × Bytes)
split_reply none = err other_error
split_reply (some bytes) = ok (split_data bytes)

-- `response.service_status == INSUFFICIENT_PACKETS`
abbrev pub has_more : Option ℕ → Bool
has_more none = false
has_more (some s) = s == 6

-- `respond` is what the target answers to the last of the offsets asked for so far.
module _ (respond : List ℕ → Result ReadReply) where
  -- The loop: the replies so far are kept as the list of their `value_bytes` and whether all of them
  -- are valid. The result is what `parse_value` parses, `_data_type + value_bytes`, or none for the
  -- failed response.
  unfoldable pub read_pieces : ℕ → ℕ → List ℕ → List Bytes → Bool → Result (Option Bytes)
  read_pieces zero offset asked parts valid = err diverges
  read_pieces (suc fuel) offset asked parts valid =
      let asked' = asked ++ (offset ∷ []) in
      respond asked' >>= λ r. split_reply r.reply_data >>= λ d.
      if has_more r.status
      then read_pieces fuel (offset + length d.1) asked' (parts ++ (d.1 ∷ [])) (valid && r.valid)
      else ok (if valid && r.valid then some (d.0 ++ join (parts ++ (d.1 ∷ []))) else none)

  unfoldable pub send_read_fragmented : ℕ → Bool → Result (Option Bytes)
  send_read_fragmented fuel has_error = if has_error then ok none else read_pieces fuel 0 [] [] true
