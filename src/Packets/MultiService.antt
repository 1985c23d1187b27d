-- ===== src/Packets/MultiService.antt =====
-- `MultiServiceRequestPacket.build_message` and `MultiServiceResponsePacket._parse_reply` of
-- pycomm3/packets/logix.py: several messages behind a table of offsets.
pub mod Split
use pycomm.Base.{
  ℕ, zero, suc, ◌+◌, ◌*◌, List, [], ◌∷◌, ◌++◌, Option, none, some, Bytes, length, join, drop, slice,
  Result, ok, err, ◌>>=◌, other_error,
}
use pycomm.Base.Ints.{ℤ, pos}
use pycomm.DataTypes.Integers.{uint}
use pycomm.DataTypes.Encode.{encode_int}
use pycomm.DataTypes.Decode.{decode_int, natural}

-- The loop that encodes the offset of each message.
unfoldable pub encode_offsets : ℕ → List Bytes → Result Bytes
encode_offsets offset [] = ok []
encode_offsets offset (msg ∷ msgs) = do
  b ← encode_int uint (pos offset)
  rest ← encode_offsets (offset + length msg) msgs
  ok (b ++ rest)

-- What `build_message` puts behind the service and the path: the number of requests, the offsets,
-- and the messages of the requests.
unfoldable pub multi_service_data : List Bytes → Result Bytes
multi_service_data messages = do
  count ← encode_int uint (pos (length messages))
  offsets ← encode_offsets (2 + length messages * 2) messages
  ok (count ++ (offsets ++ join messages))

-- `(UINT.decode(offset_data[i : i + 2]) for i in range(0, len(offset_data), 2))`
unfoldable pub decode_offsets : Bytes → Result (List ℕ)
decode_offsets [] = ok []
decode_offsets (a ∷ []) = do z ← (decode_int uint (a ∷ [])).0; ok (natural z ∷ [])
decode_offsets (a ∷ b ∷ more) = do
  z ← (decode_int uint (a ∷ b ∷ [])).0
  rest ← decode_offsets more
  ok (natural z ∷ rest)

-- `[data[i:j] for i, j in zip_longest(start, end)]`; with no offset, `next(end)` raises.
unfoldable pub cut : Bytes → List ℕ → Result (List Bytes)
cut bytes [] = err other_error
cut bytes (i ∷ []) = ok (drop i bytes ∷ [])
cut bytes (i ∷ j ∷ js) = do rest ← cut bytes (j ∷ js); ok (slice i j bytes ∷ rest)

-- The replies in the data of a multi service reply.
unfoldable pub split_replies : Bytes → Result (List Bytes)
split_replies bytes = do
  num_replies ← (decode_int uint bytes).0
  offsets ← decode_offsets (slice 2 (2 + 2 * natural num_replies) bytes)
  cut bytes offsets
