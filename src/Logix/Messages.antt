-- ===== src/Logix/Messages.antt =====
-- The messages of the tag services of pycomm3/packets/logix.py.
pub mod Pieces
use pycomm.Base.{
  ℕ, Bool, true, false, List, [], ◌∷◌, ◌++◌, Option, none, some, Bytes, Result, ok, err, ◌>>=◌,
  get_or_raise, other_error, request_error,
}
use pycomm.Base.Ints.{pos}
use pycomm.DataTypes.Integers.{uint, udint}
use pycomm.DataTypes.Encode.{encode_int}

-- The type that a write names: the handle of a structure, or the code of an elementary type, if there is one of
-- that name.
pub data WriteType : Type 0 where
  structure : ℕ → WriteType
  elementary : Option ℕ → WriteType

-- `_packed_data_type`
unfoldable pub packed_data_type : WriteType → Result Bytes
packed_data_type (structure handle) = do h ← encode_int uint (pos handle); ok (0xA0 ∷ 0x02 ∷ h)
packed_data_type (elementary none) = err request_error
packed_data_type (elementary (some code)) = encode_int uint (pos code)

-- The parts that `tag_only_message` joins; a path that is `None` cannot be joined.
module _ (request_path : Option Bytes) (elements : ℕ) where
  -- `ReadTagRequestPacket.tag_only_message`, with the code of the service.
  unfoldable pub read_message : ℕ → Result Bytes
  read_message tag_service = do
    path ← get_or_raise request_path other_error
    count ← encode_int uint (pos elements)
    ok (tag_service ∷ (path ++ count))

  -- `WriteTagRequestPacket.tag_only_message`
  unfoldable pub write_message : Bytes → Bytes → Result Bytes
  write_message packed value = do
    path ← get_or_raise request_path other_error
    count ← encode_int uint (pos elements)
    ok (0x4D ∷ (path ++ (packed ++ (count ++ value))))

  -- `WriteTagFragmentedRequestPacket.tag_only_message`
  unfoldable pub write_fragment_message : Bytes → ℕ → Bytes → Result Bytes
  write_fragment_message packed offset value = do
    path ← get_or_raise request_path other_error
    count ← encode_int uint (pos elements)
    at ← encode_int udint (pos offset)
    ok (0x53 ∷ (path ++ (packed ++ (count ++ (at ++ value)))))

  -- The message of a `ReadTagFragmentedRequestPacket` without its sequence number.
  unfoldable pub read_fragment_message : ℕ → Result Bytes
  read_fragment_message offset = do
    m ← read_message 0x52
    at ← encode_int udint (pos offset)
    ok (m ++ at)

-- `_setup_message`: the sequence number stands in front of what the packet adds.
unfoldable pub connected : ℕ → Result Bytes → Result Bytes
connected sequence message = do
  number ← encode_int uint (pos sequence)
  m ← message
  ok (number ++ m)
