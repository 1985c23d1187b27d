-- ===== src/Packets/Frame.antt =====
-- `RequestPacket` of pycomm3/packets/base.py and its subclasses in pycomm3/packets/ethernetip.py: the
-- message of a packet, and the frame around it.
pub mod Layout
use pycomm.Base.{
  ℕ, zero, suc, ◌+◌, Bool, true, false, ◌||◌, List, [], ◌∷◌, ◌++◌, Option, none, some,
  if◌then◌else◌, Bytes, length, join, Result, ok, err, ◌>>=◌, raise_as, comm_error,
}
use pycomm.Base.Ints.{ℤ, pos}
use pycomm.DataTypes.Integers.{uint, udint}
use pycomm.DataTypes.Encode.{encode_int}

-- The attributes of a packet that building its message reads and writes.
pub record Packet : Type 0 where
  pub message : Bytes
  pub msg_setup : Bool
  pub msg : List Bytes
  pub added : List Bytes

-- `RequestPacket.__init__`
abbrev pub new_packet : Packet
new_packet = record { message = []; msg_setup = false; msg = []; added = [] }

-- `RequestPacket.add`
unfoldable pub add : List Bytes → Packet → Packet
add value p = record p { added = p.added ++ value }

-- `build_message`: `parts` is what the `_setup_message` of the packet's class appends to `_msg`, and
-- `sets_flag` whether it calls that of RequestPacket, as all but RegisterSessionRequestPacket's do.
unfoldable pub build_message : List Bytes → Bool → Packet → Packet
build_message parts sets_flag p =
    let msg' = if p.msg_setup then p.msg else (p.msg ++ parts) ++ p.added in
    record p { msg_setup = p.msg_setup || sets_flag; msg = msg'; message = join msg' }

-- The classes of requests.
pub data Kind : Type 0 where
  send_unit_data send_rr_data register_session unregister_session list_identity : Kind

-- `_encap_command`, of EncapsulationCommands in pycomm3/cip/services.py
abbrev pub encap_command : Kind → Bytes
encap_command send_unit_data = 0x70 ∷ 0x00 ∷ []
encap_command send_rr_data = 0x6F ∷ 0x00 ∷ []
encap_command register_session = 0x65 ∷ 0x00 ∷ []
encap_command unregister_session = 0x66 ∷ 0x00 ∷ []
encap_command list_identity = 0x63 ∷ 0x00 ∷ []

-- `RequestPacket._build_common_packet_format`: the timeout, and an address and a data item.
unfoldable pub common_packet : Bytes → Bytes → Option Bytes → Bytes → Result Bytes
common_packet address_type message_type addr_data message = do
  addr ← (elim addr_data [
    | none ↦ ok (0x00 ∷ 0x00 ∷ [])
    | some a ↦ encode_int uint (pos (length a)) >>= λ len. ok (len ++ a)
  ])
  len ← encode_int uint (pos (length message))
  ok (
      join (
        (0 ∷ 0 ∷ 0 ∷ 0 ∷ [])
        ∷ (0x0A ∷ 0x00 ∷ [])
        ∷ (0x02 ∷ 0x00 ∷ [])
        ∷ address_type
        ∷ addr
        ∷ message_type
        ∷ len
        ∷ message
        ∷ []))

-- The overridden `_build_common_packet_format` of each class.
unfoldable pub build_common : Kind → Bytes → Option Bytes → Result Bytes
build_common send_unit_data message addr =
    common_packet (0xA1 ∷ 0x00 ∷ []) (0xB1 ∷ 0x00 ∷ []) addr message
build_common send_rr_data message addr =
    common_packet (0x00 ∷ 0x00 ∷ []) (0xB2 ∷ 0x00 ∷ []) none message
build_common register_session message addr = ok message
build_common unregister_session message addr = ok []
build_common list_identity message addr = ok []

-- `_build_header`
unfoldable pub build_header : Bytes → ℕ → ℤ → Bytes → ℤ → Result Bytes
build_header command len session_id context option = raise_as comm_error do
  l ← encode_int uint (pos len)
  s ← encode_int udint session_id
  o ← encode_int udint option
  ok (join (command ∷ l ∷ s ∷ (0 ∷ 0 ∷ 0 ∷ 0 ∷ []) ∷ context ∷ o ∷ []))

-- `build_request`, for a message that `build_message` has built.
unfoldable pub build_request : Kind → Bytes → Option Bytes → ℤ → Bytes → ℤ → Result Bytes
build_request kind message target_cid session_id context option = do
  common ← build_common kind message target_cid
  header ← build_header (encap_command kind) (length common) session_id context option
  ok (header ++ common)
