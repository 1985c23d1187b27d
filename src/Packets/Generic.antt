-- ===== src/Packets/Generic.antt =====
-- The generic packets of pycomm3/packets/cip.py.
pub mod Decoded
use pycomm.Base.{
  ℕ, Bool, true, false, List, [], ◌∷◌, ◌++◌, Option, none, some, ltb, if◌then◌else◌, Text, Bytes,
  Result, Error, ok, err, ◌>>=◌, other_error, data_error,
}
use pycomm.Base.Ints.{ℤ, pos, negsuc}
use pycomm.DataTypes.Integers.{uint}
use pycomm.DataTypes.Encode.{encode_int}
use pycomm.DataTypes.Types.{Typ}
use pycomm.DataTypes.Value.{Value}
use pycomm.DataTypes.Decode.{decode}
use pycomm.Paths.Segments.{LogicalValue}
use pycomm.Paths.Requests.{request_path, wrap_unconnected_send}
use pycomm.Packets.Reply.{
  Response, new_response, parse_failed, no_response, ReplyKind, parse_reply, is_valid,
}

-- The arguments that both requests have.
pub record GenericRequest : Type 0 where
  pub service : LogicalValue
  pub class_code : LogicalValue
  pub instance : LogicalValue
  pub attribute : LogicalValue
  pub request_data : Bytes

-- `service if isinstance(service, bytes) else bytes([service])`
abbrev service_bytes : LogicalValue → Result Bytes
service_bytes (LogicalValue.raw b) = ok b
service_bytes (LogicalValue.number (pos n)) = if ltb n 256 then ok (n ∷ []) else err other_error
service_bytes (LogicalValue.number (negsuc n)) = err other_error

module _ (is_ip_address : Text → Bool) where
  -- `_setup_message` of `GenericConnectedRequestPacket`.
  unfoldable pub connected_message : ℕ → GenericRequest → Result Bytes
  connected_message sequence r = do
    service ← service_bytes r.service
    number ← encode_int uint (pos sequence)
    path ← request_path is_ip_address r.class_code r.instance r.attribute
    ok (number ++ (service ++ (path ++ r.request_data)))

  -- What is sent: within an Unconnected Send, or with the route behind the data.
  abbrev routed : Bool → Bytes → Bytes → Result Bytes
  routed true message route_path = wrap_unconnected_send is_ip_address message route_path
  routed false message route_path = ok (message ++ route_path)

  -- `_setup_message` of `GenericUnconnectedRequestPacket`.
  unfoldable pub unconnected_message : Bool → Bytes → GenericRequest → Result Bytes
  unconnected_message unconnected_send route_path r = do
    service ← service_bytes r.service
    path ← request_path is_ip_address r.class_code r.instance r.attribute
    routed unconnected_send (service ++ (path ++ r.request_data)) route_path

-- `value`: the bytes as they are, or what the data type decodes.
pub data GenericValue : Type 0 where
  raw_data : Bytes → GenericValue
  decoded : Value → GenericValue

pub record GenericResponse : Type 0 where
  pub response : Response
  pub value : Option GenericValue

-- `data_type.decode(self.data)`; `None` has no bytes to decode.
unfoldable pub decode_data : Typ → Option Bytes → Result Value
decode_data t none = err data_error
decode_data t (some bytes) = (decode t bytes).0

unfoldable pub store_value : Result Value → Response → GenericResponse
store_value (ok v) r = record { response = r; value = some (decoded v) }
store_value (err e) r = record { response = record r { error = some parse_failed }; value = none }

abbrev pub store_if : Bool → Typ → Response → GenericResponse
store_if true t r = store_value (decode_data t r.reply_data) r
store_if false t r = record { response = r; value = none }

abbrev data_of : Option Bytes → Option GenericValue
data_of none = none
data_of (some bytes) = some (raw_data bytes)

-- `_parse_reply`, after that of the class of the response.
unfoldable pub parse_value : ReplyKind → Option Typ → Response → GenericResponse
parse_value kind none r = record { response = r; value = data_of r.reply_data }
parse_value kind (some t) r = store_if (is_valid kind r) t r

-- `__init__`: `none` is no reply.
unfoldable pub make_generic : ReplyKind → Option Typ → Option Bytes → GenericResponse
make_generic kind data_type none = record {
  response = record new_response { error = some no_response };
  value = none;
}
make_generic kind data_type (some raw) =
    parse_value kind data_type (parse_reply kind raw new_response)
