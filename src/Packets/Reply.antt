-- ===== src/Packets/Reply.antt =====
-- `ResponsePacket` of pycomm3/packets/base.py and its subclasses in pycomm3/packets/ethernetip.py: what
-- a reply says, and whether it is valid.
pub mod Validity
use pycomm.Base.{
  ℕ, ◌-◌, ◌+◌, Bool, true, false, ◌&&◌, ◌||◌, not, List, [], ◌∷◌, Option, none, some, ◌==◌, leb,
  if◌then◌else◌, Bytes, take, drop, slice, Result, Error, ok, err, ◌>>=◌, data_error,
}
use pycomm.Base.Ints.{ℤ, pos, negsuc}
use pycomm.DataTypes.Integers.{dint, usint, udint}
use pycomm.DataTypes.Decode.{decode_int, natural}

-- The texts of `error`, by where they come from: `_error`, a status of the command or of the service.
pub data Message : Type 0 where
  no_response parse_failed unknown_error : Message
  command_status_text : ℤ → Message
  service_status_text : ℕ → Message
  set_by_driver : Message

-- `service` is the code of a service that `Services` knows.
pub record Response : Type 0 where
  pub raw : Bytes
  pub error : Option Message
  pub command : Option Bytes
  pub command_status : Option ℤ
  pub service : Option ℕ
  pub service_status : Option ℕ
  pub reply_data : Option Bytes
  pub session : Option ℕ

abbrev pub new_response : Response
new_response = record {
  raw = [];
  error = none;
  command = none;
  command_status = none;
  service = none;
  service_status = none;
  reply_data = none;
  session = none;
}

-- The codes of `Services` in pycomm3/cip/services.py.
abbrev pub service_codes : List ℕ
service_codes =
    0x01 ∷ 0x02 ∷ 0x03 ∷ 0x04 ∷ 0x05 ∷ 0x06 ∷ 0x07 ∷ 0x08 ∷ 0x09 ∷ 0x0A ∷ 0x0D ∷ 0x0E ∷ 0x10 ∷ 0x11
    ∷ 0x14 ∷ 0x15 ∷ 0x16 ∷ 0x17 ∷ 0x18 ∷ 0x19 ∷ 0x1A ∷ 0x1B ∷ 0x1C ∷ 0x4C ∷ 0x52 ∷ 0x4D ∷ 0x53
    ∷ 0x4E ∷ 0x55 ∷ []

unfoldable pub is_among : List ℕ → ℕ → Bool
is_among [] x = false
is_among (y ∷ ys) x = y == x || is_among ys x

-- `Services.get(Services.from_reply(code))`: a code below 128 does not encode as USINT.
unfoldable pub service_of_reply : ℕ → Result (Option ℕ)
service_of_reply code =
    if leb 128 code
    then ok (if is_among service_codes (code - 128) then some (code - 128) else none)
    else err data_error

unfoldable pub store_status : Result ℤ → Response → Response
store_status (ok status) r = record r { command_status = some status }
store_status (err e) r = record r { error = some parse_failed }

-- `ResponsePacket._parse_reply`, with its handler.
unfoldable pub parse_base : Bytes → Response → Response
parse_base raw r =
    store_status (decode_int dint (slice 8 12 raw)).0
      (record r { raw = raw; command = some (take 2 raw) })

-- What is stored before the first of the three steps that fails.
unfoldable pub store_service : Result (Option ℕ) → Result ℤ → Bytes → Response → Response
store_service (err e) status rest r = record r { error = some parse_failed }
store_service (ok s) (err e) rest r = record r { service = s; error = some parse_failed }
store_service (ok s) (ok z) rest r = record r {
  service = s;
  service_status = some (natural z);
  reply_data = some rest;
}

-- The lines that follow in the subclasses for connected and unconnected messages: the service stands
-- at `at`, its status two bytes on, and the data behind the size of the extended status.
unfoldable pub parse_service : ℕ → Bytes → Response → Response
parse_service at raw r =
    let code = (decode_int usint (slice at (at + 1) raw)).0 in
    store_service (code >>= λ z. service_of_reply (natural z))
      (decode_int usint (slice (at + 2) (at + 3) raw)).0 (drop (at + 4) raw) r

-- The classes of responses.
pub data ReplyKind : Type 0 where
  base send_unit_data send_rr_data register_session : ReplyKind

unfoldable pub parse_session : Bytes → Response → Response
parse_session raw r = elim ((decode_int udint (slice 4 8 raw)).0) [
  | ok z ↦ record r { session = some (natural z) }
  | err e ↦ record r { error = some parse_failed }
]

-- `_parse_reply` of each class.
unfoldable pub parse_reply : ReplyKind → Bytes → Response → Response
parse_reply base raw r = parse_base raw r
parse_reply send_unit_data raw r = parse_service 46 raw (parse_base raw r)
parse_reply send_rr_data raw r = parse_service 40 raw (parse_base raw r)
parse_reply register_session raw r = parse_session raw (parse_base raw r)

-- `__init__`: `none` is no reply.
unfoldable pub make_response : ReplyKind → Option Bytes → Response
make_response kind none = record new_response { error = some no_response }
make_response kind (some raw) = parse_reply kind raw new_response

abbrev is_none {ℓ} : {A : Type ℓ} → Option A → Bool
is_none none = true
is_none (some a) = false

abbrev is_success : Option ℤ → Bool
is_success (some (pos n)) = n == 0
is_success _ = false

abbrev status_is : ℕ → Option ℕ → Bool
status_is n none = false
status_is n (some m) = m == n

-- `self.service in MULTI_PACKET_SERVICES`
abbrev is_multi_packet : Option ℕ → Bool
is_multi_packet none = false
is_multi_packet (some s) = is_among (0x52 ∷ 0x53 ∷ 0x55 ∷ 0x0A ∷ 0x03 ∷ []) s

unfoldable pub base_valid : Response → Bool
base_valid r = is_none r.error && (not (is_none r.command) && is_success r.command_status)

-- `is_valid` of each class: SUCCESS is 0 and INSUFFICIENT_PACKETS is 6.
unfoldable pub is_valid : ReplyKind → Response → Bool
is_valid base r = base_valid r
is_valid send_unit_data r =
    base_valid r
    && (status_is 0 r.service_status || status_is 6 r.service_status && is_multi_packet r.service)
is_valid send_rr_data r = base_valid r && status_is 0 r.service_status
is_valid register_session r = base_valid r && not (is_none r.session)

abbrev failed_service : Option ℕ → Message
failed_service none = unknown_error
failed_service (some s) = if s == 0 then unknown_error else service_status_text s

abbrev failed_status : Option ℤ → Option ℕ → Message
failed_status none s = failed_service s
failed_status (some (pos n)) s = if n == 0 then failed_service s else command_status_text (pos n)
failed_status (some z) s = command_status_text z

-- The property `error`.
unfoldable pub error_of : ReplyKind → Response → Option Message
error_of kind r = if is_valid kind r then none else elim r.error [
  | some m ↦ some m
  | none ↦ some (failed_status r.command_status r.service_status)
]
