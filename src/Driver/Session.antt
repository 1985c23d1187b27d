-- ===== src/Driver/Session.antt =====
-- `CIPDriver` of pycomm3/cip_driver.py: opening and closing the session and the connection. Every
-- operation takes the driver to its result and the driver that it leaves, also when it raises.
pub mod Invariant
pub mod Closing
pub mod Fallback
use pycomm.Base.{
  ℕ, ◌+◌, ◌*◌, ◌^◌, bit_and, bit_or, Bool, true, false, ◌&&◌, not, List, [], ◌∷◌, ◌++◌, Option,
  none, some, ◌==◌, if◌then◌else◌, Text, Bytes, text, take, join, Result, Error, ok, err, ◌>>=◌,
  raise_as, comm_error, response_error,
}
use pycomm.Base.Ints.{pos}
use pycomm.DataTypes.Integers.{uint, udint}
use pycomm.DataTypes.Encode.{encode_int}
use pycomm.Paths.Segments.{Segment, logical, LogicalValue, encode_path}

-- What the driver has sent, or asked of the socket.
pub data Event : Type 0 where
  connect : Event
  register_session : Event
  forward_open : Bool → Bytes → Bytes → Event
  forward_close : Bytes → Bytes → Event
  unregister_session : Event
  close_socket : Event

-- `_sock` is there or not; `_session` is `None` between `_un_register_session` and the end of `close`.
pub record Driver : Type 0 where
  pub has_sock : Bool
  pub session : Option ℕ
  pub connection_opened : Bool
  pub target_cid : Option Bytes
  pub target_is_connected : Bool
  pub extended_forward_open : Bool
  pub connection_size : ℕ
  pub cid : Bytes
  pub vsn : Bytes
  pub csn : Bytes
  pub vid : Bytes
  pub cip_path : List Segment
  pub sent : List Event

-- `__init__`
abbrev pub new_driver : List Segment → Driver
new_driver path = record {
  has_sock = false;
  session = some 0;
  connection_opened = false;
  target_cid = none;
  target_is_connected = false;
  extended_forward_open = true;
  connection_size = 4000;
  cid = 0x27 ∷ 0x04 ∷ 0x19 ∷ 0x71 ∷ [];
  vsn = 0x09 ∷ 0x10 ∷ 0x19 ∷ 0x71 ∷ [];
  csn = 0x27 ∷ 0x04 ∷ [];
  vid = 0x09 ∷ 0x10 ∷ [];
  cip_path = path;
  sent = [];
}

-- What the network and the operating system answer to the last of the events so far. A `none` is an
-- invalid response; an error is the exception that the socket raises.
pub record Network : Type 0 where
  pub connects : List Event → Result (Unit {0})
  pub urandom : List Event → Bytes × Bytes
  pub registers : List Event → Result (Option ℕ)
  pub opens : List Event → Result (Option Bytes)
  pub closes : List Event → Result Bool
  pub unregisters : List Event → Result (Unit {0})
  pub closes_socket : List Event → Result (Unit {0})

abbrev pub Step {ℓ} : Type ℓ → Type ℓ
Step A = Result A × Driver

abbrev pub after {ℓ κ} : {A : Type ℓ} {B : Type κ} → Step A → (A → Driver → Step B) → Step B
after (ok a, d) f = f a d
after (err e, d) f = (err e, d)

abbrev pub raised_as {ℓ} : {A : Type ℓ} → Error → Step A → Step A
raised_as e (r, d) = (raise_as e r, d)

abbrev pub recorded : Event → Driver → Driver
recorded event d = record d { sent = d.sent ++ (event ∷ []) }

-- `self._session == 0`
abbrev pub is_zero : Option ℕ → Bool
is_zero none = false
is_zero (some n) = n == 0

-- `bool(self._session)`
abbrev pub has_session : Option ℕ → Bool
has_session none = false
has_session (some n) = not (n == 0)

-- `MSG_ROUTER_PATH` of pycomm3/const.py.
abbrev pub msg_router_path : List Segment
msg_router_path =
    logical (LogicalValue.raw (0x02 ∷ [])) (text "class_id")
    ∷ logical (LogicalValue.number (pos 1)) (text "instance_id")
    ∷ []

-- `net_params`: the size of the connection and its fixed attributes.
unfoldable pub net_params : Bool → ℕ → Result Bytes
net_params true size = encode_int udint (pos (bit_or (bit_and size 0xFFFF) (0x4200 * 2 ^ 16)))
net_params false size = encode_int uint (pos (bit_or (bit_and size 0x01FF) 0x4200))

abbrev pub priority_and_ticks : Bytes
priority_and_ticks = 0x0A ∷ 0x05 ∷ []

-- `forward_open_msg`
unfoldable pub forward_open_msg : Driver → Bytes → Bytes
forward_open_msg d params = join (
    priority_and_ticks
    ∷ (0 ∷ 0 ∷ 0 ∷ 0 ∷ [])
    ∷ d.cid
    ∷ d.csn
    ∷ d.vid
    ∷ d.vsn
    ∷ (0x07 ∷ [])
    ∷ (0 ∷ 0 ∷ 0 ∷ [])
    ∷ (0x01 ∷ 0x40 ∷ 0x20 ∷ 0x00 ∷ [])
    ∷ params
    ∷ (0x01 ∷ 0x40 ∷ 0x20 ∷ 0x00 ∷ [])
    ∷ params
    ∷ (0xA3 ∷ [])
    ∷ [])

-- `forward_close_msg`
unfoldable pub forward_close_msg : Driver → Bytes
forward_close_msg d = join (priority_and_ticks ∷ d.csn ∷ d.vid ∷ d.vsn ∷ [])

module _ (is_ip_address : Text → Bool) (net : Network) where
  unfoldable pub store_session : Result (Option ℕ) → Driver → Step (Option ℕ)
  store_session (ok (some s)) d = (ok (some s), record d { session = some s })
  store_session (ok none) d = (ok none, d)
  store_session (err e) d = (err e, d)

  -- `_register_session`
  unfoldable pub register : Driver → Step (Option ℕ)
  register d =
      if has_session d.session
      then (ok d.session, d)
      else let d' = recorded register_session d in store_session (net.registers d'.sent) d'

  abbrev is_registered : Option ℕ → Bool
  is_registered none = false
  is_registered (some s) = true

  unfoldable pub start_session : Result (Unit {0}) → Driver → Step Bool
  start_session (err e) d = (err e, d)
  start_session (ok u) d =
      let random = net.urandom d.sent in
      after (register (record d { connection_opened = true; cid = random.0; vsn = random.1 }))
        (λ s d'. (ok (is_registered s), d'))

  -- `open`
  unfoldable pub open_driver : Driver → Step Bool
  open_driver d =
      if d.connection_opened
      then (ok true, d)
      else let d' = recorded connect (record d { has_sock = true }) in
        raised_as comm_error (start_session (net.connects d'.sent) d')

  unfoldable pub store_connection : Result (Option Bytes) → Driver → Step Bool
  store_connection (ok (some value)) d =
      (ok true, record d { target_cid = some (take 4 value); target_is_connected = true })
  store_connection (ok none) d = (ok false, d)
  store_connection (err e) d = (err e, d)

  unfoldable pub request_connection : Result (Bytes × Bytes) → Driver → Step Bool
  request_connection (err e) d = (err e, d)
  request_connection (ok (message, route)) d =
      let d' = recorded (forward_open d.extended_forward_open message route) d in
      store_connection (net.opens d'.sent) d'

  -- The body of the request of `_forward_open` and its route.
  unfoldable pub forward_open_request : Driver → Result (Bytes × Bytes)
  forward_open_request d = net_params d.extended_forward_open d.connection_size >>= λ params.
      encode_path is_ip_address true (d.cip_path ++ msg_router_path) true false >>= λ route.
      ok (forward_open_msg d params, route)

  -- `_forward_open`
  unfoldable pub open_connection : Driver → Step Bool
  open_connection d =
      if d.target_is_connected
      then (ok true, d)
      else if is_zero d.session
      then (err comm_error, d)
      else request_connection (forward_open_request d) d

  -- The end of `with_forward_open`: the wrapped function is called, or an error raised.
  unfoldable pub call_if : Bool → Driver → Step (Unit {0})
  call_if true d = (ok tt, d)
  call_if false d = (err response_error, d)

  unfoldable pub try_standard : Bool → Driver → Step (Unit {0})
  try_standard true d = (ok tt, d)
  try_standard false d =
      if d.extended_forward_open
      then after
          (open_connection (record d { extended_forward_open = false; connection_size = 500 }))
          call_if
      else (err response_error, d)

  -- `with_forward_open`: if it returns, the function that it wraps is called.
  unfoldable pub with_forward_open : Driver → Step (Unit {0})
  with_forward_open d =
      if d.target_is_connected then (ok tt, d) else after (open_connection d) try_standard

  unfoldable pub store_closed : Result Bool → Driver → Step Bool
  store_closed (ok true) d = (ok true, record d { target_is_connected = false })
  store_closed (ok false) d = (ok false, d)
  store_closed (err e) d = (err e, d)

  unfoldable pub request_close : Result Bytes → Driver → Step Bool
  request_close (err e) d = (err e, d)
  request_close (ok route) d =
      let d' = recorded (forward_close (forward_close_msg d) route) d in
      store_closed (net.closes d'.sent) d'

  -- `_forward_close`
  unfoldable pub close_connection : Driver → Step Bool
  close_connection d =
      if is_zero d.session
      then (err comm_error, d)
      else request_close (encode_path is_ip_address true (d.cip_path ++ msg_router_path) true true)
          d

  unfoldable pub forget_session : Result (Unit {0}) → Driver → Step (Unit {0})
  forget_session (ok u) d = (ok tt, record d { session = none })
  forget_session (err e) d = (err e, d)

  -- `_un_register_session`
  unfoldable pub unregister : Driver → Step (Unit {0})
  unregister d =
      let d' = recorded unregister_session d in forget_session (net.unregisters d'.sent) d'

  -- The first `try` of `close`.
  unfoldable pub close_session : Driver → Step (Unit {0})
  close_session d =
      after (if d.target_is_connected then close_connection d else (ok true, d))
        (λ b d'. if is_zero d'.session then (ok tt, d') else unregister d')

  -- The second one.
  unfoldable pub close_sock : Driver → Step (Unit {0})
  close_sock d =
      let d' = recorded close_socket d in
      if d.has_sock then (net.closes_socket d'.sent, d') else (ok tt, d)

  -- Both errors are collected, and raised as one CommError.
  abbrev pub both : Result (Unit {0}) → Result (Unit {0}) → Result (Unit {0})
  both (ok u) (ok w) = ok tt
  both r s = err comm_error

  abbrev pub reset : Driver → Driver
  reset d = record d {
    has_sock = false;
    target_is_connected = false;
    session = some 0;
    connection_opened = false;
  }

  -- `close`
  unfoldable pub close : Driver → Step (Unit {0})
  close d = let (r, d') = close_session d in let (s, d'') = close_sock d' in (both r s, reset d'')
