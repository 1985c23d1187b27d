-- ===== src/Packets/Frame/Layout.antt =====
-- Where the fields of a frame of pycomm3/packets/base.py stand.
use pycomm.Base.{
  ℕ, suc, ◌+◌, ◌-◌, ◌/◌, ◌%◌, ◌<◌, ◌≤◌, ◌^◌, ◌≡◌, refl, ap, ◌∙◌, arith, true, false, List, [], ◌∷◌,
  ◌++◌, append_assoc, Option, Bytes, length, length-append, join, join-append, take, drop,
  take-append, drop-append, slice, ok, err, comm_error, ◌>>=◌,
}
use mathlib.Core.Path.{ap₂}
use pycomm.Base.Ints.{ℤ, pos}
use pycomm.DataTypes.Integers.{uint, udint}
use pycomm.DataTypes.Decode.{decode_int}
use pycomm.DataTypes.RoundTrip.Numbers.{uint_two_bytes, encode_uint_wide, udint_four_bytes}
use pycomm.Packets.Frame.{
  new_packet, add, build_message, Kind, send_unit_data, send_rr_data, encap_command, build_common,
  build_header, build_request,
}

-- Building the message of a packet of a class that uses the `build_message` of RequestPacket a second
-- time: where the class sets `_msg_setup`, it changes nothing, unless the flag has been reset in between,
-- and then every part is in the message twice; where the class does not set it, every part is in the
-- message twice, and the packet is then as the first building leaves it, but for its message and its parts.
pub build_message_again :
    (parts more : List Bytes)
    → let once = build_message parts true (add more new_packet) in
      (build_message parts true once ≡ once)
      × ((build_message parts true (record once { msg_setup = false })).message
          ≡ once.message ++ once.message)
      × (let unflagged = build_message parts false (add more new_packet) in
          build_message parts false unflagged ≡ record unflagged {
            msg = unflagged.msg ++ unflagged.msg;
            message = unflagged.message ++ unflagged.message;
          })
unfolding build_message add
build_message_again parts more =
    let all : List Bytes = parts ++ more in
    let parts_twice : (all ++ parts) ++ more ≡ all ++ all = append_assoc all parts more in
    let twice = ap join parts_twice ∙ join-append all all in
    (
      refl,
      twice,
      ap₂ (λ m t. record { message = t; msg_setup = false; msg = m; added = more }) parts_twice
          twice,
    )

-- Where the fields of a frame stand.
abbrev pub Framed : Bytes → ℕ → Bytes → Bytes → Bytes → Type 0
Framed command session context common frame =
    (take 2 frame ≡ command)
    × ((decode_int uint (slice 2 4 frame)).0 ≡ ok (pos (length frame - 24)))
    × ((decode_int udint (slice 4 8 frame)).0 ≡ ok (pos session))
    × (slice 12 20 frame ≡ context)
    × (drop 24 frame ≡ common)

module _ (c0 c1 session option : ℕ) (context common : Bytes) (hx : length context ≡ 8)
    (hs : session < 2 ^ 32) (ho : option < 2 ^ 32) (fits : length common < 65536) where
  framed :
      (frame : Bytes) × ((build_header
            (c0 ∷ c1 ∷ [])
            (length common)
            (pos session)
            context
            (pos option)
          >>= λ header. ok (header ++ common))
        ≡ ok frame)
      × Framed (c0 ∷ c1 ∷ []) session context common frame
  unfolding build_header
  framed =
      let (el, dl) = uint_two_bytes (length common) fits in
      let (s0, s1, s2, s3, es, ds) = udint_four_bytes session hs in
      let (o0, o1, o2, o3, eo, eo') = udint_four_bytes option ho in
      let l0 : ℕ = length common % 256 in
      let l1 : ℕ = length common / 256 % 256 in
      let options : Bytes = o0 ∷ o1 ∷ o2 ∷ o3 ∷ [] in
      let tail : Bytes = context ++ (options ++ common) in
      let tail_length : length tail ≡ 12 + length common =
        omega (arith, length-append context (options ++ common), hx) in
      let total : suc
              (suc (suc (suc (suc (suc (suc (suc (suc (suc (suc (suc (length tail))))))))))))
            - 24
          ≡ length common =
        omega (arith, tail_length) in
      (
        c0 ∷ c1 ∷ l0 ∷ l1 ∷ s0 ∷ s1 ∷ s2 ∷ s3 ∷ 0 ∷ 0 ∷ 0 ∷ 0 ∷ tail,
        rw (el, es, eo, append_assoc context options common),
        (
          refl,
          rw (dl [], total),
          rw (ds []),
          take-append 8 context (options ++ common) hx,
          rw (← append_assoc context options common) (
              drop-append 12 (context ++ options) common
                (omega (arith, length-append context options, hx))),
        ),
      )

encap_bytes : (kind : Kind) → (a b : ℕ) × (encap_command kind ≡ a ∷ b ∷ [])
encap_bytes send_unit_data = (0x70, 0x00, refl)
encap_bytes send_rr_data = (0x6F, 0x00, refl)
encap_bytes Kind.register_session = (0x65, 0x00, refl)
encap_bytes Kind.unregister_session = (0x66, 0x00, refl)
encap_bytes Kind.list_identity = (0x63, 0x00, refl)

-- The header is 24 bytes: the command, the length of what follows the header, the session, a zero
-- status, the context and the options. For every kind of request whose common packet is less than 65536
-- bytes long the frame has its fields there, and the common packet behind them.
pub build_request-layout :
    (kind : Kind) (message context common : Bytes) (cid : Option Bytes) (session option : ℕ)
    → build_common kind message cid ≡ ok common
    → length context ≡ 8
    → session < 2 ^ 32
    → option < 2 ^ 32
    → length common < 65536
    → (frame : Bytes) × (build_request kind message cid (pos session) context (pos option)
        ≡ ok frame)
      × Framed (encap_command kind) session context common frame
unfolding build_request
build_request-layout kind message context common cid session option hc hx hs ho fits =
    let (a, b, e) = encap_bytes kind in
    let (frame, built, fields) = framed a b session option context common hx hs ho fits in
    (frame, rw (hc, e) built, rw e fields)

-- A common packet of 65536 bytes or more raises CommError, whatever the other arguments are.
pub build_request-too_long :
    (kind : Kind) (message context common : Bytes) (cid : Option Bytes) (session option : ℤ)
    → build_common kind message cid ≡ ok common
    → 65536 ≤ length common
    → build_request kind message cid session context option ≡ err comm_error
unfolding build_request build_header
build_request-too_long kind message context common cid session option hc wide =
    rw (hc, encode_uint_wide (length common) wide) refl
