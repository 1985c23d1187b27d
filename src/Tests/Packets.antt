-- ===== src/Tests/Packets.antt =====
-- Requests and replies byte by byte.
use pycomm.DataTypes.Types.{Typ}
use pycomm.DataTypes.Integers.{uint}
use pycomm.Packets.Generic.Decoded.{Outcome, make_generic-Outcome}
use pycomm.Base.{
  ℕ, ◌+◌, ◌≡◌, refl, arith, true, false, ◌&&◌, ◌||◌, [], ◌∷◌, ◌++◌, none, some, ◌==◌, leb,
  if◌then◌else◌, replicate, length-replicate, Bytes, ok, err, comm_error,
}
use pycomm.Base.Ints.{pos}
use pycomm.Packets.Frame.{
  Kind, encap_command, build_common, build_request, build_message, add, new_packet,
}
use pycomm.Packets.Frame.Layout.{
  Framed, build_request-layout, build_request-too_long, build_message_again,
}
use pycomm.Packets.Reply.{ReplyKind, is_valid, make_response, is_among}
use pycomm.Packets.Reply.Validity.{reply_bytes, connected_reply}
use pycomm.Packets.MultiService.{multi_service_data, split_replies}
use pycomm.Packets.MultiService.Split.{split_replies-multi_service_data}

split_replies-multi_service_data_example :
    (b : Bytes) × (multi_service_data ((1 ∷ 2 ∷ []) ∷ [] ∷ (3 ∷ []) ∷ []) ≡ ok b)
    × (split_replies b ≡ ok ((1 ∷ 2 ∷ []) ∷ [] ∷ (3 ∷ []) ∷ []))
split_replies-multi_service_data_example =
    split_replies-multi_service_data (1 ∷ 2 ∷ []) ([] ∷ (3 ∷ []) ∷ []) (omega arith)

abbrev context : Bytes
context = 95 ∷ 112 ∷ 121 ∷ 99 ∷ 111 ∷ 109 ∷ 109 ∷ 95 ∷ []

build_request-layout_example :
    (frame : Bytes) × (build_request Kind.register_session
        (1 ∷ 0 ∷ 0 ∷ 0 ∷ [])
        none
        (pos 5)
        context
        (pos 0)
      ≡ ok frame)
    × Framed (encap_command Kind.register_session) 5 context (1 ∷ 0 ∷ 0 ∷ 0 ∷ []) frame
unfolding build_common
build_request-layout_example =
    build_request-layout Kind.register_session (1 ∷ 0 ∷ 0 ∷ 0 ∷ []) context (1 ∷ 0 ∷ 0 ∷ 0 ∷ [])
      none 5 0 refl refl (omega arith) (omega arith) (omega arith)

build_request-too_long_example :
    build_request Kind.register_session (replicate 65536 0) none (pos 5) context (pos 0)
    ≡ err comm_error
unfolding build_common
build_request-too_long_example =
    build_request-too_long Kind.register_session (replicate 65536 0) context (replicate 65536 0)
      none (pos 5) (pos 0) refl (omega (arith, length-replicate {A = ℕ} 65536 0))

build_message_again_example :
    let once = build_message ((1 ∷ []) ∷ []) true (add ((2 ∷ []) ∷ []) new_packet) in
    (build_message ((1 ∷ []) ∷ []) true once ≡ once)
    × ((build_message ((1 ∷ []) ∷ []) true (record once { msg_setup = false })).message
        ≡ once.message ++ once.message)
    × (let unflagged = build_message ((1 ∷ []) ∷ []) false (add ((2 ∷ []) ∷ []) new_packet) in
        build_message ((1 ∷ []) ∷ []) false unflagged ≡ record unflagged {
          msg = unflagged.msg ++ unflagged.msg;
          message = unflagged.message ++ unflagged.message;
        })
build_message_again_example = build_message_again ((1 ∷ []) ∷ []) ((2 ∷ []) ∷ [])

abbrev some_reply : Bytes
some_reply = reply_bytes 0 0 0 0 0xCC 0 6 0 (replicate 8 0) (replicate 34 0) (1 ∷ 2 ∷ [])

connected_reply_example :
    (is_valid ReplyKind.send_unit_data (make_response ReplyKind.send_unit_data (some some_reply))
      ≡ ((0 + 0 + 0 + 0 == 0)
          && (leb 128 0xCC
              && (6 == 0 || 6 == 6 && is_among (0x52 ∷ 0x53 ∷ 0x55 ∷ 0x0A ∷ 0x03 ∷ []) 0x4C))))
    × ((make_response ReplyKind.send_unit_data (some some_reply)).reply_data
        ≡ (if leb 128 0xCC then some (1 ∷ 2 ∷ []) else none))
connected_reply_example =
    connected_reply 0 0 0 0 0xCC 0 6 0 (replicate 8 0) (replicate 34 0) (1 ∷ 2 ∷ []) refl refl
      (omega arith, (omega arith, (omega arith, (omega arith, tt))))

-- The same reply with status 0.
abbrev good_reply : Bytes
good_reply = reply_bytes 0 0 0 0 0xCC 0 0 0 (replicate 8 0) (replicate 34 0) (1 ∷ 2 ∷ [])

make_generic-Outcome_example : Outcome ReplyKind.send_unit_data (Typ.int uint) good_reply
make_generic-Outcome_example =
    make_generic-Outcome ReplyKind.send_unit_data (Typ.int uint) good_reply
