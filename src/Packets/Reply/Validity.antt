-- ===== src/Packets/Reply/Validity.antt =====
-- When a reply to a connected message is valid, byte by byte.
use pycomm.Base.{
  if◌then◌else◌, none, drop_past, drop_into, ℕ, ◌-◌, ◌+◌, ◌<◌, ◌≤◌, ◌≡◌, refl, sym, ap, ◌∙◌, arith,
  Bool, true, false, ◌&&◌, ◌||◌, [], ◌∷◌, ◌++◌, append_assoc, Option, some, ◌==◌, leb, Bytes,
  length, length-append, take, drop, slice, All, drop-append, Result, ok, err, buffer_empty_error,
  Error, Bool-cases, inl, inr,
}
use pycomm.Base.Ints.{ℤ, pos}
use pycomm.DataTypes.Integers.{dint, usint, of_le, unpack_int, of_pattern}
use pycomm.DataTypes.Decode.{decode_int}
use pycomm.DataTypes.Stream.{stream_read}
use pycomm.DataTypes.RoundTrip.Numbers.{one_byte}
use pycomm.Packets.Reply.{
  Response, new_response, Message, parse_failed, ReplyKind, send_unit_data, send_rr_data,
  make_response, parse_reply, parse_base, store_status, parse_service, store_service, is_valid,
  base_valid, error_of, is_among, service_codes, service_of_reply, is_success,
}

read_byte : (b : ℕ) → (decode_int usint (b ∷ [])).0 ≡ ok (pos b)
unfolding decode_int stream_read unpack_int
read_byte b = ap (λ (n : ℕ). ok (pos n)) (one_byte b)

read_none : (decode_int usint []).0 ≡ err buffer_empty_error
unfolding decode_int stream_read
read_none = refl

store_service-fails :
    (c : Result (Option ℕ)) (e : Error) (rest : Bytes) (r : Response)
    → (store_service c (err e) rest r).error ≡ some parse_failed
unfolding store_service
store_service-fails (ok s) e rest r = refl
store_service-fails (err x) e rest r = refl

invalid_with_error :
    (kind : ReplyKind) (r : Response) (m : Message)
    → r.error ≡ some m
    → (is_valid kind r ≡ false) × (error_of kind r ≡ some m)
unfolding is_valid base_valid error_of
invalid_with_error ReplyKind.base r m h = (rw h, rw h)
invalid_with_error kind r m h = (rw h, rw h)

-- A reply to a connected message that ends before the status of its service is never valid, and
-- its error says that it was not parsed.
short_connected_reply :
    (raw : Bytes)
    → length raw ≤ 48
    → (is_valid send_unit_data (make_response send_unit_data (some raw)) ≡ false)
      × (error_of send_unit_data (make_response send_unit_data (some raw)) ≡ some parse_failed)
unfolding make_response parse_reply parse_service
short_connected_reply raw h =
    invalid_with_error send_unit_data _ parse_failed
      (rw (drop_past 48 raw h, read_none) (store_service-fails _ _ _ _))

-- The same of a reply to an unconnected message, whose service stands six bytes earlier.
short_unconnected_reply :
    (raw : Bytes)
    → length raw ≤ 42
    → (is_valid send_rr_data (make_response send_rr_data (some raw)) ≡ false)
      × (error_of send_rr_data (make_response send_rr_data (some raw)) ≡ some parse_failed)
unfolding make_response parse_reply parse_service
short_unconnected_reply raw h =
    invalid_with_error send_rr_data _ parse_failed
      (rw (drop_past 42 raw h, read_none) (store_service-fails _ _ _ _))

-- A code that is not known is not among those of several packets.
not_multi :
    (c : ℕ)
    → is_among service_codes c ≡ false
    → is_among (0x52 ∷ 0x53 ∷ 0x55 ∷ 0x0A ∷ 0x03 ∷ []) c ≡ false
unfolding is_among
not_multi c h = ground arith

and_false : (b : Bool) → b && false ≡ false
and_false true = refl
and_false false = refl

-- The status of the encapsulation is 0 exactly if its four bytes are.
success_bytes :
    (a b c d : ℕ)
    → a < 256
    → b < 256
    → c < 256
    → d < 256
    → (is_success (some (of_pattern true 4 (of_le (a ∷ b ∷ c ∷ d ∷ []))))) ≡ (a + b + c + d == 0)
unfolding of_le
success_bytes a b c d ha hb hc hd = ground arith

module _ (s0 s1 s2 s3 code ext status more : ℕ) (pre mid payload : Bytes) where
  abbrev pub reply_bytes : Bytes
  reply_bytes = pre ++ (s0 ∷ s1 ∷ s2 ∷ s3 ∷ (mid ++ (code ∷ ext ∷ status ∷ more ∷ payload)))

  -- The four places that the reply is read at.
  reply_slices :
      length pre ≡ 8
      → length mid ≡ 34
      → (slice 8 12 reply_bytes ≡ s0 ∷ s1 ∷ s2 ∷ s3 ∷ [])
        × (slice 46 47 reply_bytes ≡ code ∷ [])
        × (slice 48 49 reply_bytes ≡ status ∷ [])
        × (drop 50 reply_bytes ≡ payload)
  reply_slices hp hm =
      let front : Bytes = pre ++ (s0 ∷ s1 ∷ s2 ∷ s3 ∷ mid) in
      let tail : Bytes = code ∷ ext ∷ status ∷ more ∷ payload in
      let size : length front ≡ 46 =
        omega (arith, length-append pre (s0 ∷ s1 ∷ s2 ∷ s3 ∷ mid), hp, hm) in
      let seam : reply_bytes ≡ front ++ tail =
        sym (append_assoc pre (s0 ∷ s1 ∷ s2 ∷ s3 ∷ mid) tail) in
      let at = λ (k : ℕ).
        ap (λ (n : ℕ). drop (n + k) (front ++ tail)) (sym size) ∙ drop_into k front tail in
      (
        rw (drop-append 8 pre (s0 ∷ s1 ∷ s2 ∷ s3 ∷ (mid ++ tail)) hp),
        rw (seam, at 0),
        rw (seam, at 2),
        rw (seam, at 4),
      )

read_dint :
    (a b c d : ℕ)
    → (decode_int dint (a ∷ b ∷ c ∷ d ∷ [])).0 ≡ ok (of_pattern true 4 (of_le (a ∷ b ∷ c ∷ d ∷ [])))
unfolding decode_int stream_read unpack_int
read_dint a b c d = refl

abbrev with_status : Bytes → ℤ → Response
with_status raw z = record new_response {
  raw = raw;
  command = some (take 2 raw);
  command_status = some z;
}

base_parsed :
    (s0 s1 s2 s3 : ℕ) (raw : Bytes)
    → slice 8 12 raw ≡ s0 ∷ s1 ∷ s2 ∷ s3 ∷ []
    → parse_base raw new_response
      ≡ with_status raw (of_pattern true 4 (of_le (s0 ∷ s1 ∷ s2 ∷ s3 ∷ [])))
unfolding parse_base store_status
base_parsed s0 s1 s2 s3 raw h = rw (h, read_dint s0 s1 s2 s3)

served :
    (s0 s1 s2 s3 code status : ℕ) (payload raw : Bytes) (r : Response)
    → r ≡ with_status raw (of_pattern true 4 (of_le (s0 ∷ s1 ∷ s2 ∷ s3 ∷ [])))
    → All (λ b. b < 256) (s0 ∷ s1 ∷ s2 ∷ s3 ∷ [])
    → (is_valid send_unit_data (store_service (service_of_reply code) (ok (pos status)) payload r)
        ≡ ((s0 + s1 + s2 + s3 == 0)
            && (leb 128 code
                && (status == 0
                    || status == 6
                      && is_among (0x52 ∷ 0x53 ∷ 0x55 ∷ 0x0A ∷ 0x03 ∷ []) (code - 128)))))
      × ((store_service (service_of_reply code) (ok (pos status)) payload r).reply_data
          ≡ (if leb 128 code then some payload else none))
unfolding store_service service_of_reply is_valid base_valid
served s0 s1 s2 s3 code status payload raw r e hs =
    let ready = success_bytes s0 s1 s2 s3 hs.0 hs.1.0 hs.1.1.0 hs.1.1.1.0 in
    elim (Bool-cases (leb 128 code)) [
      | inl h ↦ elim (Bool-cases (is_among service_codes (code - 128))) [
        | inl k ↦ rw (h, k, e, ready) (refl, refl)
        | inr k ↦ rw (h, k, e, ready, not_multi (code - 128) k) (refl, refl)
      ]
      | inr h ↦ (rw h (sym (and_false (s0 + s1 + s2 + s3 == 0))), rw (h, e) refl)
    ]

-- A reply of at least 50 bytes to a connected message is valid exactly if the four status bytes of the
-- encapsulation are 0, the service byte is that of a reply, and the service's status is success, or
-- "more packets" for a service that has several packets. Its data is what follows byte 50, and
-- none if the service byte is not that of a reply.
pub connected_reply :
    (s0 s1 s2 s3 code ext status more : ℕ) (pre mid payload : Bytes)
    → length pre ≡ 8
    → length mid ≡ 34
    → All (λ b. b < 256) (s0 ∷ s1 ∷ s2 ∷ s3 ∷ [])
    → let r =
        make_response send_unit_data
          (some (reply_bytes s0 s1 s2 s3 code ext status more pre mid payload)) in
      (is_valid send_unit_data r ≡ (
        (s0 + s1 + s2 + s3 == 0)
        && (leb 128 code
            && (status == 0
                || status == 6 && is_among (0x52 ∷ 0x53 ∷ 0x55 ∷ 0x0A ∷ 0x03 ∷ []) (code - 128)))))
      × (r.reply_data ≡ (if leb 128 code then some payload else none))
unfolding make_response parse_reply parse_service
connected_reply s0 s1 s2 s3 code ext status more pre mid payload hp hm hs =
    let (a, b, c, d) = reply_slices s0 s1 s2 s3 code ext status more pre mid payload hp hm in
    rw (b, c, d, read_byte code, read_byte status)
      (served s0 s1 s2 s3 code status payload _ (parse_base _ new_response)
        (base_parsed s0 s1 s2 s3 _ a) hs)
