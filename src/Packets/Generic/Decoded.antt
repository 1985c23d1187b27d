-- ===== src/Packets/Generic/Decoded.antt =====
-- What a generic response with a data type says of its reply.
use pycomm.Packets.Generic.{decoded, decode_data, store_value, parse_value, make_generic}
use pycomm.Base.{
  ◌≡◌, refl, true, false, ◌⊎◌, inl, inr, none, some, Bytes, Result, Error, ok, err, Bool-cases,
}
use pycomm.DataTypes.Types.{Typ}
use pycomm.DataTypes.Value.{Value}
use pycomm.Packets.Reply.{
  Response, new_response, parse_failed, ReplyKind, base, send_unit_data, send_rr_data,
  register_session, parse_reply, make_response, is_valid, base_valid, error_of,
}

-- A response with an error is not valid, and says so.
error_set :
    (kind : ReplyKind) (r : Response)
    → (is_valid kind (record r { error = some parse_failed }) ≡ false)
      × (error_of kind (record r { error = some parse_failed }) ≡ some parse_failed)
unfolding is_valid base_valid error_of
error_set base r = (refl, refl)
error_set send_unit_data r = (refl, refl)
error_set send_rr_data r = (refl, refl)
error_set register_session r = (refl, refl)

Result-cases : (r : Result Value) → ((v : Value) × (r ≡ ok v)) ⊎ ((e : Error) × (r ≡ err e))
Result-cases (ok v) = inl (v, refl)
Result-cases (err e) = inr (e, refl)

-- A value that the data decode to, an error where they do not, or no value where the reply is not valid.
abbrev pub Outcome : ReplyKind → Typ → Bytes → Type 0
Outcome kind t raw =
    ((v : Value) × (is_valid kind (make_response kind (some raw)) ≡ true)
      × (decode_data t (make_response kind (some raw)).reply_data ≡ ok v)
      × ((make_generic kind (some t) (some raw)).value ≡ some (decoded v))
      × ((make_generic kind (some t) (some raw)).response ≡ make_response kind (some raw)))
    ⊎ (((e : Error) × (is_valid kind (make_response kind (some raw)) ≡ true)
          × (decode_data t (make_response kind (some raw)).reply_data ≡ err e)
          × ((make_generic kind (some t) (some raw)).value ≡ none)
          × (is_valid kind (make_generic kind (some t) (some raw)).response ≡ false)
          × (error_of kind (make_generic kind (some t) (some raw)).response ≡ some parse_failed))
        ⊎ ((is_valid kind (make_response kind (some raw)) ≡ false)
            × ((make_generic kind (some t) (some raw)).value ≡ none)
            × ((make_generic kind (some t) (some raw)).response ≡ make_response kind (some raw))))

-- A generic response with a data type and a reply has one of three outcomes. The reply is valid and its data decode: then the
-- value is what they decode to, and the response is that of the reply. The reply is valid and its data do not decode: then
-- there is no value, and the response is not valid and its error is that parsing failed. The reply is not valid: then there is no
-- value, and the response is that of the reply.
pub make_generic-Outcome : (kind : ReplyKind) (t : Typ) (raw : Bytes) → Outcome kind t raw
unfolding make_generic parse_value store_value make_response
make_generic-Outcome kind t raw =
    let r = parse_reply kind raw new_response in
    elim (Bool-cases (is_valid kind r)) [
      | inl valid ↦ elim (Result-cases (decode_data t r.reply_data)) [
        | inl (v, read) ↦ inl (v, valid, read, rw (valid, read) refl, rw (valid, read) refl)
        | inr (e, failed) ↦
            let (invalid, says) = error_set kind r in
            inr (
              inl (
                e,
                valid,
                failed,
                rw (valid, failed) refl,
                rw (valid, failed) invalid,
                rw (valid, failed) says,
              ))
      ]
      | inr invalid ↦ inr (inr (invalid, rw invalid refl, rw invalid refl))
    ]
