-- ===== src/Packets/MultiService/Split.antt =====
-- The reader of a multi service reply against the layout that the request writes.
use pycomm.Base.{
  ℕ, ◌+◌, ◌-◌, ◌*◌, ◌/◌, ◌%◌, ◌<◌, ◌≡◌, refl, sym, ◌∙◌, arith, List, [], ◌∷◌, ◌++◌, append_assoc,
  append-nil, Bytes, length, length-append, join, slice, take-append, drop-append, ok,
}
use pycomm.DataTypes.RoundTrip.Numbers.{uint_two_bytes}
use pycomm.Packets.MultiService.{
  encode_offsets, multi_service_data, decode_offsets, cut, split_replies,
}

-- The offset of each message when the first one stands at `o`.
offsets_from : ℕ → List Bytes → List ℕ
offsets_from o [] = []
offsets_from o (m ∷ ms) = o ∷ offsets_from (o + length m) ms

-- `bs` holds `m` at `o`, between what stands before and after it.
slice-middle :
    (o : ℕ) (bs pre m rest : Bytes)
    → length pre ≡ o
    → bs ≡ pre ++ (m ++ rest)
    → slice o (o + length m) bs ≡ m
slice-middle o bs pre m rest h e =
    let width : o + length m - o ≡ length m = omega arith in
    rw (e, width, drop-append o pre (m ++ rest) h) (take-append (length m) m rest refl)

cut-messages :
    (o : ℕ) (bs pre m : Bytes) (ms : List Bytes)
    → length pre ≡ o
    → bs ≡ pre ++ join (m ∷ ms)
    → cut bs (offsets_from o (m ∷ ms)) ≡ ok (m ∷ ms)
unfolding cut offsets_from
cut-messages o bs pre m [] h e = rw (e, drop-append o pre (m ++ []) h, append-nil m)
cut-messages o bs pre m (n ∷ ms) h e = rw (
  cut-messages (o + length m) bs (pre ++ m) n ms (omega (arith, length-append pre m))
      (e ∙ sym (append_assoc pre m (join (n ∷ ms)))),
  slice-middle o bs pre m (join (n ∷ ms)) h e,
)

abbrev offset_bytes : List ℕ → Bytes
offset_bytes [] = []
offset_bytes (o ∷ os) = o % 256 ∷ o / 256 % 256 ∷ offset_bytes os

offsets-written :
    (o : ℕ) (ms : List Bytes)
    → o + length (join ms) < 65536
    → (encode_offsets o ms ≡ ok (offset_bytes (offsets_from o ms)))
      × (decode_offsets (offset_bytes (offsets_from o ms)) ≡ ok (offsets_from o ms))
      × (length (offset_bytes (offsets_from o ms)) ≡ length ms * 2)
unfolding encode_offsets decode_offsets offsets_from
offsets-written o [] h = (refl, refl, refl)
offsets-written o (m ∷ ms) h =
    let all = length-append m (join ms) in
    let (es, ds, ls) = offsets-written (o + length m) ms (omega (arith, all)) in
    let (e, d) = uint_two_bytes o (omega arith) in (rw (e, es), rw (d [], ds), omega (arith, ls))

-- A reply whose data has the layout of a request's, for at least one message and less than 65536
-- bytes in all, is split into exactly those messages; and that layout is written without an error.
pub split_replies-multi_service_data :
    (m : Bytes) (ms : List Bytes)
    → 2 + length (m ∷ ms) * 2 + length (join (m ∷ ms)) < 65536
    → (b : Bytes) × (multi_service_data (m ∷ ms) ≡ ok b) × (split_replies b ≡ ok (m ∷ ms))
unfolding multi_service_data split_replies
split_replies-multi_service_data m ms h =
    let all : List Bytes = m ∷ ms in
    let n : ℕ = length all in
    let (written, read_back, size) = offsets-written (2 + n * 2) all h in
    let offs : Bytes = offset_bytes (offsets_from (2 + n * 2) all) in
    let (e, d) = uint_two_bytes n (omega arith) in
    let table : Bytes = n % 256 ∷ n / 256 % 256 ∷ offs in
    let tidy : 2 * n ≡ n * 2 = omega arith in
    let width : 2 + n * 2 - 2 ≡ n * 2 = omega arith in
    (
      table ++ join all,
      rw (e, written),
      rw (d (offs ++ join all), tidy, width, take-append (n * 2) offs (join all) size, read_back)
          (cut-messages (2 + n * 2) (table ++ join all) table m ms (omega (arith, size)) refl),
    )
