-- ===== src/Tests/TagUpload.antt =====
-- A controller with two tags, which answers with one at a time.
use pycomm.Base.{
  ℕ, ◌<◌, ◌≤◌, ◌≡◌, refl, sym, ap, ◌∙◌, arith, ◌⊎◌, inl, inr, Bool, true, false, List, [], ◌∷◌,
  none, some, leb, le→leb, gt→leb, if◌then◌else◌, Text, text, text_eq, Bytes, length, Result, ok,
}
use pycomm.DataTypes.RoundTrip.Numbers.{encode_byte}
use pycomm.Paths.Segments.{
  encode_path, encode_segments, encode_segment, encode_logical, logical_bytes, logical_number,
  table_get,
}
use pycomm.Logix.Symbols.{Symbol}
use pycomm.Logix.Symbols.ReadBack.{page_bytes, FitsEntry}
use pycomm.Logix.TagUpload.{ListReply, list_request, attributes, get_instance_attribute_list}
use pycomm.Logix.TagUpload.Complete.{ServesSymbols, get_instance_attribute_list-ServesSymbols}
use pycomm.Logix.TagUpload.Order.{starting_at}

abbrev symbol_with : ℕ → Text → Symbol
symbol_with id name = record {
  instance_id = id;
  tag_name = name;
  symbol_type = 0xC4;
  symbol_address = 0;
  symbol_object_address = 0;
  software_control = 0;
  dim1 = 0;
  dim2 = 0;
  dim3 = 0;
  access = some 0;
}

abbrev first : Symbol
first = symbol_with 3 (text "a")

abbrev second : Symbol
second = symbol_with 7 (text "b")

abbrev no_addresses : Text → Bool
no_addresses s = false

-- The instance that is asked for.
abbrev asked : Bytes → ℕ
asked (a ∷ b ∷ c ∷ d ∷ e ∷ n ∷ rest) = n
asked _ = 0

abbrev page_reply : ℕ → ListReply
page_reply n =
    if leb n 3
    then record { valid = true; status = some 6; reply_data = page_bytes (first ∷ []) }
    else record { valid = true; status = some 0; reply_data = page_bytes (second ∷ []) }

abbrev controller : List Bytes → Bytes → Result ListReply
controller sent message = ok (page_reply (asked message))

abbrev small_request : ℕ → Bytes
small_request n = 0x55 ∷ 2 ∷ 0x20 ∷ 0x6B ∷ 0x24 ∷ n ∷ attributes true

list_request_small :
    (n : ℕ) → n < 256 → list_request no_addresses true none n ≡ ok (small_request n)
unfolding list_request encode_path encode_segments encode_segment encode_logical logical_bytes
    logical_number table_get text_eq
list_request_small n h =
    rw (le→leb n 0xFF (omega arith), encode_byte n h) (rw (encode_byte 2 (omega arith)) refl)

abbrev both : List Symbol
both = first ∷ second ∷ []

both_left : (n : ℕ) → n ≤ 3 → starting_at n both ≡ both
unfolding starting_at
both_left n h = ground arith

second_left : (n : ℕ) → 3 < n → n ≤ 7 → starting_at n both ≡ second ∷ []
unfolding starting_at
second_left n h le = ground arith

low_start : (n : ℕ) → (n ≡ 0) ⊎ (0 < length (starting_at n both)) → n ≤ 7
unfolding starting_at
low_start n h = ground arith

answer :
    (sent : List Bytes) (n : ℕ) (message : Bytes)
    → list_request no_addresses true none n ≡ ok message
    → n ≤ 7
    → controller sent message ≡ ok (page_reply n)
answer sent n message e h =
    let same : small_request n ≡ message =
      request_of (sym (list_request_small n (omega arith)) ∙ e) in
    ap (controller sent) (sym same)
  where
    request_of : {a b : Bytes} → ◌≡◌ {A = Result Bytes} (ok a) (ok b) → a ≡ b
    request_of h = cc

in_turn : (n : ℕ) → (n ≤ 3) ⊎ (3 < n)
in_turn n = omega arith

controller-ServesSymbols : ServesSymbols no_addresses controller true both
controller-ServesSymbols sent n message e h = elim (in_turn n) [
  | inl low ↦ (
    first ∷ [],
    second ∷ [],
    6,
    answer sent n message e (omega arith) ∙ rw (le→leb n 3 low) refl,
    sym (both_left n low),
    inr (omega arith, omega arith, refl),
  )
  | inr high ↦ (
    second ∷ [],
    [],
    0,
    answer sent n message e (low_start n h) ∙ rw (gt→leb n 3 high) refl,
    sym (second_left n high (low_start n h)),
    inl (refl, refl),
  )
]

symbol_with-FitsEntry : (id c : ℕ) → id < 16 → c < 256 → FitsEntry true (symbol_with id (c ∷ []))
symbol_with-FitsEntry id c h hc = (
  omega arith,
  (hc, tt),
  omega arith,
  omega arith,
  omega arith,
  omega arith,
  omega arith,
  omega arith,
  omega arith,
  omega arith,
  omega arith,
)

get_instance_attribute_list-ServesSymbols_example :
    get_instance_attribute_list no_addresses controller 3 20 none ≡ ok both
get_instance_attribute_list-ServesSymbols_example =
    get_instance_attribute_list-ServesSymbols no_addresses controller 20 3 both
      controller-ServesSymbols
      (
        symbol_with-FitsEntry 3 b'a' (omega arith) (omega arith),
        (symbol_with-FitsEntry 7 b'b' (omega arith) (omega arith), tt),
      )
      (omega arith, (omega arith, tt)) (omega arith)
