-- ===== src/Logix/TagUpload.antt =====
-- `_get_instance_attribute_list_service` and `_parse_instance_attribute_list` of pycomm3/logix_driver.py: the
-- list of a controller's tags, page by page.
pub mod Order
pub mod Complete
use pycomm.Base.{
  ℕ, zero, suc, ◌+◌, Bool, true, false, List, [], ◌∷◌, ◌++◌, Option, none, some, ◌==◌, ◌>>=◌,
  if◌then◌else◌, Text, Bytes, text, length, Result, ok, err, Error, raise_as, guard, response_error,
  diverges,
}
use pycomm.Base.Ints.{pos}
use pycomm.Base.Strings.{starts_with}
use pycomm.Logix.Symbols.{Symbol, decode_symbols, has_access}
use pycomm.Paths.Segments.{Segment, logical, data_segment, symbol, encode_path, LogicalValue}

-- `instance`, the number of the last tag.
abbrev pub last_instance_of : List Symbol → ℕ
last_instance_of [] = 0
last_instance_of (s ∷ []) = s.instance_id
last_instance_of (s ∷ t ∷ ss) = last_instance_of (t ∷ ss)

-- The result of `_parse_instance_attribute_list`: where to go on, or `none` for -1.
abbrev pub next_instance : Option ℕ → List Symbol → Option ℕ
next_instance none ss = none
next_instance (some status) ss = if status == 6 then some (last_instance_of ss + 1) else none

-- `if program:`, and the prefix.
abbrev pub program_segments : Option Text → List Segment
program_segments none = []
program_segments (some []) = []
program_segments (some (c ∷ cs)) =
    data_segment (
      symbol
        (if starts_with (text "Program:") (c ∷ cs) then c ∷ cs else text "Program:" ++ (c ∷ cs)))
    ∷ []

abbrev pub list_segments : Option Text → ℕ → List Segment
list_segments program last_instance =
    program_segments program
    ++ (logical (LogicalValue.raw (0x6B ∷ [])) (text "class_id")
        ∷ logical (LogicalValue.number (pos last_instance)) (text "instance_id")
        ∷ [])

abbrev pub attributes : Bool → Bytes
attributes true = 7 ∷ 0 ∷ 1 ∷ 0 ∷ 2 ∷ 0 ∷ 3 ∷ 0 ∷ 5 ∷ 0 ∷ 6 ∷ 0 ∷ 8 ∷ 0 ∷ 10 ∷ 0 ∷ []
attributes false = 6 ∷ 0 ∷ 1 ∷ 0 ∷ 2 ∷ 0 ∷ 3 ∷ 0 ∷ 5 ∷ 0 ∷ 6 ∷ 0 ∷ 8 ∷ 0 ∷ []

abbrev request_of : Bool → Result Bytes → Result Bytes
request_of with_access (ok new_path) = ok (0x55 ∷ (new_path ++ attributes with_access))
request_of with_access (err e) = err e

-- What is used of the response.
pub record ListReply : Type 0 where
  pub valid : Bool
  pub status : Option ℕ
  pub reply_data : Bytes

abbrev pub guarded : Bool → Result (List Symbol) → Result (List Symbol)
guarded true page = page
guarded false page = err response_error

abbrev pub go_on : Option ℕ → List Symbol → (ℕ → Result (List Symbol)) → Result (List Symbol)
go_on none all more = ok all
go_on (some n) all more = more n

module _ (is_ip_address : Text → Bool) where
  unfoldable pub list_request : Bool → Option Text → ℕ → Result Bytes
  list_request with_access program last_instance =
      request_of with_access
        (encode_path is_ip_address true (list_segments program last_instance) true false)

  -- `respond` is what the controller answers to a request, after the ones that were sent before.
  module _ (respond : List Bytes → Bytes → Result ListReply) where
    unfoldable pub upload :
        ℕ → Bool → Option Text → List Bytes → ℕ → List Symbol → Result (List Symbol)
    upload zero with_access program sent last_instance tag_list = err diverges
    upload (suc fuel) with_access program sent last_instance tag_list =
        list_request with_access program last_instance >>= λ message.
        respond sent message >>= λ response.
        guarded response.valid
          (decode_symbols (length response.reply_data) with_access response.reply_data)
        >>= λ page.
            go_on (next_instance response.status page) (tag_list ++ page)
              (λ n. upload fuel with_access program (sent ++ (message ∷ [])) n (tag_list ++ page))

    -- `_get_instance_attribute_list_service`
    unfoldable pub get_instance_attribute_list : ℕ → ℕ → Option Text → Result (List Symbol)
    get_instance_attribute_list fuel revision program =
        raise_as response_error (upload fuel (has_access revision) program [] 0 [])
