-- ===== src/Logix/Requests.antt =====
-- `_send_requests` of pycomm3/logix_driver.py: the packets are sent in order, and the results are kept by request.
pub mod Complete
use pycomm.Base.{
  ℕ, zero, suc, Bool, true, false, ◌&&◌, ◌==◌, List, [], ◌∷◌, Option, none, some, if◌then◌else◌,
  Text, Result, Error, ok, err, ◌>>=◌, request_error, response_error, other_error,
}
use pycomm.Base.Ints.{ℤ, pos, negsuc}
use pycomm.DataTypes.Value.{Value}
use pycomm.Logix.Results.{TagResult, failure}

-- What is used of a request; `reads` is `type_ == "read"`.
pub record Request : Type 0 where
  pub request_id : ℤ
  pub tag : Text
  pub reads : Bool
  pub value : Option Value
  pub data_type : Option Text

pub data Packet : Type 0 where
  single : Request → Packet
  multi : List Request → Packet

-- What is used of a response: its truth, its value with its type, and whether it has an error.
pub record Reply : Type 0 where
  pub valid : Bool
  pub value : Option Value
  pub data_type : Option Text
  pub failed : Bool

abbrev pub same_id : ℤ → ℤ → Bool
same_id (pos m) (pos n) = m == n
same_id (negsuc m) (negsuc n) = m == n
same_id a b = false

-- The dictionary, the entry that was set last in front.
abbrev pub Results : Type 0
Results = List (ℤ × TagResult)

unfoldable pub get_result : ℤ → Results → Option TagResult
get_result id [] = none
get_result id ((key, r) ∷ results) =
    let rest = get_result id results in if same_id key id then some r else rest

-- The result of a packet with one request.
unfoldable pub single_result : Request → Reply → TagResult
single_result q r =
    if r.valid
    then record {
      tag = q.tag;
      value = if q.reads then r.value else q.value;
      data_type = if q.reads then r.data_type else q.data_type;
      failed = r.failed;
    }
    else record { tag = q.tag; value = none; data_type = none; failed = r.failed }

-- A result in a packet with several requests.
unfoldable pub inner_result : Request → Reply → TagResult
inner_result q r =
    if r.valid
    then record { tag = q.tag; value = r.value; data_type = r.data_type; failed = false }
    else failure q.tag

-- The responses of a packet with several requests, one for each request as far as there are both.
unfoldable pub inner_results : List Request → List Reply → Results → Results
inner_results [] rs results = results
inner_results (q ∷ qs) [] results = results
inner_results (q ∷ qs) (r ∷ rs) results =
    inner_results qs rs ((q.request_id, inner_result q r) ∷ results)

-- `except (RequestError, ResponseError)`
abbrev pub is_caught : Error → Bool
is_caught request_error = true
is_caught response_error = true
is_caught e = false

unfoldable pub after_single : Request → Result Reply → Results → Result Results
after_single q (ok r) results = ok ((q.request_id, single_result q r) ∷ results)
after_single q (err e) results =
    if is_caught e then ok ((q.request_id, failure q.tag) ∷ results) else err e

-- The handler's `request.tags` does not exist, so AttributeError is raised there. The CommError and DataError that
-- `CIPDriver.send` raises for such a packet are not caught.
unfoldable pub after_multi : List Request → Result (List Reply) → Results → Result Results
after_multi qs (ok rs) results = ok (inner_results qs rs results)
after_multi qs (err e) results = if is_caught e then err other_error else err e

-- `send` is what the target answers to a packet, which has this number among those that are sent.
module _ (send_single : ℕ → Request → Result Reply)
    (send_multi : ℕ → List Request → Result (List Reply)) where
  unfoldable pub send_from : ℕ → List Packet → Results → Result Results
  send_from n [] results = ok results
  send_from n (single q ∷ ps) results =
      after_single q (send_single n q) results >>= send_from (suc n) ps
  send_from n (multi qs ∷ ps) results =
      after_multi qs (send_multi n qs) results >>= send_from (suc n) ps

  -- `_send_requests`
  unfoldable pub send_requests : List Packet → Result Results
  send_requests ps = send_from 0 ps []
