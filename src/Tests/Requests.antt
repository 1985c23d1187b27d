-- ===== src/Tests/Requests.antt =====
-- A call with two packets, of which the first one is refused.
use pycomm.Base.{
  ℕ, suc, ◌≡◌, refl, ap, subst, true, false, List, [], ◌∷◌, none, some, length, All, text, Result,
  Error, ok, err, response_error,
}
use pycomm.Base.Ints.{pos}
use pycomm.DataTypes.Value.{Value}
use pycomm.Logix.Requests.{Request, Packet, single, multi, Reply, Results, send_requests, is_caught}
use pycomm.Logix.Requests.Complete.{AnswersAll, HasResult, all_ids, send_requests-HasResult}

abbrev request : ℕ → Request
request n = record {
  request_id = pos n;
  tag = text "a";
  reads = true;
  value = none;
  data_type = none;
}

abbrev reply : Reply
reply = record {
  valid = true;
  value = some (Value.bool true);
  data_type = some (text "BOOL");
  failed = false;
}

abbrev refuse : ℕ → Request → Result Reply
refuse n q = err response_error

abbrev replies : List Request → List Reply
replies [] = []
replies (q ∷ qs) = reply ∷ replies qs

length-replies : (qs : List Request) → length (replies qs) ≡ length qs
length-replies [] = refl
length-replies (q ∷ qs) = ap suc (length-replies qs)

abbrev answer : ℕ → List Request → Result (List Reply)
answer n qs = ok (replies qs)

refused :
    (e f : Error) → ◌≡◌ {A = Result Reply} (err e) (err f) → is_caught e ≡ true → is_caught f ≡ true
refused e f same h = let equal : e ≡ f = cc in subst (λ x. is_caught x ≡ true) equal h

answer-AnswersAll : AnswersAll refuse answer
answer-AnswersAll =
    (λ n q e h. refused response_error e h refl, λ n qs. (replies qs, refl, length-replies qs))

abbrev packets : List Packet
packets = single (request 0) ∷ multi (request 1 ∷ request 2 ∷ []) ∷ []

send_requests-HasResult_example :
    (results : Results) × (send_requests refuse answer packets ≡ ok results)
    × All (HasResult results) (all_ids packets)
send_requests-HasResult_example = send_requests-HasResult refuse answer packets answer-AnswersAll
