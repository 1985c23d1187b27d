-- ===== src/Logix/Requests/Complete.antt =====
-- Which requests have a result.
use pycomm.Base.{
  ℕ, suc, ◌≡◌, refl, arith, ==-refl, Bool, true, false, List, [], ◌∷◌, ◌++◌, Option, none, some,
  length, All, All-append, Result, Error, ok, err, if-true, inl, inr, Bool-cases,
}
use pycomm.Base.Ints.{ℤ, pos, negsuc}
use pycomm.Logix.Results.{TagResult, failure}
use pycomm.Logix.Requests.{
  Request, Packet, single, multi, Reply, Results, same_id, get_result, single_result, inner_result,
  inner_results, is_caught, after_single, after_multi, send_from, send_requests,
}

abbrev pub is_some : Option TagResult → Bool
is_some none = false
is_some (some r) = true

-- The request has a result.
abbrev pub HasResult : Results → ℤ → Type 0
HasResult results id = is_some (get_result id results) ≡ true

abbrev pub ids_of : List Request → List ℤ
ids_of [] = []
ids_of (q ∷ qs) = q.request_id ∷ ids_of qs

abbrev pub all_ids : List Packet → List ℤ
all_ids [] = []
all_ids (single q ∷ ps) = q.request_id ∷ all_ids ps
all_ids (multi qs ∷ ps) = ids_of qs ++ all_ids ps

-- Only what `except` names comes out of sending one request, and a packet with several has a response to each.
abbrev pub AnswersAll :
    (ℕ → Request → Result Reply) → (ℕ → List Request → Result (List Reply)) → Type 0
AnswersAll send_single send_multi =
    ((n : ℕ) (q : Request) (e : Error) → send_single n q ≡ err e → is_caught e ≡ true)
    × ((n : ℕ) (qs : List Request)
        → (rs : List Reply) × (send_multi n qs ≡ ok rs) × (length rs ≡ length qs))

same_id_refl : (id : ℤ) → same_id id id ≡ true
same_id_refl (pos n) = ==-refl n
same_id_refl (negsuc n) = ==-refl n

get_result_new : (id : ℤ) (r : TagResult) (results : Results) → HasResult ((id, r) ∷ results) id
unfolding get_result
get_result_new id r results = rw (same_id_refl id) refl

get_result_old :
    (id key : ℤ) (r : TagResult) (results : Results)
    → HasResult results id
    → HasResult ((key, r) ∷ results) id
unfolding get_result
get_result_old id key r results h = elim (Bool-cases (same_id key id)) [
  | inl same ↦ rw same refl
  | inr other ↦ rw other h
]

inner_results_old :
    (id : ℤ) (qs : List Request) (rs : List Reply) (results : Results)
    → HasResult results id
    → HasResult (inner_results qs rs results) id
unfolding inner_results
inner_results_old id [] rs results h = h
inner_results_old id (q ∷ qs) [] results h = h
inner_results_old id (q ∷ qs) (r ∷ rs) results h =
    inner_results_old id qs rs _ (get_result_old id q.request_id (inner_result q r) results h)

inner_results-HasResult :
    (qs : List Request) (rs : List Reply) (results : Results)
    → length rs ≡ length qs
    → All (HasResult (inner_results qs rs results)) (ids_of qs)
unfolding inner_results
inner_results-HasResult [] rs results h = tt
inner_results-HasResult (q ∷ qs) [] results h = absurd (omega arith)
inner_results-HasResult (q ∷ qs) (r ∷ rs) results h = (
  inner_results_old q.request_id qs rs _ (get_result_new q.request_id (inner_result q r) results),
  inner_results-HasResult qs rs ((q.request_id, inner_result q r) ∷ results) (omega arith),
)

-- Nothing is lost.
abbrev Grows : Results → Results → Type 0
Grows old new = (id : ℤ) → HasResult old id → HasResult new id

single_ok :
    (q : Request) (o : Result Reply) (results : Results)
    → ((e : Error) → o ≡ err e → is_caught e ≡ true)
    → (new : Results) × (after_single q o results ≡ ok new)
      × Grows results new
      × HasResult new q.request_id
unfolding after_single
single_ok q (ok r) results h = (
  (q.request_id, single_result q r) ∷ results,
  refl,
  λ id old. get_result_old id q.request_id (single_result q r) results old,
  get_result_new q.request_id (single_result q r) results,
)
single_ok q (err e) results h = (
  (q.request_id, failure q.tag) ∷ results,
  if-true (is_caught e) _ _ (h e refl),
  λ id old. get_result_old id q.request_id (failure q.tag) results old,
  get_result_new q.request_id (failure q.tag) results,
)

All-grown :
    (old new : Results) (ids : List ℤ)
    → Grows old new
    → All (HasResult old) ids
    → All (HasResult new) ids
All-grown old new [] grows h = tt
All-grown old new (id ∷ ids) grows (h, hs) = (grows id h, All-grown old new ids grows hs)

module _ (send_single : ℕ → Request → Result Reply)
    (send_multi : ℕ → List Request → Result (List Reply))
    (answers : AnswersAll send_single send_multi) where
  send_from-HasResult :
      (n : ℕ) (ps : List Packet) (results : Results)
      → (new : Results) × (send_from send_single send_multi n ps results ≡ ok new)
        × Grows results new
        × All (HasResult new) (all_ids ps)
  unfolding send_from after_multi
  send_from-HasResult n [] results = (results, refl, λ id h. h, tt)
  send_from-HasResult n (single q ∷ ps) results =
      let (new, e, grows, mine) = single_ok q (send_single n q) results (answers.0 n q) in
      let (last, es, grow, rest) = send_from-HasResult (suc n) ps new in
      (last, rw e es, λ id h. grow id (grows id h), (grow q.request_id mine, rest))
  send_from-HasResult n (multi qs ∷ ps) results =
      let (rs, e, len) = answers.1 n qs in
      let new = inner_results qs rs results in
      let (last, es, grow, rest) = send_from-HasResult (suc n) ps new in
      (
        last,
        rw e es,
        λ id h. grow id (inner_results_old id qs rs results h),
        All-append (HasResult last) (ids_of qs) (all_ids ps)
            (All-grown new last (ids_of qs) grow (inner_results-HasResult qs rs results len)) rest,
      )

-- If nothing but RequestError and ResponseError comes out of sending a packet with one request, and each packet with
-- several has a response to each of them, then sending the packets raises nothing and every request, alone or in a
-- packet with others, has a result.
pub send_requests-HasResult :
    (send_single : ℕ → Request → Result Reply) (send_multi : ℕ → List Request → Result (List Reply))
    (ps : List Packet)
    → AnswersAll send_single send_multi
    → (results : Results) × (send_requests send_single send_multi ps ≡ ok results)
      × All (HasResult results) (all_ids ps)
unfolding send_requests
send_requests-HasResult send_single send_multi ps answers =
    let (new, e, _, each) = send_from-HasResult send_single send_multi answers 0 ps [] in
    (new, e, each)
