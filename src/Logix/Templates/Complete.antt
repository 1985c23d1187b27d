-- ===== src/Logix/Templates/Complete.antt =====
-- Templates that a controller hands out in pieces.
use pycomm.Base.{
  ◌-◌, ℕ, zero, suc, ◌+◌, ◌*◌, ◌≡◌, ◌<◌, ◌≤◌, refl, sym, ◌∙◌, ap, arith, ◌⊎◌, inl, inr, [], ◌++◌,
  append_assoc, append-nil, some, Bytes, length, drop, drop-append, length-append, Result, ok,
  raise_as, response_error,
}
use pycomm.Base.Ints.{pos, negsuc, ◌+ℤ◌}
use pycomm.DataTypes.Integers.{dint, uint}
use pycomm.DataTypes.RoundTrip.Numbers.{encode-InRange}
use pycomm.Logix.Templates.Reading.{
  TemplateReply, template_request, read_from, read_template, finish, has_status,
}

-- A controller that holds the template `raw`: a request that starts before its end, or at 0, is answered with
-- the next bytes, with status 0 when they are the last ones, else with status 6, and at least one byte.
abbrev pub ServesTemplate : (ℕ → Bytes → Result TemplateReply) → ℕ → ℕ → Bytes → Type 0
ServesTemplate respond instance_id size raw =
    (offset : ℕ) (request : Bytes)
    → template_request size offset ≡ ok request
    → (offset ≡ 0) ⊎ (offset < length raw)
    → (piece rest : Bytes) × (status : ℕ) × (respond instance_id request
        ≡ ok (record { service_status = some status; piece = some piece }))
      × (piece ++ rest ≡ drop offset raw)
      × (((rest ≡ []) × (status ≡ 0)) ⊎ ((0 < length piece) × (0 < length rest) × (status ≡ 6)))

left_of : (n m : ℕ) → suc m ≤ n → pos n +ℤ negsuc m ≡ pos (n - suc m)
unfolding ◌+ℤ◌
left_of n m h = ground arith

template_request_ok :
    (size offset : ℕ)
    → offset + 21 ≤ size * 4
    → size * 4 ≤ 65556
    → (request : Bytes) × (template_request size offset ≡ ok request)
unfolding template_request
template_request_ok size offset room small =
    let (from, ef, _) = encode-InRange dint offset (omega arith) in
    let (count, ec, _) = encode-InRange uint (size * 4 - (21 + offset)) (omega arith) in
    let sum : pos (size * 4) +ℤ negsuc (20 + offset) ≡ pos (size * 4 - (21 + offset)) =
      left_of (size * 4) (20 + offset) (omega arith) ∙ ap pos (omega arith) in
    (from ++ count, rw (ef, sum, ec) refl)

module _ (respond : ℕ → Bytes → Result TemplateReply) (instance_id size : ℕ) where
  turn :
      (fuel offset status : ℕ) (request piece before : Bytes)
      → template_request size offset ≡ ok request
      → respond instance_id request
        ≡ ok (record { service_status = some status; piece = some piece })
      → (status ≡ 0) ⊎ (status ≡ 6)
      → read_from respond (suc fuel) instance_id size offset before
        ≡ finish
            (has_status 0 (some status))
            (before ++ piece)
            (read_from respond fuel instance_id size (offset + length piece))
  unfolding read_from
  turn fuel offset status request piece before em er (inl is) = rw (em, er, is) refl
  turn fuel offset status request piece before em er (inr is) = rw (em, er, is) refl

  last_turn :
      (fuel offset status : ℕ) (request piece before : Bytes)
      → template_request size offset ≡ ok request
      → respond instance_id request
        ≡ ok (record { service_status = some status; piece = some piece })
      → status ≡ 0
      → read_from respond (suc fuel) instance_id size offset before ≡ ok (before ++ piece)
  last_turn fuel offset status request piece before em er is =
      turn fuel offset status request piece before em er (inl is) ∙ rw is refl

  next_turn :
      (fuel offset status : ℕ) (request piece before : Bytes)
      → template_request size offset ≡ ok request
      → respond instance_id request
        ≡ ok (record { service_status = some status; piece = some piece })
      → status ≡ 6
      → read_from respond (suc fuel) instance_id size offset before
        ≡ read_from respond fuel instance_id size (offset + length piece) (before ++ piece)
  next_turn fuel offset status request piece before em er is =
      turn fuel offset status request piece before em er (inr is) ∙ rw is refl

  module _ (raw : Bytes) (serves : ServesTemplate respond instance_id size raw)
      (room : length raw + 21 ≤ size * 4) (small : size * 4 ≤ 65556) where
    -- What is read so far is the front of the template.
    read_rest :
        (fuel : ℕ) (before rest : Bytes)
        → before ++ rest ≡ raw
        → (length before ≡ 0) ⊎ (0 < length rest)
        → length rest < fuel
        → read_from respond fuel instance_id size (length before) before ≡ ok raw
    read_rest zero before rest front asked enough = absurd (omega arith)
    read_rest (suc fuel) before rest front asked enough =
        let offset = length before in
        let whole : length raw ≡ offset + length rest =
          omega (arith, ap length front, length-append before rest) in
        let (request, em) = template_request_ok size offset (omega (arith, whole)) small in
        let (piece, after, status, er, cut, ends) = serves offset request em (within whole asked) in
        let left : drop offset raw ≡ rest =
          ap (drop offset) (sym front) ∙ drop-append offset before rest refl in
        let same : piece ++ after ≡ rest = cut ∙ left in
        elim ends [
          | inl (none_left, is) ↦
              last_turn fuel offset status request piece before em er is
              ∙ ap ok (ap (λ t. before ++ t) (all_of piece after rest none_left same) ∙ front)
          | inr (some_bytes, more, is) ↦
              next_turn fuel offset status request piece before em er is
              ∙ ap (λ n. read_from respond fuel instance_id size n (before ++ piece))
                  (sym (length-append before piece))
              ∙ read_rest fuel (before ++ piece) after
                  (append_assoc before piece after ∙ ap (λ t. before ++ t) same ∙ front) (inr more)
                  (omega (arith, ap length same, length-append piece after, some_bytes))
        ]
      where
        within :
            length raw ≡ length before + length rest
            → (length before ≡ 0) ⊎ (0 < length rest)
            → (length before ≡ 0) ⊎ (length before < length raw)
        within whole (inl first) = inl first
        within whole (inr more) = inr (omega (arith, whole))

        all_of : (piece after rest : Bytes) → after ≡ [] → piece ++ after ≡ rest → piece ≡ rest
        all_of piece after rest none_left same =
            sym (append-nil piece) ∙ ap (λ t. piece ++ t) (sym none_left) ∙ same

-- Reading a template from a controller that hands it out in pieces, where the template is at least 21 bytes shorter than four
-- times the size of its definition, which is at most 16389, ends after at most one request more than the template has
-- bytes, and the result is the whole template.
pub read_template-ServesTemplate :
    (respond : ℕ → Bytes → Result TemplateReply) (instance_id size fuel : ℕ) (raw : Bytes)
    → ServesTemplate respond instance_id size raw
    → length raw + 21 ≤ size * 4
    → size * 4 ≤ 65556
    → length raw < fuel
    → read_template respond fuel instance_id size ≡ ok raw
unfolding read_template
read_template-ServesTemplate respond instance_id size fuel raw serves room small enough =
    ap (raise_as response_error)
      (read_rest respond instance_id size raw serves room small fuel [] raw refl (inl refl) enough)
