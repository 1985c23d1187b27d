-- ===== src/Logix/Grouping/ReadPackets.antt =====
-- Which read requests the packets of `_read_build_multi_requests` of pycomm3/logix_driver.py have.
use pycomm.Base.{
  ℕ, ◌+◌, ◌<◌, ◌≡◌, refl, sym, ap, ◌∙◌, arith, Bool, true, not, List, [], ◌∷◌, ◌++◌, ltb, leb,
  append_assoc, lt→ltb, join, map, All, Bool-cases, inl, inr, if◌then◌else◌,
}
use mathlib.Core.Path.{ap₂}
use pycomm.Logix.Grouping.{
  multiservice_read_overhead, group_from, group_requests, read_groups, ReadPacket, multi,
  fragmented, separate, read_packets,
}
use pycomm.Logix.Grouping.Complete.{FitsOrSingle, read_groups_complete}

-- The requests that satisfy a test, in order.
abbrev pub filter {ℓ} : {A : Type ℓ} → (A → Bool) → List A → List A
filter p [] = []
filter p (x ∷ xs) = let rest = filter p xs in if p x then x ∷ rest else rest

abbrev pub requests_of {ℓ} : {A : Type ℓ} → ReadPacket A → List A
requests_of (multi g) = g
requests_of (fragmented r) = r ∷ []

module _ {ℓ} {A : Type ℓ} (size : A → ℕ) (connection_size : ℕ) where
  -- The reply is larger than the connection.
  abbrev pub is_large : A → Bool
  is_large r = ltb connection_size (size r)

  abbrev pub is_small : A → Bool
  is_small r = not (is_large r)

  -- The first request, if there is one, fits a packet alone.
  abbrev pub first_fits : List A → Bool
  first_fits [] = true
  first_fits (r ∷ rs) = leb (multiservice_read_overhead + size r) connection_size

  abbrev pub FitsPacket : ReadPacket A → Type 0
  FitsPacket (multi g) = FitsOrSingle size connection_size g
  FitsPacket (fragmented r) = connection_size < size r

  separate-filter :
      (rs : List A) → separate size connection_size rs ≡ (filter is_small rs, filter is_large rs)
  unfolding separate
  separate-filter [] = refl
  separate-filter (r ∷ rs) = elim (Bool-cases (is_large r)) [
    | inl h ↦ rw (h, separate-filter rs) refl
    | inr h ↦ rw (h, separate-filter rs) refl
  ]

  requests-append :
      (ps qs : List (ReadPacket A))
      → join (map requests_of (ps ++ qs)) ≡ join (map requests_of ps) ++ join (map requests_of qs)
  requests-append [] qs = refl
  requests-append (p ∷ ps) qs =
      ap (λ z. requests_of p ++ z) (requests-append ps qs)
      ∙ sym (append_assoc (requests_of p) (join (map requests_of ps)) (join (map requests_of qs)))

  requests-multi : (gs : List (List A)) → join (map requests_of (map multi gs)) ≡ join gs
  requests-multi [] = refl
  requests-multi (g ∷ gs) = ap (λ z. g ++ z) (requests-multi gs)

  requests-fragmented : (rs : List A) → join (map requests_of (map fragmented rs)) ≡ rs
  requests-fragmented [] = refl
  requests-fragmented (r ∷ rs) = ap (λ z. r ∷ z) (requests-fragmented rs)

  fitting_packets :
      (gs : List (List A)) (rs : List A)
      → All (FitsOrSingle size connection_size) gs
      → All FitsPacket (map multi gs ++ map fragmented (filter is_large rs))
  fitting_packets [] [] h = tt
  fitting_packets [] (r ∷ rs) h = elim (Bool-cases (is_large r)) [
    | inl large ↦ rw large (ground arith, fitting_packets [] rs tt)
    | inr small ↦ rw small (fitting_packets [] rs tt)
  ]
  fitting_packets (g ∷ gs) rs h = (h.0, fitting_packets gs rs h.1)

  -- All of the groups, or none.
  abbrev Grouped : List A → Type ℓ
  Grouped rs =
      (join (read_groups size connection_size rs) ≡ (if first_fits rs then rs else []))
      × All (FitsOrSingle size connection_size) (read_groups size connection_size rs)

  grouped : (rs : List A) → Grouped rs
  grouped [] = unfold read_groups group_requests group_from in (refl, tt)
  grouped (r ∷ rs) = elim (Bool-cases (first_fits (r ∷ rs))) [
    | inl h ↦ rw h (read_groups_complete size connection_size r rs (ground arith))
    | inr h ↦
        let wide = lt→ltb connection_size (multiservice_read_overhead + size r) (ground arith) in
        unfold read_groups group_requests group_from in rw (h, wide) (refl, tt)
  ]

  -- Reading: the requests whose reply is larger than the connection are read in pieces, behind all others, and
  -- these are in groups, each once and in order, if the first of them fits a packet alone; if it does
  -- not, none of these others is sent, not even those that fit. A group of more than one request fits the connection.
  pub read_packets-requests :
      (rs : List A)
      → (join (map requests_of (read_packets size connection_size rs))
          ≡ (if first_fits (filter is_small rs) then filter is_small rs else [])
            ++ filter is_large rs)
        × All FitsPacket (read_packets size connection_size rs)
  unfolding read_packets
  read_packets-requests rs =
      let (all, each) = grouped (filter is_small rs) in
      let groups = read_groups size connection_size (filter is_small rs) in
      let large = filter is_large rs in
      rw (separate-filter rs) (
        requests-append (map multi groups) (map fragmented large)
            ∙ ap₂ (λ a b. a ++ b) (requests-multi groups ∙ all) (requests-fragmented large),
        fitting_packets groups rs each,
      )
