-- ===== src/Driver/Routes/Written.antt =====
-- Connection paths as they are written, for `parse_connection_path` of pycomm3/cip_driver.py.
use pycomm.Base.{
  ℕ, suc, ◌%◌, ◌≡◌, refl, ap, ◌∙◌, arith, Bool, false, List, [], ◌∷◌, ◌++◌, none, ◌==◌, ==-refl,
  if◌then◌else◌, Text, length, All, ok, ◌⊎◌, inl, inr,
}
use pycomm.Base.Strings.{replace, join_with, split, contains}
use pycomm.Base.Splitting.{Lacks, split-join_with, Lacks-join_with}
use pycomm.Paths.Segments.{Port, Link, Segment}
use pycomm.Driver.Routes.{
  port_of, pair_segments, parse_cip_route, address_of, parse_parts, parse_connection_path,
}

-- A port as it is written and as it is meant, and the link behind it.
pub record Hop : Type 0 where
  pub written : Text
  pub port : Port
  pub link : Text

-- A text with none of the separators.
abbrev pub Plain : Text → Type 0
Plain s = Lacks b'/' s × Lacks b',' s × Lacks b'\\' s

abbrev pub IsHop : Hop → Type 0
IsHop h = (port_of h.written ≡ ok h.port) × Plain h.written × Plain h.link

abbrev pub hop_texts : List Hop → List Text
hop_texts [] = []
hop_texts (h ∷ hs) = h.written ∷ h.link ∷ hop_texts hs

abbrev pub hop_segments : List Hop → List Segment
hop_segments [] = []
hop_segments (h ∷ hs) = Segment.port h.port (Link.address h.link) ∷ hop_segments hs

replace_none : (a b : ℕ) (s : Text) → Lacks a s → replace a b s ≡ s
unfolding replace contains
replace_none a b [] h = refl
replace_none a b (x ∷ xs) h = ground (arith, replace_none a b xs (ground arith))

replace-append : (a b : ℕ) (s t : Text) → replace a b (s ++ t) ≡ replace a b s ++ replace a b t
unfolding replace
replace-append a b [] t = refl
replace-append a b (x ∷ s) t = ap (λ z. (if x == a then b else x) ∷ z) (replace-append a b s t)

replace_head : (a b : ℕ) (s : Text) → replace a b (a ∷ s) ≡ b ∷ replace a b s
unfolding replace
replace_head a b s = rw (==-refl a) refl

replace-join_with :
    (a b : ℕ) (ps : List Text) → All (Lacks a) ps → replace a b (join_with a ps) ≡ join_with b ps
unfolding join_with contains
replace-join_with a b [] h = replace_none a b [] refl
replace-join_with a b (p ∷ []) h = replace_none a b p h.0
replace-join_with a b (p ∷ q ∷ ps) h =
    replace-append a b p (a ∷ join_with a (q ∷ ps))
    ∙ rw
        (
          replace_none a b p h.0,
          replace_head a b (join_with a (q ∷ ps)),
          replace-join_with a b (q ∷ ps) h.1,
        )
        refl

hops-parse : (hs : List Hop) → All IsHop hs → pair_segments (hop_texts hs) ≡ ok (hop_segments hs)
unfolding pair_segments
hops-parse [] h = refl
hops-parse (x ∷ hs) (h, more) = rw (h.0, hops-parse hs more) refl

hops_even : (hs : List Hop) → length (hop_texts hs) % 2 ≡ 0
hops_even [] = refl
hops_even (h ∷ hs) = omega (arith, hops_even hs)

-- The texts that a list of lists has, for each of the three separators.
hops_plain :
    (hs : List Hop)
    → All IsHop hs
    → All (Lacks b'/') (hop_texts hs)
      × All (Lacks b',') (hop_texts hs)
      × All (Lacks b'\\') (hop_texts hs)
hops_plain [] h = (tt, tt, tt)
hops_plain (x ∷ hs) ((e, w, l), more) =
    let (s, c, b) = hops_plain hs more in ((w.0, (l.0, s)), (w.1, (l.1, c)), (w.2, (l.2, b)))

split_alone : (host : Text) → Lacks b':' host → split b':' host ≡ host ∷ []
unfolding join_with
split_alone host h = split-join_with b':' host [] (h, tt)

-- The separators that a path is written with.
abbrev pub IsSeparator : ℕ → Type 0
IsSeparator c = (c ≡ b'/') ⊎ (c ≡ b',') ⊎ (c ≡ b'\\')

separated :
    (c : ℕ) (ps : List Text)
    → IsSeparator c
    → All (Lacks b'/') ps × All (Lacks b',') ps × All (Lacks b'\\') ps
    → replace b',' b'/' (replace b'\\' b'/' (join_with c ps)) ≡ join_with b'/' ps
separated c ps (inl e) (s, k, b) =
    rw (e, replace_none b'\\' b'/' (join_with b'/' ps) (Lacks-join_with b'\\' b'/' ps refl b))
      (replace_none b',' b'/' (join_with b'/' ps) (Lacks-join_with b',' b'/' ps refl k))
separated c ps (inr (inl e)) (s, k, b) =
    rw (e, replace_none b'\\' b'/' (join_with b',' ps) (Lacks-join_with b'\\' b',' ps refl b))
      (replace-join_with b',' b'/' ps k)
separated c ps (inr (inr e)) (s, k, b) =
    rw (e, replace-join_with b'\\' b'/' ps b)
      (replace_none b',' b'/' (join_with b'/' ps) (Lacks-join_with b',' b'/' ps refl k))

module _ (host : Text) (h : Hop) (hs : List Hop) (host_plain : Plain host)
    (no_port : Lacks b':' host) (hops : All IsHop (h ∷ hs)) where
  parts_parse :
      (auto_slot : Bool)
      → parse_parts (host ∷ hop_texts (h ∷ hs)) auto_slot ≡ ok (host, none, hop_segments (h ∷ hs))
  unfolding parse_parts parse_cip_route address_of
  parts_parse auto_slot =
      let odd : (suc (suc (length (hop_texts hs))) % 2 == 1) ≡ false =
        ground (arith, hops_even hs) in
      rw (split_alone host no_port, odd, hops-parse (h ∷ hs) hops) refl

  -- A host and the hops of a route, joined with any of the three separators, are parsed to the host,
  -- no port, and the segments of the hops in order, whether a slot would be added or not.
  pub parse_connection_path-hops :
      (c : ℕ) (auto_slot : Bool)
      → IsSeparator c
      → parse_connection_path (join_with c (host ∷ hop_texts (h ∷ hs))) auto_slot
        ≡ ok (host, none, hop_segments (h ∷ hs))
  unfolding parse_connection_path
  parse_connection_path-hops c auto_slot hc =
      let (s, k, b) = hops_plain (h ∷ hs) hops in
      rw
        (
          separated c (host ∷ hop_texts (h ∷ hs)) hc
              ((host_plain.0, s), (host_plain.1, k), (host_plain.2, b)),
          split-join_with b'/' host (hop_texts (h ∷ hs)) (host_plain.0, s),
        )
        (parts_parse auto_slot)
