-- ===== src/Logix/Grouping/Complete.antt =====
-- Which requests the groups of pycomm3/logix_driver.py have, and how large the groups are.
use pycomm.Base.{
  subst, ℕ, ◌+◌, ◌<◌, ◌≤◌, ◌≡◌, refl, sym, ap, ◌∙◌, arith, List, [], ◌∷◌, ◌++◌, append_assoc, ltb,
  le→ltb, join, length, All, Bool-cases, inl, inr, ◌⊎◌,
}
use pycomm.Logix.Grouping.{
  multiservice_read_overhead, group_from, group_requests, read_groups, filled, write_groups,
}

module _ {ℓ} {A : Type ℓ} (size : A → ℕ) (connection_size : ℕ) where
  abbrev pub total : List A → ℕ
  total [] = 0
  total (r ∷ rs) = size r + total rs

  -- A group's packet is within the connection's size.
  abbrev pub FitsConnection : List A → Type 0
  FitsConnection g = multiservice_read_overhead + total g ≤ connection_size

  -- A request that can be sent in a packet with no other.
  abbrev pub FitsAlone : A → Type 0
  FitsAlone r = multiservice_read_overhead + size r ≤ connection_size

  total-snoc : (g : List A) (r : A) → total (g ++ (r ∷ [])) ≡ total g + size r
  total-snoc [] r = omega arith
  total-snoc (x ∷ g) r = omega (arith, total-snoc g r)

  join-group_from :
      (used : ℕ) (current rs : List A)
      → join (group_from size connection_size used current rs) ≡ current ++ rs
  unfolding group_from
  join-group_from used current [] = refl
  join-group_from used current (r ∷ rs) = elim (Bool-cases (ltb connection_size (used + size r))) [
    | inl h ↦
        rw h (
          ap (λ t. current ++ t)
            (join-group_from (multiservice_read_overhead + size r) (r ∷ []) rs))
    | inr h ↦ rw h (
        join-group_from (used + size r) (current ++ (r ∷ [])) rs ∙ append_assoc current (r ∷ []) rs)
  ]

  -- What is true of every group: it fits the connection or has at most one request.
  abbrev pub FitsOrSingle : List A → Type 0
  FitsOrSingle g = FitsConnection g ⊎ (length g ≤ 1)

  fitting_groups :
      (used : ℕ) (current rs : List A)
      → used ≡ multiservice_read_overhead + total current
      → FitsOrSingle current
      → All FitsOrSingle (group_from size connection_size used current rs)
  unfolding group_from
  fitting_groups used current [] e this = (this, tt)
  fitting_groups used current (r ∷ rs) e this =
      let more = total-snoc current r in
      elim (Bool-cases (ltb connection_size (used + size r))) [
        | inl k ↦ rw k (
          this,
          fitting_groups (multiservice_read_overhead + size r) (r ∷ []) rs (omega arith)
              (inr (omega arith)),
        )
        | inr k ↦ rw k (
            fitting_groups (used + size r) (current ++ (r ∷ [])) rs (omega (arith, e, more))
              (inl (ground (arith, e, more))))
      ]

  join-filled : (gs : List (List A)) → join (filled size connection_size gs) ≡ join gs
  unfolding filled
  join-filled [] = refl
  join-filled ([] ∷ gs) = join-filled gs
  join-filled ((x ∷ g) ∷ gs) = ap (λ t. (x ∷ g) ++ t) (join-filled gs)

  filled-All :
      (gs : List (List A))
      → All FitsOrSingle gs
      → All (λ g. (0 < length g) × FitsOrSingle g) (filled size connection_size gs)
  unfolding filled
  filled-All [] h = tt
  filled-All ([] ∷ gs) h = filled-All gs h.1
  filled-All ((x ∷ g) ∷ gs) h = ((omega arith, h.0), filled-All gs h.1)

  -- Writing: the groups, one behind the other, are the requests, each once and in the order asked
  -- for. No group is empty, and a group of more than one request fits the connection.
  pub write_groups_complete :
      (rs : List A)
      → (join (write_groups size connection_size rs) ≡ rs)
        × All (λ g. (0 < length g) × FitsOrSingle g) (write_groups size connection_size rs)
  unfolding write_groups group_requests
  write_groups_complete rs = (
    join-filled (group_requests size connection_size rs)
        ∙ join-group_from multiservice_read_overhead [] rs,
    filled-All (group_requests size connection_size rs)
        (fitting_groups multiservice_read_overhead [] rs (omega arith) (inr (omega arith))),
  )

  group_from-front :
      (used : ℕ) (x : A) (current rs : List A)
      → (y : A) × (g : List A) × (gs : List (List A)) × (group_from size connection_size used
            (x ∷ current)
            rs
          ≡ (y ∷ g) ∷ gs)
  unfolding group_from
  group_from-front used x current [] = (x, current, [], refl)
  group_from-front used x current (r ∷ rs) =
      elim (Bool-cases (ltb connection_size (used + size r))) [
        | inl k ↦ (
          x,
          current,
          group_from size connection_size (multiservice_read_overhead + size r) (r ∷ []) rs,
          rw k refl,
        )
        | inr k ↦ rw k (group_from-front (used + size r) x (current ++ (r ∷ [])) rs)
      ]

  pub read_groups_complete :
      (r : A) (rs : List A)
      → FitsAlone r
      → (join (read_groups size connection_size (r ∷ rs)) ≡ r ∷ rs)
        × All FitsOrSingle (read_groups size connection_size (r ∷ rs))
  unfolding read_groups group_requests group_from
  read_groups_complete r rs fits =
      let first : ℕ = multiservice_read_overhead + size r in
      let (y, g, gs, e) = group_from-front first r [] rs in
      let whole = join-group_from first (r ∷ []) rs in
      let each = fitting_groups first (r ∷ []) rs (omega arith) (inr (omega arith)) in
      rw (le→ltb connection_size first fits, e)
        (sym (ap join e) ∙ whole, subst (All FitsOrSingle) e each)
