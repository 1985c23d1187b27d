-- ===== src/Utilities/Numbers.antt =====
-- The values of a cycle.
use pycomm.Base.{
  ap, ℕ, zero, suc, ◌+◌, ◌≤◌, ◌≡◌, refl, arith, ltb, lt→ltb, le→ltb, Bool-cases, inl, inr,
  if◌then◌else◌, ◌==◌, length, List, [], ◌∷◌, All,
}
use pycomm.Utilities.{next_value, values_from, cycle}

-- Each value is the one before it and one, or `start` behind `stop`.
abbrev pub Follows : ℕ → ℕ → List ℕ → Type 0
Follows stop start [] = Unit {0}
Follows stop start (v ∷ []) = Unit {0}
Follows stop start (v ∷ w ∷ vs) =
    (w ≡ (if v == stop then start else v + 1)) × Follows stop start (w ∷ vs)

module _ (stop start : ℕ) (hs : start ≤ stop) where
  next-bounds :
      (val : ℕ)
      → start ≤ val
      → val ≤ stop + 1
      → (v : ℕ) × (next_value stop start val ≡ (v, v + 1)) × (start ≤ v) × (v ≤ stop)
  unfolding next_value
  next-bounds val hv hb = elim (Bool-cases (ltb stop val)) [
    | inl h ↦ (start, rw h refl, omega arith, hs)
    | inr h ↦ (val, rw h refl, hv, ground arith)
  ]

  next_after :
      (v : ℕ)
      → v ≤ stop
      → next_value stop start (v + 1)
        ≡ (if v == stop then start else v + 1, (if v == stop then start else v + 1) + 1)
  unfolding next_value
  next_after v h = elim (Bool-cases (v == stop)) [
    | inl e ↦ rw (e, lt→ltb stop (v + 1) (ground arith)) refl
    | inr n ↦ rw (n, le→ltb stop (v + 1) (ground arith)) refl
  ]

  unrolled :
      (n val v w : ℕ)
      → next_value stop start val ≡ (v, w)
      → values_from stop start val (suc n) ≡ v ∷ values_from stop start w n
  unfolding values_from
  unrolled n val v w e = ap (λ p. p.0 ∷ values_from stop start p.1 n) e

  none_yet : (val : ℕ) → values_from stop start val 0 ≡ []
  unfolding values_from
  none_yet val = refl

  abbrev Numbered : ℕ → List ℕ → Type 0
  Numbered n vs = (length vs ≡ n) × All (λ v. (start ≤ v) × (v ≤ stop)) vs × Follows stop start vs

  numbered : (n val : ℕ) → start ≤ val → val ≤ stop + 1 → Numbered n (values_from stop start val n)
  numbered zero val hv hb = rw (none_yet val) (refl, tt, tt)
  numbered (suc zero) val hv hb =
      let (v, e, lo, hi) = next-bounds val hv hb in
      rw (unrolled 0 val v (v + 1) e, none_yet (v + 1)) (refl, ((lo, hi), tt), tt)
  numbered (suc (suc n)) val hv hb =
      let (v, e, lo, hi) = next-bounds val hv hb in
      let w : ℕ = if v == stop then start else v + 1 in
      let second = unrolled n (v + 1) w (w + 1) (next_after v hi) in
      let (size, bounds, follow) =
        rw second at (numbered (suc n) (v + 1) (omega arith) (omega arith)) in
      rw (unrolled (suc n) val v (v + 1) e, second)
        (ap suc size, ((lo, hi), bounds), (refl, follow))

  -- A cycle yields as many values as are asked for, each between `start` and `stop`, and each is
  -- the one before it and one, or `start` behind `stop`.
  cycle-numbers :
      (n : ℕ)
      → (length (cycle stop start n) ≡ n)
        × All (λ v. (start ≤ v) × (v ≤ stop)) (cycle stop start n)
        × Follows stop start (cycle stop start n)
  unfolding cycle
  cycle-numbers n = numbered n start (omega arith) (omega arith)
