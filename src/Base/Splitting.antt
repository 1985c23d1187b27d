-- ===== src/Base/Splitting.antt =====
-- Splitting a text at a character, and joining.
use pycomm.Base.Tests.{Text, ◌==◌, ==-refl}
use pycomm.Base.Lists.{All}
use pycomm.Base.Strings.{contains, before, after, split, join_with, drop_last}
use Prim.Native.Nat.{ℕ}
use mathlib.Core.Path.{◌≡◌, refl, ap}
use mathlib.Core.Bool.{true, false}
use mathlib.Core.List.{List, [], ◌∷◌, ◌++◌}
use native.Mathlib.Omega.{arith}

-- The character does not occur.
abbrev pub Lacks : ℕ → Text → Type 0
Lacks c s = contains c s ≡ false

module _ (c : ℕ) where
  pub Lacks-append : (s t : Text) → Lacks c s → Lacks c t → Lacks c (s ++ t)
  unfolding contains
  Lacks-append [] t hs ht = ht
  Lacks-append (x ∷ xs) t hs ht = ground (arith, Lacks-append xs t (ground arith) ht)

  pub Lacks-cons : (d : ℕ) (s : Text) → (d == c) ≡ false → Lacks c s → Lacks c (d ∷ s)
  unfolding contains
  Lacks-cons d s hd hs = ground arith

  pub contains-middle : (s t : Text) → contains c (s ++ (c ∷ t)) ≡ true
  unfolding contains
  contains-middle [] t = rw (==-refl c)
  contains-middle (x ∷ xs) t = ground (arith, contains-middle xs t)

  pub before-middle : (s t : Text) → Lacks c s → before c (s ++ (c ∷ t)) ≡ s
  unfolding before contains
  before-middle [] t h = rw (==-refl c)
  before-middle (x ∷ xs) t h = ground (arith, before-middle xs t (ground arith))

  pub after-middle : (s t : Text) → Lacks c s → after c (s ++ (c ∷ t)) ≡ t
  unfolding after contains
  after-middle [] t h = rw (==-refl c)
  after-middle (x ∷ xs) t h = ground (arith, after-middle xs t (ground arith))

  pub split-Lacks : (s : Text) → Lacks c s → split c s ≡ s ∷ []
  unfolding split contains
  split-Lacks [] h = refl
  split-Lacks (x ∷ xs) h = ground (arith, split-Lacks xs (ground arith))

  pub split-middle : (s t : Text) → Lacks c s → split c (s ++ (c ∷ t)) ≡ s ∷ split c t
  unfolding split contains
  split-middle [] t h = rw (==-refl c)
  split-middle (x ∷ xs) t h = ground (arith, split-middle xs t (ground arith))

  pub split-join_with :
      (p : Text) (ps : List Text) → All (Lacks c) (p ∷ ps) → split c (join_with c (p ∷ ps)) ≡ p ∷ ps
  unfolding join_with
  split-join_with p [] h = split-Lacks p h.0
  split-join_with p (q ∷ ps) h =
      rw (split-middle p (join_with c (q ∷ ps)) h.0, split-join_with q ps h.1)

  -- Joining at another character.
  pub Lacks-join_with :
      (d : ℕ) (ps : List Text) → (d == c) ≡ false → All (Lacks c) ps → Lacks c (join_with d ps)
  unfolding join_with contains
  Lacks-join_with d [] hd h = refl
  Lacks-join_with d (p ∷ []) hd h = h.0
  Lacks-join_with d (p ∷ q ∷ ps) hd h =
      Lacks-append p (d ∷ join_with d (q ∷ ps)) h.0
        (Lacks-cons d (join_with d (q ∷ ps)) hd (Lacks-join_with d (q ∷ ps) hd h.1))

pub drop_last-snoc : (s : Text) (c : ℕ) → drop_last (s ++ (c ∷ [])) ≡ s
unfolding drop_last
drop_last-snoc [] c = refl
drop_last-snoc (x ∷ []) c = refl
drop_last-snoc (x ∷ y ∷ ys) c = ap (λ t. x ∷ t) (drop_last-snoc (y ∷ ys) c)
