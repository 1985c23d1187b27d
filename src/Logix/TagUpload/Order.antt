-- ===== src/Logix/TagUpload/Order.antt =====
-- Pages of symbols in the order of their numbers.
use pycomm.Base.{
  ℕ, suc, ◌+◌, ◌<◌, ◌≤◌, ◌≡◌, refl, ◌∙◌, arith, List, [], ◌∷◌, ◌++◌, ltb, if◌then◌else◌, if-true,
  if-false, lt→ltb, le→ltb, length, All,
}
use pycomm.Logix.Symbols.{Symbol}
use pycomm.Logix.TagUpload.{last_instance_of}

-- The numbers of the symbols increase, from a bound on.
abbrev pub Increasing : ℕ → List Symbol → Type 0
Increasing lo [] = Unit {0}
Increasing lo (s ∷ ss) = (lo ≤ s.instance_id) × Increasing (suc s.instance_id) ss

-- The symbols from a number on.
unfoldable pub starting_at : ℕ → List Symbol → List Symbol
starting_at n [] = []
starting_at n (s ∷ ss) = if ltb s.instance_id n then starting_at n ss else s ∷ ss

-- The bound behind a page.
abbrev pub bound_after : ℕ → List Symbol → ℕ
bound_after lo [] = lo
bound_after lo (s ∷ ss) = bound_after (suc s.instance_id) ss

pub bound_after-le :
    (lo : ℕ) (front rest : List Symbol) → Increasing lo (front ++ rest) → lo ≤ bound_after lo front
bound_after-le lo [] rest h = omega arith
bound_after-le lo (s ∷ front) rest (h, hs) =
    omega (arith, h, bound_after-le (suc s.instance_id) front rest hs)

pub bound_after-Increasing :
    (lo : ℕ) (front rest : List Symbol)
    → Increasing lo (front ++ rest)
    → Increasing (bound_after lo front) rest
bound_after-Increasing lo [] rest h = h
bound_after-Increasing lo (s ∷ front) rest (h, hs) =
    bound_after-Increasing (suc s.instance_id) front rest hs

pub starting_at-Increasing : (lo : ℕ) (ss : List Symbol) → Increasing lo ss → starting_at lo ss ≡ ss
unfolding starting_at
starting_at-Increasing lo [] h = refl
starting_at-Increasing lo (s ∷ ss) (h, hs) =
    if-false (ltb s.instance_id lo) _ _ (le→ltb s.instance_id lo h)

-- What starts behind a page is the rest.
pub starting_at-bound_after :
    (lo : ℕ) (front rest : List Symbol)
    → Increasing lo (front ++ rest)
    → starting_at (bound_after lo front) (front ++ rest) ≡ rest
unfolding starting_at
starting_at-bound_after lo [] rest h = starting_at-Increasing lo rest h
starting_at-bound_after lo (s ∷ front) rest (h, hs) =
    if-true (ltb s.instance_id (bound_after (suc s.instance_id) front)) _ _
      (lt→ltb s.instance_id _ (omega (arith, bound_after-le (suc s.instance_id) front rest hs)))
    ∙ starting_at-bound_after (suc s.instance_id) front rest hs

pub starting_at_twice :
    (lo n : ℕ) (ss : List Symbol) → lo ≤ n → starting_at n (starting_at lo ss) ≡ starting_at n ss
unfolding starting_at
starting_at_twice lo n [] h = refl
starting_at_twice lo n (s ∷ ss) h = ground (arith, starting_at_twice lo n ss h)

pub All-front :
    (P : Symbol → Type 0) (front back : List Symbol) → All P (front ++ back) → All P front
All-front P [] back h = tt
All-front P (s ∷ front) back (h, hs) = (h, All-front P front back hs)

pub All-back : (P : Symbol → Type 0) (front back : List Symbol) → All P (front ++ back) → All P back
All-back P [] back h = h
All-back P (s ∷ front) back (h, hs) = All-back P front back hs

pub last_instance_of-bound_after :
    (lo : ℕ) (page : List Symbol)
    → 0 < length page
    → last_instance_of page + 1 ≡ bound_after lo page
last_instance_of-bound_after lo [] h = absurd (omega arith)
last_instance_of-bound_after lo (s ∷ []) h = omega arith
last_instance_of-bound_after lo (s ∷ t ∷ ss) h =
    last_instance_of-bound_after (suc s.instance_id) (t ∷ ss) (omega arith)
