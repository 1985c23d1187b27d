-- ===== src/CustomTypes/Buffers.antt =====
-- Bytes written into a buffer, seen index by index.
use pycomm.Base.{
  ◌⊎◌, inl, inr, ℕ, zero, suc, ◌+◌, ◌-◌, ◌≤◌, ◌<◌, ◌≡◌, refl, sym, ap, ◌∙◌, arith, [], ◌∷◌, ◌++◌,
  some, Bytes, length, get_elem?, take, drop, replicate, length-append, length-take, length-drop,
  take-append-drop, drop-drop,
}
use native.Mathlib.Nat.{suc-add}
use pycomm.CustomTypes.Encoding.{splice}

get_elem?-append_left :
    (xs ys : Bytes) (i : ℕ) → i < length xs → get_elem? (xs ++ ys) i ≡ get_elem? xs i
get_elem?-append_left [] ys i h = absurd (omega arith)
get_elem?-append_left (x ∷ xs) ys zero h = refl
get_elem?-append_left (x ∷ xs) ys (suc i) h = get_elem?-append_left xs ys i (omega arith)

get_elem?-append_right :
    (xs ys : Bytes) (i : ℕ) → length xs ≤ i → get_elem? (xs ++ ys) i ≡ get_elem? ys (i - length xs)
get_elem?-append_right [] ys i h = ap (get_elem? ys) (omega arith)
get_elem?-append_right (x ∷ xs) ys zero h = absurd (omega arith)
get_elem?-append_right (x ∷ xs) ys (suc i) h =
    get_elem?-append_right xs ys i (omega arith) ∙ ap (get_elem? ys) (omega arith)

get_elem?-take : (n : ℕ) (xs : Bytes) (i : ℕ) → i < n → get_elem? (take n xs) i ≡ get_elem? xs i
get_elem?-take zero xs i h = absurd (omega arith)
get_elem?-take (suc n) [] i h = refl
get_elem?-take (suc n) (x ∷ xs) zero h = refl
get_elem?-take (suc n) (x ∷ xs) (suc i) h = get_elem?-take n xs i (omega arith)

pub get_elem?-drop : (n : ℕ) (xs : Bytes) (i : ℕ) → get_elem? (drop n xs) i ≡ get_elem? xs (n + i)
get_elem?-drop zero xs i = ap (get_elem? xs) (omega arith)
get_elem?-drop (suc n) [] i = refl
get_elem?-drop (suc n) (x ∷ xs) i = get_elem?-drop n xs i ∙ rw suc-add refl

pub get_elem?-replicate : (n x i : ℕ) → i < n → get_elem? (replicate n x) i ≡ some x
get_elem?-replicate zero x i h = absurd (omega arith)
get_elem?-replicate (suc n) x zero h = refl
get_elem?-replicate (suc n) x (suc i) h = get_elem?-replicate n x i (omega arith)

-- Bytes that lie within the buffer.
module _ (o : ℕ) (b buf : Bytes) (fits : o + length b ≤ length buf) where
  length_before : length (take o buf) ≡ o
  length_before = omega (arith, length-take o buf)

  pub length-splice : length (splice o b buf) ≡ length buf
  length-splice = omega (
    arith,
    length-append (take o buf) (b ++ drop (o + length b) buf),
    length-append b (drop (o + length b) buf),
    length-drop (o + length b) buf,
    length_before,
  )

  from :
      (i : ℕ)
      → o ≤ i
      → get_elem? (splice o b buf) i ≡ get_elem? (b ++ drop (o + length b) buf) (i - o)
  from i h =
      get_elem?-append_right (take o buf) (b ++ drop (o + length b) buf) i
        (omega (arith, length_before))
      ∙ ap (λ n. get_elem? (b ++ drop (o + length b) buf) (i - n)) length_before

  pub splice_inside : (i : ℕ) → i < length b → get_elem? (splice o b buf) (o + i) ≡ get_elem? b i
  splice_inside i h =
      from (o + i) (omega arith)
      ∙ ap (get_elem? (b ++ drop (o + length b) buf)) (omega arith)
      ∙ get_elem?-append_left b (drop (o + length b) buf) i h

  splice_before : (i : ℕ) → i < o → get_elem? (splice o b buf) i ≡ get_elem? buf i
  splice_before i h =
      get_elem?-append_left (take o buf) (b ++ drop (o + length b) buf) i
        (omega (arith, length_before))
      ∙ get_elem?-take o buf i h

  splice_behind : (i : ℕ) → o + length b ≤ i → get_elem? (splice o b buf) i ≡ get_elem? buf i
  splice_behind i h =
      from i (omega arith)
      ∙ get_elem?-append_right b (drop (o + length b) buf) (i - o) (omega arith)
      ∙ get_elem?-drop (o + length b) buf (i - o - length b)
      ∙ ap (get_elem? buf) (omega arith)

  pub splice_outside :
      (i : ℕ) → (i < o) ⊎ (o + length b ≤ i) → get_elem? (splice o b buf) i ≡ get_elem? buf i
  splice_outside i (inl h) = splice_before i h
  splice_outside i (inr h) = splice_behind i h

-- The bytes `b` stand at `o`.
abbrev pub Holds : Bytes → ℕ × Bytes → Type 0
Holds buf (o, b) = (i : ℕ) → i < length b → get_elem? buf (o + i) ≡ get_elem? b i

take-eq :
    (b xs : Bytes)
    → length b ≤ length xs
    → ((i : ℕ) → i < length b → get_elem? xs i ≡ get_elem? b i)
    → take (length b) xs ≡ b
take-eq [] xs h same = refl
take-eq (c ∷ b) [] h same = absurd (omega arith)
take-eq (c ∷ b) (x ∷ xs) h same =
    let here : some x ≡ some c = same 0 (omega arith) in
    let rest = take-eq b xs (omega arith) (λ i lt. same (suc i) (omega arith)) in cc

-- What stands at `o`, and what is behind it.
pub drop-Holds :
    (o : ℕ) (b buf : Bytes)
    → o + length b ≤ length buf
    → Holds buf (o, b)
    → drop o buf ≡ b ++ drop (o + length b) buf
drop-Holds o b buf fits held =
    let cut : take (length b) (drop o buf) ≡ b =
      take-eq b (drop o buf) (omega (arith, length-drop o buf))
        (λ i lt. get_elem?-drop o buf i ∙ held i lt) in
    sym (take-append-drop (length b) (drop o buf))
    ∙ ap (λ t. t ++ drop (length b) (drop o buf)) cut
    ∙ ap (λ t. b ++ t) (sym (drop-drop o (length b) buf))
