-- ===== src/Slc/Addresses/Bounds.antt =====
-- The numbers of an address that is parsed.
use pycomm.Base.{
  ℕ, zero, suc, ◌<◌, ◌≡◌, refl, subst, ◌⊎◌, inl, inr, arith, List, [], ◌∷◌, Option, none, some,
  Text, text, All,
}
use pycomm.Slc.Patterns.{Matcher, ◌>>=◌, ◌otherwise◌, search, here_or, one_of, literal, digits}
use pycomm.Slc.Expressions.{
  Groups, or_default, ct_re, lfbn_re, io_re, st_re, letter_re, s_re, counter_bit, counter_bits,
  element_and_bit, element_then_bit, any_char,
}
use pycomm.Slc.Addresses.{
  Address, parse_tag, ct_address, lfbn_address, io_address, word_address, s_address, b_address,
}

-- What the USINTs of a message can hold, and the bits of a word.
abbrev pub IsAddress : Address → Type 0
IsAddress a = (a.file_number < 256) × (a.element_number < 256) × (a.sub_element < 16)

abbrev Low : Groups → Type 0
Low g = or_default g.sub_element 0 < 16

otherwise-eq-some :
    {A : Type 0} (x y : Option A) (a : A) → (x otherwise y) ≡ some a → (x ≡ some a) ⊎ (y ≡ some a)
otherwise-eq-some none y a h = inr h
otherwise-eq-some (some b) y a h = inl h

>>=-eq-some :
    {A B : Type 0} (x : Option A) (f : A → Option B) (b : B)
    → (x >>= f) ≡ some b
    → (a : A) × (x ≡ some a) × (f a ≡ some b)
>>=-eq-some none f b h = cc
>>=-eq-some (some a) f b h = (a, refl, h)

ct_address-IsAddress :
    (g : Groups) (m : Text) (a : Address)
    → or_default g.sub_element 0 < 16
    → ct_address g m ≡ some a
    → IsAddress a
unfolding ct_address
ct_address-IsAddress g m a low h = ground arith

lfbn_address-IsAddress :
    (g : Groups) (m : Text) (a : Address) → lfbn_address g m ≡ some a → IsAddress a
unfolding lfbn_address
lfbn_address-IsAddress g m a h = ground arith

io_address-IsAddress : (g : Groups) (m : Text) (a : Address) → io_address g m ≡ some a → IsAddress a
unfolding io_address
io_address-IsAddress g m a h = ground arith

word_address-IsAddress :
    (g : Groups) (m : Text) (a : Address)
    → or_default g.sub_element 0 < 16
    → word_address g m ≡ some a
    → IsAddress a
unfolding word_address
word_address-IsAddress g m a low h = ground arith

s_address-IsAddress : (g : Groups) (m : Text) (a : Address) → s_address g m ≡ some a → IsAddress a
unfolding s_address
s_address-IsAddress g m a h = ground arith

b_address-IsAddress : (g : Groups) (m : Text) (a : Address) → b_address g m ≡ some a → IsAddress a
unfolding b_address
b_address-IsAddress g m a h = ground arith

here_or-eq-some :
    {A : Type 0} (s : Text) (o later : Option (A × Text)) (a : A) (t : Text)
    → here_or s o later ≡ some (a, t)
    → ((rest : Text) × (o ≡ some (a, rest))) ⊎ (later ≡ some (a, t))
unfolding here_or
here_or-eq-some s none later a t h = inr h
here_or-eq-some s (some (b, rest)) later a t h = inl (rest, (cc))

-- What `search` returns was matched somewhere.
search-eq-some :
    {A : Type 0} (m : Matcher A) (s : Text) (a : A) (t : Text)
    → search m s ≡ some (a, t)
    → (s' rest : Text) × (m s' ≡ some (a, rest))
unfolding search
search-eq-some m [] a t h = cc
search-eq-some m (c ∷ cs) a t h = elim (here_or-eq-some (c ∷ cs) (m (c ∷ cs)) (search m cs) a t h) [
  | inl (rest, e) ↦ (c ∷ cs, rest, e)
  | inr later ↦ search-eq-some m cs a t later
]

-- The bits of counters and timers.
counter_bit-lt :
    (names : List (Text × ℕ)) (s : Text) (v : ℕ) (rest : Text)
    → All (λ p. p.1 < 16) names
    → counter_bit names s ≡ some (v, rest)
    → v < 16
unfolding counter_bit
counter_bit-lt [] s v rest low h = cc
counter_bit-lt ((name, value) ∷ names) s v rest (h0, low) h =
    ground (arith, counter_bit-lt names s v rest low)

counter_bits_low : All (λ p. p.1 < 16) counter_bits
counter_bits_low = (
  omega arith,
  (
    omega arith,
    (
      omega arith,
      (
        omega arith,
        (
          omega arith,
          (omega arith, (omega arith, (omega arith, (omega arith, (omega arith, tt))))),
        ),
      ),
    ),
  ),
)

some-first :
    {A : Type 0} {a b : A} {s t : Text}
    → ◌≡◌ {A = Option (A × Text)} (some (a, s)) (some (b, t))
    → a ≡ b
some-first h = cc

element_then_bit-lt :
    (most : ℕ) (s : Text) (p : ℕ × ℕ) (rest : Text)
    → element_then_bit most s ≡ some (p, rest)
    → p.1 < 16
unfolding element_then_bit
element_then_bit-lt most s p rest h =
    let ((e, s1), _, h1) = >>=-eq-some (digits most s) _ _ h in
    let ((_, s2), _, h2) = >>=-eq-some (any_char s1) _ _ h1 in
    let ((v, s3), found, h3) = >>=-eq-some (counter_bit counter_bits s2) _ _ h2 in
    subst (λ q. q.1 < 16) (some-first h3)
      (counter_bit-lt counter_bits s2 v s3 counter_bits_low found)

element_and_bit-lt :
    (most : ℕ) (s : Text) (p : ℕ × ℕ) (rest : Text)
    → element_and_bit most s ≡ some (p, rest)
    → p.1 < 16
unfolding element_and_bit
element_and_bit-lt zero s p rest h = cc
element_and_bit-lt (suc most) s p rest h =
    elim (otherwise-eq-some (element_then_bit (suc most) s) (element_and_bit most s) (p, rest) h) [
      | inl e ↦ element_then_bit-lt (suc most) s p rest e
      | inr e ↦ element_and_bit-lt most s p rest e
    ]

ct_re-lt :
    (s : Text) (g : Groups) (rest : Text)
    → ct_re s ≡ some (g, rest)
    → or_default g.sub_element 0 < 16
unfolding ct_re
ct_re-lt s g rest h =
    let ((letter, s1), _, h1) = >>=-eq-some (one_of (text "CT") s) _ _ h in
    let ((file, s2), _, h2) = >>=-eq-some (digits 3 s1) _ _ h1 in
    let ((_, s3), _, h3) = >>=-eq-some (literal b':' s2) _ _ h2 in
    let (((element, bit), s4), found, h4) = >>=-eq-some (element_and_bit 3 s3) _ _ h3 in
    subst Low (some-first h4) (element_and_bit-lt 3 s3 (element, bit) s4 found)

no_sub_element :
    (s : Text) (g : Groups) (rest : Text)
    → st_re s ≡ some (g, rest)
    → or_default g.sub_element 0 < 16
unfolding st_re
no_sub_element s g rest h =
    let ((_, s1), _, h1) = >>=-eq-some (one_of (text "S") s) _ _ h in
    let ((_, s2), _, h2) = >>=-eq-some (one_of (text "T") s1) _ _ h1 in
    let ((file, s3), _, h3) = >>=-eq-some (digits 3 s2) _ _ h2 in
    let ((_, s4), _, h4) = >>=-eq-some (literal b':' s3) _ _ h3 in
    let ((element, s5), _, h5) = >>=-eq-some (digits 4 s4) _ _ h4 in
    subst Low (some-first h5) (omega arith)

letter_re-lt :
    (letters : Text) (c : ℕ) (s : Text) (g : Groups) (rest : Text)
    → letter_re letters c s ≡ some (g, rest)
    → or_default g.sub_element 0 < 16
unfolding letter_re
letter_re-lt letters c s g rest h =
    let ((letter, s1), _, h1) = >>=-eq-some (one_of letters s) _ _ h in
    let ((file, s2), _, h2) = >>=-eq-some (digits 3 s1) _ _ h1 in
    let ((_, s3), _, h3) = >>=-eq-some (literal c s2) _ _ h2 in
    let ((element, s4), _, h4) = >>=-eq-some (digits 4 s3) _ _ h3 in
    subst Low (some-first h4) (omega arith)

-- A search whose matches satisfy `P`, and a check that gives an address within the bounds for them.
searched :
    {P : Groups → Type 0} (m : Matcher Groups) (check : Groups → Text → Option Address) (s : Text)
    (a : Address)
    → ((s' : Text) (g : Groups) (rest : Text) → m s' ≡ some (g, rest) → P g)
    → ((g : Groups) (t : Text) → P g → check g t ≡ some a → IsAddress a)
    → (search m s >>= λ (g, t). check g t) ≡ some a
    → IsAddress a
searched m check s a matched checked h =
    let ((g, t), found, h1) = >>=-eq-some (search m s) _ a h in
    let (s', rest, e) = search-eq-some m s g t found in checked g t (matched s' g rest e) h1

abbrev Any : Groups → Type 0
Any g = Unit {0}

-- A tag that is parsed has a file and an element number that fit one byte, and its bit is one of the 16 of a word.
pub parse_tag-IsAddress :
    (s : Text) (a : Address)
    → parse_tag s ≡ some a
    → (a.file_number < 256) × (a.element_number < 256) × (a.sub_element < 16)
unfolding parse_tag
parse_tag-IsAddress s a h0 = elim (otherwise-eq-some _ _ a h0) [
  | inl h ↦ searched {P = Low} ct_re ct_address s a ct_re-lt (λ g t. ct_address-IsAddress g t a) h
  | inr h1 ↦ elim (otherwise-eq-some _ _ a h1) [
    | inl h ↦
        searched {P = Any} lfbn_re lfbn_address s a (λ _ _ _ _. tt)
          (λ g t _. lfbn_address-IsAddress g t a) h
    | inr h2 ↦ elim (otherwise-eq-some _ _ a h2) [
      | inl h ↦
          searched {P = Any} io_re io_address s a (λ _ _ _ _. tt)
            (λ g t _. io_address-IsAddress g t a) h
      | inr h3 ↦ elim (otherwise-eq-some _ _ a h3) [
        | inl h ↦
            searched {P = Low} st_re word_address s a no_sub_element
              (λ g t. word_address-IsAddress g t a) h
        | inr h4 ↦ elim (otherwise-eq-some _ _ a h4) [
          | inl h ↦
              searched {P = Low} (letter_re (text "A") b':') word_address s a
                (letter_re-lt (text "A") b':') (λ g t. word_address-IsAddress g t a) h
          | inr h5 ↦ elim (otherwise-eq-some _ _ a h5) [
            | inl h ↦
                searched {P = Any} s_re s_address s a (λ _ _ _ _. tt)
                  (λ g t _. s_address-IsAddress g t a) h
            | inr h ↦
                searched {P = Any} (letter_re (text "B") b'/') b_address s a (λ _ _ _ _. tt)
                  (λ g t _. b_address-IsAddress g t a) h
          ]
        ]
      ]
    ]
  ]
]
