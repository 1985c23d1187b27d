-- ===== src/Slc/Patterns.antt =====
-- The regular expressions of pycomm3/slc_driver.py, as functions that take what they match from the front
-- of a text. Texts are in ASCII.
use pycomm.Base.{
  ℕ, zero, suc, ◌+◌, ◌-◌, ◌*◌, Bool, true, false, ◌&&◌, [], ◌∷◌, Option, none, some, ◌==◌, leb,
  if◌then◌else◌, Text, length, take,
}
use pycomm.Base.Strings.{is_digit_char, contains}

-- What a part of an expression matches, and the text behind it.
abbrev pub Matcher : Type 0 → Type 0
Matcher A = Text → Option (A × Text)

infixl 5 ◌>>=◌
abbrev pub ◌>>=◌ : {A B : Type 0} → Option A → (A → Option B) → Option B
none >>= next = none
(some a) >>= next = next a

-- `a or b` of two matches.
infixr 4 ◌otherwise◌
abbrev pub ◌otherwise◌ : {A : Type 0} → Option A → Option A → Option A
none otherwise b = b
(some a) otherwise b = some a

abbrev pub when : Bool → Option (Unit {0})
when true = some tt
when false = none

-- `.upper()`
abbrev pub upper_char : ℕ → ℕ
upper_char c = if leb b'a' c && leb c b'z' then c - 32 else c

unfoldable pub upper : Text → Text
upper [] = []
upper (c ∷ cs) = upper_char c ∷ upper cs

-- A character of a set, whatever its case; it comes back in upper case.
unfoldable pub one_of : Text → Matcher ℕ
one_of cs [] = none
one_of cs (x ∷ xs) = if contains (upper_char x) cs then some (upper_char x, xs) else none

unfoldable pub literal : ℕ → Matcher (Unit {0})
literal c [] = none
literal c (x ∷ xs) = if x == c then some (tt, xs) else none

-- As many digits as there are, at most `most`; `int` of them after the digits of `n`.
unfoldable pub more_digits : ℕ → ℕ → Text → ℕ × Text
more_digits zero n s = (n, s)
more_digits (suc most) n [] = (n, [])
more_digits (suc most) n (c ∷ cs) =
    let rest = more_digits most (n * 10 + (c - b'0')) cs in
    if is_digit_char c then rest else (n, c ∷ cs)

-- `\d{1,most}`
unfoldable pub digits : ℕ → Matcher ℕ
digits most [] = none
digits most (c ∷ cs) = if is_digit_char c then some (more_digits (most - 1) (c - b'0') cs) else none

-- `(...)?`
abbrev pub optional : {A : Type 0} → Matcher A → Text → Option A × Text
optional m s = elim (m s) [ none ↦ (none, s) | some (a, rest) ↦ (some a, rest) ]

-- `/(?P<sub_element>\d{1,2})`
unfoldable pub sub_element : Matcher ℕ
sub_element s = do (_, s') ← literal b'/' s; digits 2 s'

-- `{(?P<element_count>\d+)}`
unfoldable pub element_count : Matcher ℕ
element_count s = do
  (_, s') ← literal b'{' s
  (n, s'') ← digits (length s') s'
  (_, rest) ← literal b'}' s''
  some (n, rest)

-- The match at the front of a text, or else the later one.
unfoldable pub here_or :
    {A : Type 0} → Text → Option (A × Text) → Option (A × Text) → Option (A × Text)
here_or s none later = later
here_or s (some (a, rest)) later = some (a, take (length s - length rest) s)

-- `search`: the first place where the expression matches, with `group(0)`.
unfoldable pub search : {A : Type 0} → Matcher A → Text → Option (A × Text)
search m [] = none
search m (c ∷ cs) = here_or (c ∷ cs) (m (c ∷ cs)) (search m cs)

-- `group(0).replace(token, "")`, for a token that is a suffix of what is matched: it starts at its brace,
-- and no other part of an expression has one.
unfoldable pub without_token : Text → Text
without_token [] = []
without_token (c ∷ cs) = let rest = without_token cs in if c == b'{' then [] else c ∷ rest
