-- ===== src/Base/Strings.antt =====
-- Python's string methods, over lists of code points.
use pycomm.Base.Tests.{Text, Bytes, ltb, leb, ◌==◌, if◌then◌else◌}
use pycomm.Base.Errors.{Result, ok, err, other_error, ◌>>=◌}
use pycomm.Base.Ints.{ℤ, pos, negsuc}
use Prim.Native.Nat.{ℕ, zero, suc, ◌+◌, ◌-◌, ◌*◌, ◌/◌, ◌%◌}
use mathlib.Core.Bool.{Bool, true, false, ◌&&◌, ◌||◌}
use mathlib.Core.List.{List, [], ◌∷◌, ◌++◌, reverse}

-- `c in s`
unfoldable pub contains : ℕ → Text → Bool
contains c [] = false
contains c (x ∷ xs) = x == c || contains c xs

-- `s[: s.find(c)]` and `s[s.find(c) + 1 :]`, for a `c` that is there.
unfoldable pub before : ℕ → Text → Text
before c [] = []
before c (x ∷ xs) = let rest = before c xs in if x == c then [] else x ∷ rest

unfoldable pub after : ℕ → Text → Text
after c [] = []
after c (x ∷ xs) = if x == c then xs else after c xs

-- Put before the first piece.
abbrev pub onto_first : ℕ → List Text → List Text
onto_first x [] = (x ∷ []) ∷ []
onto_first x (p ∷ ps) = (x ∷ p) ∷ ps

-- `s.split(c)` for one character: there is always a first piece.
unfoldable pub split : ℕ → Text → List Text
split c [] = [] ∷ []
split c (x ∷ xs) = let rest = split c xs in if x == c then [] ∷ rest else onto_first x rest

-- `c.join(pieces)` for one character.
unfoldable pub join_with : ℕ → List Text → Text
join_with c [] = []
join_with c (p ∷ []) = p
join_with c (p ∷ q ∷ ps) = p ++ (c ∷ join_with c (q ∷ ps))

-- `s.replace(a, b)` for single characters.
unfoldable pub replace : ℕ → ℕ → Text → Text
replace a b [] = []
replace a b (x ∷ xs) = (if x == a then b else x) ∷ replace a b xs

unfoldable pub starts_with : Text → Text → Bool
starts_with [] s = true
starts_with (p ∷ ps) [] = false
starts_with (p ∷ ps) (x ∷ xs) = p == x && starts_with ps xs

-- `s.endswith(c)` for one character.
unfoldable pub ends_with : ℕ → Text → Bool
ends_with c [] = false
ends_with c (x ∷ []) = x == c
ends_with c (x ∷ y ∷ ys) = ends_with c (y ∷ ys)

-- `s[:-1]`
unfoldable pub drop_last : Text → Text
drop_last [] = []
drop_last (x ∷ []) = []
drop_last (x ∷ y ∷ ys) = x ∷ drop_last (y ∷ ys)

unfoldable pub is_digit_char : ℕ → Bool
is_digit_char c = leb b'0' c && leb c b'9'

unfoldable pub all_digits : Text → Bool
all_digits [] = true
all_digits (c ∷ cs) = is_digit_char c && all_digits cs

-- `s.isdigit()` and `s.isnumeric()`, of a text in ASCII.
unfoldable pub is_digit : Text → Bool
is_digit [] = false
is_digit (c ∷ cs) = all_digits (c ∷ cs)

abbrev is_space : ℕ → Bool
is_space c = c == 32 || leb 9 c && leb c 13 || leb 28 c && leb c 31

unfoldable pub skip_spaces : Text → Text
skip_spaces [] = []
skip_spaces (c ∷ cs) = if is_space c then skip_spaces cs else c ∷ cs

-- `s.strip()`
unfoldable pub strip : Text → Text
strip s = reverse (skip_spaces (reverse (skip_spaces s)))

-- The digits of a literal; one `_` may stand between two digits. `after_digit` says whether a digit
-- came last.
unfoldable pub digits_from : Bool → ℕ → Text → Result ℕ
digits_from after_digit n [] = if after_digit then ok n else err other_error
digits_from after_digit n (c ∷ cs) =
    let more = digits_from true (n * 10 + (c - b'0')) cs in
    let skipped = digits_from false n cs in
    if is_digit_char c then more else if after_digit && c == b'_' then skipped else err other_error

abbrev negated : ℕ → ℤ
negated zero = pos 0
negated (suc n) = negsuc n

unfoldable pub signed_digits : Text → Result ℤ
signed_digits [] = err other_error
signed_digits (c ∷ cs) =
    if c == b'-'
    then (do n ← digits_from false 0 cs; ok (negated n))
    else if c == b'+'
    then (do n ← digits_from false 0 cs; ok (pos n))
    else do n ← digits_from false 0 (c ∷ cs); ok (pos n)

-- `int(s)`, of a text in ASCII; ValueError for what is no literal.
unfoldable pub int_of : Text → Result ℤ
int_of s = signed_digits (strip s)

-- `s.encode()`: UTF-8, which has no surrogates.
unfoldable pub utf8_char : ℕ → Result Bytes
utf8_char c =
    if ltb c 0x80
    then ok (c ∷ [])
    else if ltb c 0x800
    then ok ((0xC0 + c / 64) ∷ (0x80 + c % 64) ∷ [])
    else if ltb c 0x10000
    then (if leb 0xD800 c && ltb c 0xE000
        then err other_error
        else ok ((0xE0 + c / 4096) ∷ (0x80 + c / 64 % 64) ∷ (0x80 + c % 64) ∷ []))
    else ok
        ((0xF0 + c / 262144) ∷ (0x80 + c / 4096 % 64) ∷ (0x80 + c / 64 % 64) ∷ (0x80 + c % 64) ∷ [])

unfoldable pub utf8 : Text → Result Bytes
utf8 [] = ok []
utf8 (c ∷ cs) = do b ← utf8_char c; rest ← utf8 cs; ok (b ++ rest)
