-- ===== src/Utilities.antt =====
-- pycomm3/util.py: the numbers of a sequence, and the array part of a tag's name.
pub mod Numbers
use pycomm.Base.{
  ℕ, zero, suc, ◌+◌, ◌&&◌, ◌==◌, List, [], ◌∷◌, Option, none, some, ltb, if◌then◌else◌, Text, Bool,
  Result, ok, ◌>>=◌,
}
use pycomm.Base.Ints.{ℤ}
use pycomm.Base.Strings.{contains, before, ends_with, drop_last, int_of}

-- `cycle(stop, start)`, one turn: the value that is yielded for `val`, and the `val` that is left.
unfoldable pub next_value : ℕ → ℕ → ℕ → ℕ × ℕ
next_value stop start val = let v = if ltb stop val then start else val in (v, v + 1)

-- The first values of `cycle(stop, start)`.
unfoldable pub values_from : ℕ → ℕ → ℕ → ℕ → List ℕ
values_from stop start val zero = []
values_from stop start val (suc n) =
    let (v, val') = next_value stop start val in v ∷ values_from stop start val' n

unfoldable pub cycle : ℕ → ℕ → ℕ → List ℕ
cycle stop start n = values_from stop start start n

-- `strip_array`
unfoldable pub strip_array : Text → Text
strip_array tag = if contains b'[' tag then before b'[' tag else tag

-- `tag.rsplit("[", maxsplit=1)`, where the character occurs.
unfoldable pub rsplit : ℕ → Text → Option (Text × Text)
rsplit c [] = none
rsplit c (x ∷ xs) = elim (rsplit c xs) [
  | some (front, back) ↦ some (x ∷ front, back)
  | none ↦ if x == c then some ([], xs) else none
]

abbrev with_index : Text → Option (Text × Text) → Result (Text × Option ℤ)
with_index tag none = ok (tag, none)
with_index tag (some (name, index)) = do n ← int_of (drop_last index); ok (name, some n)

-- `get_array_index`
unfoldable pub get_array_index : Text → Result (Text × Option ℤ)
get_array_index tag =
    if ends_with b']' tag then with_index tag (rsplit b'[' tag) else ok (tag, none)
