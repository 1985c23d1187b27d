-- ===== src/Paths/Reader.antt =====
-- A reader of padded paths, written from the layout in the class comments of
-- pycomm3/cip/data_types.py and independent of the encoders.
use pycomm.Base.{
  ℕ, zero, suc, ◌+◌, ◌/◌, ◌%◌, List, [], ◌∷◌, Option, none, some, ◌==◌, if◌then◌else◌, Bytes, take,
  drop,
}
use pycomm.DataTypes.Integers.{of_le}

-- What a segment addresses: the next hop by a port's number and the bytes of a link address, an object by a logical
-- type and a number, or a symbol by name.
pub data Item : Type 0 where
  hop : ℕ → Bytes → Item
  object : ℕ → ℕ → Item
  symbol : Bytes → Item

-- The bytes of a value, by the two format bits of the first byte.
abbrev pub value_size : ℕ → Option ℕ
value_size f = if f == 0 then some 1 else if f == 1 then some 2 else if f == 3 then some 4 else none

-- The item at the front, and what follows it.
unfoldable pub read_item : Bytes → Option (Item × Bytes)
read_item [] = none
read_item (head ∷ rest) =
    if head / 32 == 1
    then elim (value_size (head % 4)) [
      | none ↦ none
      | some n ↦
          let value = drop (if n == 1 then 0 else 1) rest in
          some (object (head / 4 % 8) (of_le (take n value)), drop n value)
    ]
    else if head / 16 == 1
    then elim rest [
      | [] ↦ none
      | len ∷ link ↦ some (hop (head % 16) (take len link), drop (len + len % 2) link)
    ]
    else if head / 16 == 0
    then elim rest [ [] ↦ none | link ∷ more ↦ some (hop (head % 16) (link ∷ []), more) ]
    else if head == 0x91
    then elim rest [
      | [] ↦ none
      | len ∷ chars ↦ some (symbol (take len chars), drop (len + len % 2) chars)
    ]
    else none

unfoldable pub read_items : ℕ → Bytes → Option (List Item)
read_items zero [] = some []
read_items zero (b ∷ bs) = none
read_items (suc n) bs = elim (read_item bs) [
  | none ↦ none
  | some (i, rest) ↦ elim (read_items n rest) [ none ↦ none | some is ↦ some (i ∷ is) ]
]
