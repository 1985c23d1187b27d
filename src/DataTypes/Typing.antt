-- ===== src/DataTypes/Typing.antt =====
-- The values that decoding a type gives.
pub mod Outcomes
pub mod Merged
pub mod Leaves
pub mod Soundness
use pycomm.Base.{
  Bool, ℕ, ◌*◌, ◌^◌, ◌<◌, ◌≤◌, ◌≡◌, List, [], ◌∷◌, Option, none, some, false, true, if◌then◌else◌,
  Text, Bytes, length, All,
}
use pycomm.Base.Ints.{ℤ}
use pycomm.DataTypes.Integers.{IntType, size, is_signed, InRange, IsByte}
use pycomm.DataTypes.BitArrays.{BitType, bit_size}
use pycomm.DataTypes.Types.{StringType, len_type, fixed, unbound, Typ, Members, member}
use pycomm.DataTypes.Value.{
  Value, Values, Fields, bool, int, str, bytes, list, dict, nil, cons, end, field, Key, key_eq,
  count,
}

-- As many as the count says, if it says one.
abbrev pub AtMost : Option ℕ → Bytes → Type 0
AtMost none bs = Unit
AtMost (some n) bs = length bs ≤ n

abbrev pub AreBools : Values → Type 0
AreBools nil = Unit
AreBools (cons (bool b) vs) = AreBools vs
AreBools _ = ⊥

-- Neither a bit array nor an instance that `n_bytes` makes.
abbrev pub IsPlain : Typ → Type 0
IsPlain (Typ.bits t) = ⊥
IsPlain (Typ.n_bytes n) = ⊥
IsPlain _ = Unit

-- What a dictionary has for a key.
abbrev pub find : Fields → Key → Option Value
find end k = none
find (field j v fs) k = if key_eq j k then some v else find fs k

-- The last of the values for a key, and `before` if there is none.
abbrev pub last_of : Option Value → Fields → Key → Option Value
last_of before end k = before
last_of before (field j v fs) k = last_of (if key_eq j k then some v else before) fs k

abbrev pub is_named : Key → Bool
is_named none = false
is_named (some []) = false
is_named (some (c ∷ cs)) = true

-- No key is there twice.
abbrev pub IsDict : Fields → Type 0
IsDict end = Unit
IsDict (field k v fs) = (find fs k ≡ none) × IsDict fs

-- The dictionary of the fields with a name, with the last of those that share one.
abbrev pub IsMerged : Fields → Fields → Type 0
IsMerged fs gs =
    IsDict gs × ((k : Key) → find gs k ≡ (if is_named k then last_of none fs k else none))

-- The typing rules. An array of bit arrays has the bits of all elements in one list, and a struct the members with
-- names, the last one of those that share a name. An array whose length is a type has no values, nor has one of
-- the instances that `n_bytes` makes, if its length is a number.
mutual
  pub data HasType : Typ → Value → Type 0 where
    of_bool : (b : Bool) → HasType Typ.bool (bool b)
    of_int : (t : IntType) (z : ℤ) → InRange (is_signed t) (size t) z → HasType (Typ.int t) (int z)
    of_bits :
        (t : BitType) (vs : Values)
        → AreBools vs
        → count vs ≡ bit_size t * 8
        → HasType (Typ.bits t) (list vs)
    of_string :
        (t : StringType) (s : Text)
        → All IsByte s
        → length s < 256 ^ size (len_type t)
        → HasType (Typ.string t) (str s)
    of_bytes :
        (n : Option ℕ) (bs : Bytes)
        → All IsByte bs
        → 0 < length bs
        → AtMost n bs
        → HasType (Typ.n_bytes n) (bytes bs)
    of_array :
        (n : ℕ) (t : Typ) (vs : Values)
        → IsPlain t
        → count vs ≡ n
        → HasItems t vs
        → HasType (Typ.array (fixed n) t) (list vs)
    of_bit_array :
        (n : ℕ) (t : BitType) (vs : Values)
        → AreBools vs
        → count vs ≡ n * (bit_size t * 8)
        → HasType (Typ.array (fixed n) (Typ.bits t)) (list vs)
    of_unbound : (t : Typ) (vs : Values) → HasItems t vs → HasType (Typ.array unbound t) (list vs)
    of_struct :
        (ms : Members) (fs gs : Fields)
        → HasFields ms fs
        → IsMerged fs gs
        → HasType (Typ.struct ms) (dict gs)

  pub data HasItems : Typ → Values → Type 0 where
    no_items : (t : Typ) → HasItems t nil
    item :
        (t : Typ) (v : Value) (vs : Values) → HasType t v → HasItems t vs → HasItems t (cons v vs)

  pub data HasFields : Members → Fields → Type 0 where
    no_fields : HasFields Members.end Fields.end
    a_field :
        (k : Key) (t : Typ) (ms : Members) (v : Value) (fs : Fields)
        → HasType t v
        → HasFields ms fs
        → HasFields (member k t ms) (field k v fs)
