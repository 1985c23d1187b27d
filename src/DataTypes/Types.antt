-- ===== src/DataTypes/Types.antt =====
-- The type classes of pycomm3/cip/data_types.py that make up tags and structures.
use pycomm.Base.{ℕ, Option, none, some, Result, ok, err, other_error}
use pycomm.DataTypes.Integers.{IntType, uint, udint, usint}
use pycomm.DataTypes.BitArrays.{BitType}
use pycomm.DataTypes.Value.{Key}

-- The strings of one byte per character.
pub data StringType : Type 0 where
  logix_string string short_string : StringType

abbrev pub len_type : StringType → IntType
len_type logix_string = udint
len_type string = uint
len_type short_string = usint

-- `length_` of an array: a number, a type, or `None`.
pub data ArrayLength : Type 0 where
  fixed : ℕ → ArrayLength
  counted : IntType → ArrayLength
  unbound : ArrayLength

-- The member of a struct carries the name of its type's instance. `n_bytes none` is `n_bytes(-1)`.
mutual
  pub data Typ : Type 0 where
    bool : Typ
    int : IntType → Typ
    bits : BitType → Typ
    string : StringType → Typ
    n_bytes : Option ℕ → Typ
    array : ArrayLength → Typ → Typ
    struct : Members → Typ

  pub data Members : Type 0 where
    end : Members
    member : Key → Typ → Members → Members

-- `length or cls.length`: an argument of 0 counts as none.
abbrev pub effective : ArrayLength → Option ℕ → ArrayLength
effective l none = l
effective l (some ℕ.zero) = l
effective l (some (ℕ.suc n)) = fixed (ℕ.suc n)

-- `issubclass(element_type, BitArrayType)`, with the bits of an element. `n_bytes` makes an instance, for
-- which `issubclass` raises TypeError; the other types stand for classes.
abbrev pub chunk_of : Typ → Result (Option BitType)
chunk_of (bits t) = ok (some t)
chunk_of (n_bytes n) = err other_error
chunk_of _ = ok none
