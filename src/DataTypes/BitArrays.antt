-- ===== src/DataTypes/BitArrays.antt =====
-- `BitArrayType` of pycomm3/cip/data_types.py: BYTE, WORD, DWORD, LWORD and ENGUNIT.
pub mod Inverse
use pycomm.Base.{
  ℕ, zero, suc, ◌+◌, ◌-◌, ◌/◌, ◌%◌, ◌^◌, bit_or, Bool, false, List, [], ◌∷◌, ◌++◌, reverse, ◌==◌,
  if◌then◌else◌, length, replicate,
}
use pycomm.DataTypes.Integers.{IntType, usint, uint, udint, ulint}

pub data BitType : Type 0 where
  byte word dword lword engunit : BitType

-- The attribute `size` of each class, in bytes.
abbrev pub bit_size : BitType → ℕ
bit_size byte = 1
bit_size word = 2
bit_size dword = 4
bit_size lword = 8
bit_size engunit = 2

abbrev pub host_type : BitType → IntType
host_type byte = usint
host_type word = uint
host_type dword = udint
host_type lword = ulint
host_type engunit = uint

bin_loop : ℕ → ℕ → List Bool → List Bool
bin_loop zero n acc = acc
bin_loop (suc f) n acc =
    let more = bin_loop f (n / 2) ((n % 2 == 1) ∷ acc) in if n == 0 then acc else more

-- `[x == "1" for x in bin(n)[2:]]`: the binary digits, the highest first; of 0 the one digit 0.
unfoldable pub bin : ℕ → List Bool
unfolding bin_loop
bin n = if n == 0 then false ∷ [] else bin_loop n n []

-- The digits padded to `width` places, and turned round.
unfoldable pub bools_of : ℕ → ℕ → List Bool
bools_of width n = let bits = bin n in reverse (replicate (width - length bits) false ++ bits)

-- `for i, val in enumerate(value): if val: _value |= 1 << i`
unfoldable pub or_bits : ℕ → ℕ → List Bool → ℕ
or_bits i acc [] = acc
or_bits i acc (b ∷ bs) = or_bits (i + 1) (if b then bit_or acc (2 ^ i) else acc) bs
