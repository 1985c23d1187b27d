-- ===== src/Logix/BitWrites.antt =====
-- `ReadModifyWriteRequestPacket` of pycomm3/packets/logix.py: the bits of one tag that are written,
-- gathered in two masks.
pub mod Masks
use pycomm.Base.{
  ℕ, zero, suc, ◌%◌, ◌^◌, bit_or, Bool, true, false, List, [], ◌∷◌, ◌++◌, if◌then◌else◌, Bytes,
  take, Result, ok, ◌>>=◌,
}
use pycomm.Base.Ints.{pos}
use pycomm.Base.BitAt.{clear_bit}
use pycomm.DataTypes.Integers.{uint, ulint}
use pycomm.DataTypes.Encode.{encode_int}

-- `_request_ids` are the requests whose results the packet's result stands for.
pub record BitWrites : Type 0 where
  pub is_dword : Bool
  pub mask_size : ℕ
  pub bits : List ℕ
  pub request_ids : List ℕ
  pub and_mask : ℕ
  pub or_mask : ℕ

-- `__init__`, for a data type of `mask_size` bytes.
abbrev pub new_bit_writes : Bool → ℕ → BitWrites
new_bit_writes is_dword mask_size = record {
  is_dword = is_dword;
  mask_size = mask_size;
  bits = [];
  request_ids = [];
  and_mask = 0xFFFF_FFFF_FFFF_FFFF;
  or_mask = 0;
}

-- The two masks with one bit set, or cleared.
abbrev pub masked : ℕ → Bool → BitWrites → BitWrites
masked b true w = record w {
  or_mask = bit_or w.or_mask (2 ^ b);
  and_mask = bit_or w.and_mask (2 ^ b);
}
masked b false w = record w { or_mask = clear_bit w.or_mask b; and_mask = clear_bit w.and_mask b }

-- The bit of a word of a bool array.
abbrev pub bit_in : BitWrites → ℕ → ℕ
bit_in w bit = if w.is_dword then bit % 32 else bit

-- `set_bit`
unfoldable pub set_bit : ℕ → Bool → ℕ → BitWrites → BitWrites
set_bit bit value request_id w =
    let b = bit_in w bit in
    let w' = masked b value w in
    record w' { bits = w.bits ++ (b ∷ []); request_ids = w.request_ids ++ (request_id ∷ []) }

-- What `_setup_message` puts behind the service and the path. The second mask is cut by its own value.
unfoldable pub modify_data : BitWrites → Result Bytes
modify_data w = do
  size ← encode_int uint (pos w.mask_size)
  or_bytes ← encode_int ulint (pos w.or_mask)
  and_bytes ← encode_int ulint (pos w.and_mask)
  ok (size ++ (take w.mask_size or_bytes ++ take w.and_mask and_bytes))

-- A bit that is asked for: its number, its value and the request.
pub record BitWrite : Type 0 where
  pub bit : ℕ
  pub value : Bool
  pub request_id : ℕ

-- The calls of `set_bit` for the requests that name one tag, in order.
unfoldable pub set_bits : List BitWrite → BitWrites → BitWrites
set_bits [] w = w
set_bits (b ∷ bs) w = set_bits bs (set_bit b.bit b.value b.request_id w)
