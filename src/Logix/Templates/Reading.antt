-- ===== src/Logix/Templates/Reading.antt =====
-- `_read_template` of pycomm3/logix_driver.py.
use pycomm.Base.{
  ℕ, zero, suc, ◌+◌, ◌*◌, Bool, true, false, ◌||◌, [], ◌++◌, Option, none, some, ◌==◌, Bytes,
  length, Result, ok, err, ◌>>=◌, ◌>>◌, guard, get_or_raise, raise_as, response_error, other_error,
  diverges,
}
use pycomm.Base.Ints.{pos, negsuc, ◌+ℤ◌}
use pycomm.DataTypes.Integers.{dint, uint}
use pycomm.DataTypes.Encode.{encode_int}

-- What is used of the response.
pub record TemplateReply : Type 0 where
  pub service_status : Option ℕ
  pub piece : Option Bytes

abbrev pub has_status : ℕ → Option ℕ → Bool
has_status n none = false
has_status n (some s) = s == n

-- `request_data`: the offset, and how many bytes are left of `size * 4 - 21`.
unfoldable pub template_request : ℕ → ℕ → Result Bytes
template_request size offset = do
  from ← encode_int dint (pos offset)
  count ← encode_int uint (pos (size * 4) +ℤ negsuc (20 + offset))
  ok (from ++ count)

abbrev pub finish : Bool → Bytes → (Bytes → Result Bytes) → Result Bytes
finish true raw more = ok raw
finish false raw more = more raw

-- `respond` is what the controller answers to a request for a template.
module _ (respond : ℕ → Bytes → Result TemplateReply) where
  unfoldable pub read_from : ℕ → ℕ → ℕ → ℕ → Bytes → Result Bytes
  read_from zero instance_id size offset raw = err diverges
  read_from (suc fuel) instance_id size offset raw = template_request size offset >>= λ request.
      respond instance_id request >>= λ reply.
      guard (has_status 0 reply.service_status || has_status 6 reply.service_status) response_error
      >> (get_or_raise reply.piece other_error >>= λ bytes.
          finish (has_status 0 reply.service_status) (raw ++ bytes)
            (read_from fuel instance_id size (offset + length bytes)))

  -- `_read_template`
  unfoldable pub read_template : ℕ → ℕ → ℕ → Result Bytes
  read_template fuel instance_id size =
      raise_as response_error (read_from fuel instance_id size 0 [])
