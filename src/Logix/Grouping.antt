-- ===== src/Logix/Grouping.antt =====
-- The grouping loops of `_read_build_multi_requests` and `_write_build_multi_requests` in
-- pycomm3/logix_driver.py: which requests share a packet.
pub mod Complete
pub mod ReadPackets
use pycomm.Base.{map, ℕ, ◌+◌, Bool, true, false, not, List, [], ◌∷◌, ◌++◌, ltb, if◌then◌else◌}

-- `MULTISERVICE_READ_OVERHEAD` of pycomm3/const.py.
abbrev pub multiservice_read_overhead : ℕ
multiservice_read_overhead = 10

abbrev pub is_nonempty {ℓ} : {A : Type ℓ} → List A → Bool
is_nonempty [] = false
is_nonempty (x ∷ xs) = true

-- A `MultiServiceRequestPacket` of a group, or a `ReadTagFragmentedRequestPacket`.
pub data ReadPacket {ℓ} (A : Type ℓ) : Type ℓ where
  multi : List A → ReadPacket A
  fragmented : A → ReadPacket A

-- `size` is the size that a request is counted with: of its reply when reading, of its message when
-- writing.
module _ {ℓ} {A : Type ℓ} (size : A → ℕ) (connection_size : ℕ) where
  -- The loop: `current` is the last group of `grouped_requests`, and `used` is `current_response_size`.
  unfoldable pub group_from : ℕ → List A → List A → List (List A)
  group_from used current [] = current ∷ []
  group_from used current (r ∷ rs) =
      let apart = current ∷ group_from (multiservice_read_overhead + size r) (r ∷ []) rs in
      let together = group_from (used + size r) (current ++ (r ∷ [])) rs in
      if ltb connection_size (used + size r) then apart else together

  unfoldable pub group_requests : List A → List (List A)
  group_requests rs = group_from multiservice_read_overhead [] rs

  abbrev first_is_nonempty : List (List A) → Bool
  first_is_nonempty [] = false
  first_is_nonempty (g ∷ gs) = is_nonempty g

  -- The groups that `_read_build_multi_requests` makes of `read_requests`: all or none of them.
  unfoldable pub read_groups : List A → List (List A)
  read_groups rs = let groups = group_requests rs in if first_is_nonempty groups then groups else []

  -- The loop over the parsed tags: `read_requests` and `fragmented_requests`.
  unfoldable pub separate : List A → List A × List A
  separate [] = ([], [])
  separate (r ∷ rs) =
      let (fitting, fragments) = separate rs in
      if ltb connection_size (size r) then (fitting, r ∷ fragments) else (r ∷ fitting, fragments)

  -- What `_read_build_multi_requests` returns, `multi_requests + fragmented_requests`, for the tags without
  -- an error.
  unfoldable pub read_packets : List A → List (ReadPacket A)
  read_packets rs =
      let (fitting, fragments) = separate rs in
      map multi (read_groups fitting) ++ map fragmented fragments

  unfoldable pub filled : List (List A) → List (List A)
  filled [] = []
  filled (g ∷ gs) = if is_nonempty g then g ∷ filled gs else filled gs

  -- The groups that `_write_build_multi_requests` sends.
  unfoldable pub write_groups : List A → List (List A)
  write_groups rs = filled (group_requests rs)
