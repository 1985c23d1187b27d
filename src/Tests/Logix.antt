-- ===== src/Tests/Logix.antt =====
-- Requests and values of a small controller.
use pycomm.DataTypes.Integers.{le_bytes}
use pycomm.Base.{
  map, take, zero, suc, text_eq, none, ℕ, ◌-◌, ◌<◌, ◌≡◌, refl, arith, Bool, true, false, List, [],
  ◌∷◌, ◌++◌, some, length, join, All, ◌∙◌, Bytes, ◌+◌, inl, inr, Result, ok,
}
use pycomm.Logix.Grouping.ReadPackets.{requests_of, FitsPacket, read_packets-requests}
use pycomm.Logix.Grouping.{read_packets, write_groups, group_requests, group_from, filled}
use pycomm.Logix.Grouping.Complete.{FitsOrSingle, write_groups_complete}
use pycomm.Logix.Fragments.{Piece, send_write_fragmented, send_read_fragmented, ReadReply}
use pycomm.Logix.Fragments.Write.{
  Consecutive, Holds, values, all_valid, send_write_fragmented-covers,
}
use pycomm.Logix.Fragments.Read.{Serves, send_read_fragmented-reads}
use pycomm.Logix.Messages.{connected, write_fragment_message}
use pycomm.Logix.Messages.Pieces.{Fits, send_write_fragmented-Fits}
use pycomm.Logix.BitWrites.{BitWrite, set_bits, new_bit_writes, modify_data}
use pycomm.Logix.BitWrites.Masks.{intent, updates, set_bits-updates, modify_data-too_long}

-- Requests are given by their sizes.
abbrev itself : ℕ → ℕ
itself n = n

abbrev sizes : List ℕ
sizes = 200 ∷ 250 ∷ 100 ∷ 30 ∷ []

two_groups : write_groups itself 500 sizes ≡ (200 ∷ 250 ∷ []) ∷ (100 ∷ 30 ∷ []) ∷ []
unfolding write_groups group_requests group_from filled
two_groups = refl

write_groups_complete_example :
    (join (write_groups itself 500 sizes) ≡ sizes)
    × All (λ g. (0 < length g) × FitsOrSingle itself 500 g) (write_groups itself 500 sizes)
write_groups_complete_example = write_groups_complete itself 500 sizes

read_packets-requests_example :
    (join (map requests_of (read_packets itself 500 (600 ∷ 20 ∷ 400 ∷ 90 ∷ [])))
      ≡ 20 ∷ 400 ∷ 90 ∷ 600 ∷ [])
    × All (FitsPacket itself 500) (read_packets itself 500 (600 ∷ 20 ∷ 400 ∷ 90 ∷ []))
read_packets-requests_example = read_packets-requests itself 500 (600 ∷ 20 ∷ 400 ∷ 90 ∷ [])

-- The first request that is not read in pieces fits no packet.
others_dropped : join (map requests_of (read_packets itself 500 (495 ∷ 600 ∷ 20 ∷ []))) ≡ 600 ∷ []
others_dropped = (read_packets-requests itself 500 (495 ∷ 600 ∷ 20 ∷ [])).0 ∙ refl

abbrev always : List Piece → Bool
always ps = true

send_write_fragmented-covers_example :
    (ps : List Piece) × (send_write_fragmented
        (λ sent. ok (always sent))
        20
        21
        false
        (1 ∷ 2 ∷ 3 ∷ 4 ∷ 5 ∷ [])
      ≡ ok (record { sent = ps; succeeded = all_valid always [] ps }))
    × (join (values ps) ≡ 1 ∷ 2 ∷ 3 ∷ 4 ∷ 5 ∷ [])
    × Consecutive 0 ps
    × Holds (21 - 5) 20 ps
send_write_fragmented-covers_example =
    send_write_fragmented-covers always 20 21 (1 ∷ 2 ∷ 3 ∷ 4 ∷ 5 ∷ []) (omega arith) (omega arith)

-- A target with three bytes of DINT data that answers with one byte at a time.
abbrev last_of : List ℕ → ℕ
last_of [] = 0
last_of (x ∷ []) = x
last_of (x ∷ y ∷ ys) = last_of (y ∷ ys)

abbrev one_at_a_time : ℕ → Result ReadReply
one_at_a_time zero =
    ok (record { valid = true; status = some 6; reply_data = some (0xC4 ∷ 0 ∷ 7 ∷ []) })
one_at_a_time (suc zero) =
    ok (record { valid = true; status = some 6; reply_data = some (0xC4 ∷ 0 ∷ 8 ∷ []) })
one_at_a_time (suc (suc zero)) =
    ok (record { valid = true; status = some 0; reply_data = some (0xC4 ∷ 0 ∷ 9 ∷ []) })
one_at_a_time (suc (suc (suc n))) =
    ok (record { valid = true; status = some 0; reply_data = some (0xC4 ∷ 0 ∷ []) })

abbrev target : List ℕ → Result ReadReply
target asked = one_at_a_time (last_of asked)

last_of-snoc : (xs : List ℕ) (x : ℕ) → last_of (xs ++ (x ∷ [])) ≡ x
last_of-snoc [] x = refl
last_of-snoc (y ∷ []) x = refl
last_of-snoc (y ∷ z ∷ zs) x = last_of-snoc (z ∷ zs) x

target-Serves : Serves (0xC4 ∷ 0 ∷ []) (7 ∷ 8 ∷ 9 ∷ []) target
target-Serves asked zero h =
    (7 ∷ [], 8 ∷ 9 ∷ [], refl, inl (omega arith, rw (last_of-snoc asked 0) refl))
target-Serves asked (suc zero) h =
    (8 ∷ [], 9 ∷ [], refl, inl (omega arith, rw (last_of-snoc asked 1) refl))
target-Serves asked (suc (suc zero)) h =
    (9 ∷ [], [], refl, inr (refl, rw (last_of-snoc asked 2) refl))
target-Serves asked (suc (suc (suc zero))) h =
    ([], [], refl, inr (refl, rw (last_of-snoc asked 3) refl))
target-Serves asked (suc (suc (suc (suc n)))) h = absurd (omega arith)

send_read_fragmented-reads_example :
    send_read_fragmented target 4 false ≡ ok (some (0xC4 ∷ 0 ∷ 7 ∷ 8 ∷ 9 ∷ []))
unfolding text_eq
send_read_fragmented-reads_example =
    send_read_fragmented-reads (0xC4 ∷ 0 ∷ []) (7 ∷ 8 ∷ 9 ∷ []) target (inl (0xC4, 0, refl, refl))
      target-Serves

-- Bits 35 and 4 of a bool array, and then bit 3 again.
abbrev bit_requests : List BitWrite
bit_requests =
    record { bit = 35; value = true; request_id = 0 }
    ∷ record { bit = 4; value = true; request_id = 1 }
    ∷ record { bit = 3; value = false; request_id = 2 }
    ∷ []

set_bits-updates_example :
    intent (set_bits bit_requests (new_bit_writes true 4)) 3
    ≡ updates true bit_requests (λ _. none) 3
set_bits-updates_example = set_bits-updates true 4 bit_requests 3 (omega arith)

bit_three : intent (set_bits bit_requests (new_bit_writes true 4)) 3 ≡ some false
bit_three = set_bits-updates_example ∙ refl

modify_data-too_long_example :
    (modify_data (new_bit_writes true 4)
      ≡ ok (le_bytes 2 4 ++ (take 4 (le_bytes 8 0) ++ le_bytes 8 0xFFFF_FFFF_FFFF_FFFF)))
    × (length (le_bytes 2 4 ++ (take 4 (le_bytes 8 0) ++ le_bytes 8 0xFFFF_FFFF_FFFF_FFFF))
        ≡ 2 + (4 + 8))
modify_data-too_long_example =
    modify_data-too_long (new_bit_writes true 4) (omega arith) (omega arith) (omega arith)
      (omega arith)

send_write_fragmented-Fits_example :
    (whole : Bytes) × (ps : List Piece) × (connected 1
        (write_fragment_message (some (1 ∷ 0x91 ∷ [])) 5 (0xC2 ∷ 0 ∷ []) 0 (1 ∷ 2 ∷ 3 ∷ 4 ∷ 5 ∷ []))
      ≡ ok whole)
    × (send_write_fragmented
          (λ sent. ok (always sent))
          16
          (length whole)
          false
          (1 ∷ 2 ∷ 3 ∷ 4 ∷ 5 ∷ [])
        ≡ ok (record { sent = ps; succeeded = all_valid always [] ps }))
    × (join (values ps) ≡ 1 ∷ 2 ∷ 3 ∷ 4 ∷ 5 ∷ [])
    × All (Fits 16 (1 ∷ 0x91 ∷ []) 5 (0xC2 ∷ 0 ∷ []) 2) ps
send_write_fragmented-Fits_example =
    send_write_fragmented-Fits always 16 (1 ∷ 0x91 ∷ []) 5 (0xC2 ∷ 0 ∷ []) 1 2
      (1 ∷ 2 ∷ 3 ∷ 4 ∷ 5 ∷ []) (omega arith) (omega arith) (omega arith) (omega arith) (omega arith)
      (omega arith)
