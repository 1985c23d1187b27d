-- ===== src/Tests/Sockets.antt =====
-- A system that takes two bytes at a time, and a frame that arrives in two chunks.
use pycomm.Base.{ℕ, ◌<◌, ◌≤◌, ◌≡◌, refl, arith, List, [], ◌∷◌, ◌++◌, Bytes, length, replicate, ok}
use pycomm.DataTypes.Integers.{of_le}
use pycomm.Sockets.{send, receive}
use pycomm.Sockets.Loops.{Takes, send_all_bytes, receive-frame}

abbrev at_most_two : Bytes → ℕ
at_most_two [] = 0
at_most_two (x ∷ []) = 1
at_most_two (x ∷ y ∷ ys) = 2

abbrev by_twos : List Bytes → ℕ
by_twos [] = 0
by_twos (b ∷ []) = at_most_two b
by_twos (b ∷ c ∷ cs) = by_twos (c ∷ cs)

by_twos-snoc : (given : List Bytes) (b : Bytes) → by_twos (given ++ (b ∷ [])) ≡ at_most_two b
by_twos-snoc [] b = refl
by_twos-snoc (x ∷ []) b = refl
by_twos-snoc (x ∷ y ∷ ys) b = by_twos-snoc (y ∷ ys) b

by_twos-Takes : Takes by_twos
by_twos-Takes given b h = rw (by_twos-snoc given b) (bounded b h)
  where
    bounded : (b : Bytes) → 0 < length b → (0 < at_most_two b) × (at_most_two b ≤ length b)
    bounded [] h = absurd (omega arith)
    bounded (x ∷ []) h = (omega arith, omega arith)
    bounded (x ∷ y ∷ ys) h = (omega arith, omega arith)

send_all_bytes_example :
    send (λ given. ok (by_twos given)) (1 ∷ 2 ∷ 3 ∷ []) ≡ (ok 3, 1 ∷ 2 ∷ 3 ∷ [])
send_all_bytes_example = send_all_bytes by_twos (1 ∷ 2 ∷ 3 ∷ []) by_twos-Takes

receive-frame_example :
    receive
      ((0x65 ∷ 0 ∷ 4 ∷ 0 ∷ []) ∷ (replicate 20 0 ∷ (1 ∷ 0 ∷ 0 ∷ 0 ∷ []) ∷ []) ++ ((7 ∷ []) ∷ []))
    ≡ ok
        ((0x65 ∷ 0 ∷ 4 ∷ 0 ∷ []) ++ (replicate 20 0 ++ ((1 ∷ 0 ∷ 0 ∷ 0 ∷ []) ++ [])), (7 ∷ []) ∷ [])
unfolding of_le
receive-frame_example =
    receive-frame (0x65 ∷ 0 ∷ 4 ∷ 0 ∷ []) (replicate 20 0 ∷ (1 ∷ 0 ∷ 0 ∷ 0 ∷ []) ∷ [])
      ((7 ∷ []) ∷ []) (omega arith) (omega arith, (omega arith, tt)) refl
