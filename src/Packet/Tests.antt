-- ===== src/Packet/Tests.antt =====
-- include/tool/PackageQueue.h, PacketWrite: the theorem at a packet of eight bytes.
use iocp_netlib.Base.{
  ℕ, ◌+◌, ◌≤◌, ◌<◌, ◌≡◌, refl, ◌≢◌, ◌⊎◌, true, false, [], ◌∷◌, ◌++◌, arith, ◌==◌, if◌then◌else◌,
}
use iocp_netlib.Memory.{Memory}
use iocp_netlib.Packet.{write, payload}
use iocp_netlib.Packet.Laws.{write_lem}

-- Three bytes of eight are written.
abbrev packet : Memory
packet = record { word = λ a. if a == 1000 then 3 else if a == 1008 then 8 else 0; byte = λ a. a }

write_five : (write packet 1000 (1 ∷ 2 ∷ 3 ∷ 4 ∷ 5 ∷ [])).0 ≡ true
unfolding write
write_five = refl

write_six : (write packet 1000 (1 ∷ 2 ∷ 3 ∷ 4 ∷ 5 ∷ 6 ∷ [])).0 ≡ false
unfolding write
write_six = refl

write_lem_test :
    (8 < 3 + 2 → write packet 1000 (1 ∷ 2 ∷ []) ≡ (false, packet))
    × (3 + 2 ≤ 8
        → (mem' : Memory) × (write packet 1000 (1 ∷ 2 ∷ []) ≡ (true, mem'))
          × (payload mem' 1000 ≡ payload packet 1000 ++ (1 ∷ 2 ∷ []))
          × (mem'.word 1000 ≤ 8)
          × ((b : ℕ) → (b < 1016) ⊎ (1024 ≤ b) → mem'.byte b ≡ packet.byte b)
          × ((a : ℕ) → a ≢ 1000 → mem'.word a ≡ packet.word a))
write_lem_test = write_lem packet 1000 8 (1 ∷ 2 ∷ []) (omega arith) refl (omega arith) (omega arith)
