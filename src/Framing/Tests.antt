-- ===== src/Framing/Tests.antt =====
-- Netlib/TcpClient.cpp, SplitPacket: runs, and the theorems at an application that logs its packets.
use iocp_netlib.Base.{
  ℕ, suc, ◌≡◌, refl, none, some, List, [], ◌∷◌, ◌++◌, arith, replicate, move_front,
}
use iocp_netlib.Config.{NetServiceErr, success, illegal_recv_packet}
use iocp_netlib.Framing.{
  RecvOps, RecvConfig, RecvState, read_int, drain_buffer, fetch_buffer, copy_chunk, split_round,
  split_loop, split_packet,
}
use iocp_netlib.Framing.Stream.{no_size}
use iocp_netlib.Framing.Promise.{IsReady, pending, Outcome}
use iocp_netlib.Framing.Refine.{split_packet-Outcome}
use iocp_netlib.Framing.Chunks.{feed, HandsOut, feed_same_stream}
use iocp_netlib.Framing.Roundtrip.{IsPacket, feed_packets}

-- Blocks of 8 bytes, the size at offset 0, an application that logs and refuses nothing.
abbrev small : RecvConfig
small = record { max_packet_size = 8; packet_size_offset = 0 }

abbrev logger : RecvOps ℕ (List (List ℕ))
logger = record {
  alloc_recv_packet = λ p. (some (replicate 8 0), suc p);
  on_received = λ w packet. (0, w ++ (packet ∷ []));
}

abbrev idle : RecvState ℕ (List (List ℕ))
idle = record { packet_buffer = none; recv_bytes = 0; pool = 0; world = [] }

abbrev first : List ℕ
first = 5 ∷ 0 ∷ 0 ∷ 0 ∷ 77 ∷ []

abbrev second : List ℕ
second = 6 ∷ 0 ∷ 0 ∷ 0 ∷ 88 ∷ 99 ∷ []

-- The two packets, cut in the middle of the second one's size.
abbrev cut_in_size : List (List ℕ)
cut_in_size = (5 ∷ 0 ∷ 0 ∷ 0 ∷ 77 ∷ 6 ∷ 0 ∷ []) ∷ (0 ∷ 0 ∷ 88 ∷ 99 ∷ []) ∷ []

idle-IsReady : IsReady logger small idle
idle-IsReady = record { room = tt; stuck = no_size (omega arith) }

supply : HandsOut logger small
supply p = (_, refl, refl)

first-IsPacket : IsPacket small first
unfolding read_int
first-IsPacket = record { has_size = omega arith; says_length = refl; fits = omega arith }

second-IsPacket : IsPacket small second
unfolding read_int
second-IsPacket = record { has_size = omega arith; says_length = refl; fits = omega arith }

abbrev kept_back : RecvState ℕ (List (List ℕ))
kept_back = record {
  packet_buffer = some (6 ∷ 0 ∷ 0 ∷ 0 ∷ 77 ∷ 6 ∷ 0 ∷ 0 ∷ []);
  recv_bytes = 2;
  pool = 1;
  world = first ∷ [];
}

split_first_chunk :
    split_packet logger small (5 ∷ 0 ∷ 0 ∷ 0 ∷ 77 ∷ 6 ∷ 0 ∷ []) idle ≡ some (success, kept_back)
unfolding split_packet split_loop split_round fetch_buffer copy_chunk drain_buffer read_int
    move_front
split_first_chunk = refl

-- A size of 3 is below the size of an int.
split_too_small :
    (s : RecvState ℕ (List (List ℕ))) × (split_packet logger small (3 ∷ 0 ∷ 0 ∷ 0 ∷ []) idle
      ≡ some (illegal_recv_packet, s))
unfolding split_packet split_loop split_round fetch_buffer copy_chunk drain_buffer read_int
    move_front
split_too_small = (_, refl)

split_packet-Outcome_example :
    (ret : NetServiceErr) × (s' : RecvState ℕ (List (List ℕ))) × (split_packet logger small first
        idle
      ≡ some (ret, s'))
    × Outcome logger small idle first ret s'
split_packet-Outcome_example =
    split_packet-Outcome logger small (omega arith) (omega arith) (λ p b e. ground arith) idle first
      idle-IsReady

feed_same_stream_example :
    (ret : NetServiceErr) × (s₁ : RecvState ℕ (List (List ℕ))) × (s₂ : RecvState ℕ (List (List ℕ)))
    × (feed logger small cut_in_size idle ≡ some (ret, s₁))
    × (feed logger small (first ∷ second ∷ []) idle ≡ some (ret, s₂))
    × (s₁.world ≡ s₂.world)
    × (ret ≡ success → pending s₁ ≡ pending s₂)
feed_same_stream_example =
    feed_same_stream logger small (omega arith) (omega arith) supply cut_in_size
      (first ∷ second ∷ []) idle idle-IsReady refl

feed_packets_example :
    (s' : RecvState ℕ (List (List ℕ))) × (feed logger small cut_in_size idle ≡ some (success, s'))
    × (s'.world ≡ first ∷ second ∷ [])
    × (pending s' ≡ [])
    × IsReady logger small s'
feed_packets_example =
    feed_packets logger small (omega arith) (omega arith) supply (first ∷ second ∷ []) cut_in_size
      idle idle-IsReady refl (first-IsPacket, (second-IsPacket, tt)) (refl, (refl, tt)) refl
