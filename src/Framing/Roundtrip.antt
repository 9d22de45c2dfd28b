-- ===== src/Framing/Roundtrip.antt =====
-- Netlib/TcpClient.cpp, SplitPacket: packets that a peer sends one after another come out as they
-- were sent.
use iocp_netlib.Base.{
  ℕ, ◌+◌, ◌^◌, ◌≤◌, ◌<◌, ◌≡◌, refl, sym, ◌∙◌, some, List, [], ◌∷◌, append-nil, arith, length,
  concat, length-append, take-append_length, drop-append_length,
}
use iocp_netlib.Config.{success}
use iocp_netlib.Framing.{RecvOps, RecvConfig, RecvState, read_int}
use iocp_netlib.Framing.Stream.{Frames, no_size, accepted_at, Frames-unique, read_int-append}
use iocp_netlib.Framing.Promise.{IsReady, pending}
use iocp_netlib.Framing.Chunks.{feed, HandsOut, feed-FedTo}

-- A packet of the protocol: its bytes at the offset hold its length.
pub record IsPacket (cfg : RecvConfig) (packet : List ℕ) : Type 0 where
  pub has_size : cfg.packet_size_offset + 4 ≤ length packet
  pub says_length : read_int packet cfg.packet_size_offset ≡ length packet
  pub fits : length packet ≤ cfg.max_packet_size

abbrev pub ArePackets : RecvConfig → List (List ℕ) → Type 0
ArePackets cfg [] = Unit {0}
ArePackets cfg (p ∷ ps) = IsPacket cfg p × ArePackets cfg ps

module _ {W : Type 0} (on_received : W → List ℕ → ℕ × W) where
  -- The callback answers 0 to each packet.
  abbrev pub AcceptsAll : W → List (List ℕ) → Type 0
  AcceptsAll w [] = Unit {0}
  AcceptsAll w (p ∷ ps) = ((on_received w p).0 ≡ 0) × AcceptsAll (on_received w p).1 ps

  -- The application after it was called for each packet in order.
  abbrev pub deliver_all : W → List (List ℕ) → W
  deliver_all w [] = w
  deliver_all w (p ∷ ps) = deliver_all (on_received w p).1 ps

  Frames-concat :
      (cfg : RecvConfig) (packets : List (List ℕ)) (w : W)
      → ArePackets cfg packets
      → AcceptsAll w packets
      → Frames on_received cfg (concat packets) w success [] (deliver_all w packets)
  Frames-concat cfg [] w good ok = no_size (omega arith)
  Frames-concat cfg (p ∷ ps) w (packet, good) (taken, ok) =
      accepted_at on_received cfg {size = length p}
        (omega (arith, length-append p (concat ps), packet.has_size))
        (read_int-append cfg.packet_size_offset p (concat ps) packet.has_size ∙ packet.says_length)
        (omega (arith, packet.has_size), packet.fits) (omega (arith, length-append p (concat ps)))
        (take-append_length (length p) p (concat ps) refl)
        (drop-append_length (length p) p (concat ps) refl) taken
        (Frames-concat cfg ps (on_received w p).1 good ok)

module _ {P W : Type 0} (ops : RecvOps P W) (cfg : RecvConfig)
    (fits_int : cfg.max_packet_size < 2 ^ 31)
    (room : cfg.packet_size_offset + 4 ≤ cfg.max_packet_size) (supply : HandsOut ops cfg) where
  open ops use {on_received}

  -- A peer sends packets that are well formed: each holds its own length, little-endian, at
  -- mPacketSizeOffset, and is no longer than mMaxPacketSize. However the network cuts the stream into
  -- chunks, the service hands exactly these packets to OnReceived, in order, returns 0 and holds
  -- nothing back, if no bytes were pending, the pool has blocks, and the callback accepts each packet.
  pub feed_packets :
      (packets chunks : List (List ℕ)) (s : RecvState P W)
      → IsReady ops cfg s
      → pending s ≡ []
      → ArePackets cfg packets
      → AcceptsAll on_received s.world packets
      → concat chunks ≡ concat packets
      → (s' : RecvState P W) × (feed ops cfg chunks s ≡ some (success, s'))
        × (s'.world ≡ deliver_all on_received s.world packets)
        × (pending s' ≡ [])
        × IsReady ops cfg s'
  feed_packets packets chunks s ready idle good ok same =
      let (ret, s', run, f) = feed-FedTo ops cfg fits_int room supply chunks s ready in
      let (e, r, w) =
        Frames-unique on_received cfg (rw (idle, same) at f.cut)
          (Frames-concat on_received cfg packets s.world good ok) in
      (s', rw (← e) run, w, sym (append-nil _) ∙ rw (f.ready e).0 at r, (f.ready e).1)
