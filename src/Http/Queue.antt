-- ===== src/Http/Queue.antt =====
-- Netlib/HttpServiceImplementer.cpp, OnReceived and ProcessMsg, with HttpProtocolHeader of
-- Netlib/BaseDefine.h: the requests that the workers queue for the threads of the HTTP service.
use iocp_netlib.Base.{ℕ, ◌+◌, ◌-◌, ◌*◌, ◌/◌, ◌%◌, ◌^◌, Option, none, some, List, [], ◌∷◌}
use iocp_netlib.Packet.{write, get_data_length, get_buffer, read_bytes}
use iocp_netlib.PackageQueue.{PackageQueue, alloc_write_packet, push, pop, release}

pub record HttpProtocolHeader : Type 0 where
  pub socket_id : ℕ
  pub remote_port : ℕ
  pub remote_ip : ℕ

-- sizeof(HttpProtocolHeader)
abbrev pub protocol_header_size : ℕ
protocol_header_size = 12

-- The bytes of a header, the two between the port and the address being whatever is on the stack.
unfoldable pub header_bytes : ℕ → ℕ → HttpProtocolHeader → List ℕ
header_bytes pad₀ pad₁ h =
    h.socket_id % 256
    ∷ h.socket_id / 256 % 256
    ∷ h.socket_id / 65536 % 256
    ∷ h.socket_id / 16777216 % 256
    ∷ h.remote_port % 256
    ∷ h.remote_port / 256 % 256
    ∷ pad₀
    ∷ pad₁
    ∷ h.remote_ip % 256
    ∷ h.remote_ip / 256 % 256
    ∷ h.remote_ip / 65536 % 256
    ∷ h.remote_ip / 16777216 % 256
    ∷ []

-- Two and four bytes as a number
unfoldable pub read_short : (ℕ → ℕ) → ℕ → ℕ
read_short byte a = byte a + 256 * byte (a + 1)

unfoldable pub read_int : (ℕ → ℕ) → ℕ → ℕ
read_int byte a = byte a + 256 * byte (a + 1) + 65536 * byte (a + 2) + 16777216 * byte (a + 3)

unfoldable pub read_header : (ℕ → ℕ) → ℕ → HttpProtocolHeader
read_header byte a = record {
  socket_id = read_int byte a;
  remote_port = read_short byte (a + 4);
  remote_ip = read_int byte (a + 8);
}

-- OnReceived behind AllocWritePacket: -1 without a packet; the results of Write are not looked at.
unfoldable pub fill_packet :
    ℕ → ℕ → HttpProtocolHeader → List ℕ → Option ℕ × PackageQueue → ℕ × PackageQueue
fill_packet pad₀ pad₁ h data_bytes (none, q) = (0xFFFFFFFF, q)
fill_packet pad₀ pad₁ h data_bytes (some buf, q) =
    let (_, mem) = write q.mem buf (header_bytes pad₀ pad₁ h) in
    let (_, mem') = write mem buf data_bytes in (0, (push buf (record q { mem = mem' })).1)

unfoldable pub on_received : ℕ → ℕ → HttpProtocolHeader → List ℕ → PackageQueue → ℕ × PackageQueue
on_received pad₀ pad₁ h data_bytes q = fill_packet pad₀ pad₁ h data_bytes (alloc_write_packet q)

-- One round of ProcessMsg while the service is not stopped: what OnHttpPacket is called with, if the Pop
-- gives a packet, and the queue after the packet's destructor.
unfoldable pub process_msg : PackageQueue → Option (HttpProtocolHeader × List ℕ) × PackageQueue
process_msg q =
    let (_, packet, q') = pop q in
    elim packet [
      | none ↦ (none, q')
      | some buf ↦
          let a = get_buffer buf in
          let n = (get_data_length q'.mem buf + 2 ^ 64 - protocol_header_size) % 2 ^ 64 in
          (
            some (read_header q'.mem.byte a, read_bytes q'.mem.byte (a + protocol_header_size) n),
            release buf q',
          )
    ]
