-- ===== src/Packet.antt =====
-- include/tool/PackageQueue.h and Baselib/PackageQueue.cpp, PacketWrite and PacketRead: a packet is a
-- pool block with a header of two words, the write position and the capacity, before the payload.
pub mod Laws
pub mod Append
mod Tests
use iocp_netlib.Base.{
  ℕ, zero, suc, ◌+◌, ◌^◌, ◌%◌, ◌≤◌, ◌<◌, ◌≡◌, refl, ◌≢◌, Bool, true, false, Option, none, some,
  List, [], ◌∷◌, ◌++◌, length, get_or, ltb, leb, ◌&&◌, ◌==◌, ◌-◌, if◌then◌else◌, arith, Bool-cases,
  inl, inr, length-append,
}
use iocp_netlib.Memory.{Memory, store, update, copy_bytes}

-- sizeof(WTPacketHeader)
abbrev pub header_size : ℕ
header_size = 16

-- PacketWrite::Attach
unfoldable pub attach : Memory → ℕ → ℕ → Memory
attach mem buf cap = store (store mem buf 0) (buf + 8) cap

-- PacketWrite::Write; the sum is in size_t.
unfoldable pub write : Memory → ℕ → List ℕ → Bool × Memory
write mem buf src =
    let pos = mem.word buf in
    if ltb (mem.word (buf + 8)) ((pos + length src) % 2 ^ 64) then (false, mem) else (
      true,
      store (copy_bytes mem (buf + header_size + pos) src) buf ((pos + length src) % 2 ^ 64),
    )

-- PacketRead::GetDataLength
unfoldable pub get_data_length : Memory → ℕ → ℕ
get_data_length mem buf = if buf == 0 then 0 else mem.word buf

-- PacketRead::GetBuffer
unfoldable pub get_buffer : ℕ → ℕ
get_buffer buf = if buf == 0 then 0 else buf + header_size

-- `n` bytes of memory from the address `a` on.
abbrev pub read_bytes : (ℕ → ℕ) → ℕ → ℕ → List ℕ
read_bytes byte a zero = []
read_bytes byte a (suc n) = byte a ∷ read_bytes byte (a + 1) n

-- The payload of a packet.
abbrev pub payload : Memory → ℕ → List ℕ
payload mem buf = read_bytes mem.byte (buf + header_size) (mem.word buf)
