-- ===== src/Http/Handover.antt =====
-- Netlib/HttpServiceImplementer.cpp: what a thread of the HTTP service gets of what a worker received.
use iocp_netlib.Base.{
  ℕ, ◌+◌, ◌-◌, ◌%◌, ◌^◌, ◌≤◌, ◌<◌, ◌≡◌, ◌≢◌, refl, sym, subst, ap, ap₂, ◌∙◌, Bool, true, false,
  some, List, [], ◌∷◌, ◌++◌, arith, length, leb, if◌then◌else◌, inl, inr, Bool-cases, append-nil,
}
use iocp_netlib.Memory.{Memory}
use iocp_netlib.FixedPool.{FixedMemoryPool}
use iocp_netlib.Semaphore
use iocp_netlib.Packet.{header_size, write, payload, get_data_length, get_buffer, read_bytes}
use iocp_netlib.Packet.Append.{Keeps, write-Keeps}
use iocp_netlib.PackageQueue.{PackageQueue, push, pop, take_front}
use iocp_netlib.PackageQueue.Alloc.{
  nonzero, room_of, attached, room_of_lem, room_of-small, write_first, taken,
  alloc_write_packet-run,
}
use iocp_netlib.Http.Queue.{
  HttpProtocolHeader, protocol_header_size, header_bytes, read_header, fill_packet, on_received,
  process_msg,
}
use iocp_netlib.Http.Held.{IsHeader, held_length, handed}

leb-add : (a b c : ℕ) → leb a b ≡ leb (c + a) (b + c)
leb-add a b c = ground arith

-- The data that follows the header in a packet of a pool's element
abbrev pub carried : FixedMemoryPool → List ℕ → List ℕ
carried p d = if leb (header_size + protocol_header_size + length d) p.elem_size then d else []

length-carried :
    (p : FixedMemoryPool) (d : List ℕ) → length d < 2 ^ 63 → length (carried p d) < 2 ^ 63
length-carried p d short =
    elim (Bool-cases (leb (header_size + protocol_header_size + length d) p.elem_size)) [
      | inl e ↦ rw e short
      | inr e ↦ rw e (omega arith)
    ]

module _ (mem : Memory) (p : FixedMemoryPool) (pad₀ pad₁ : ℕ) (h : HttpProtocolHeader)
    (d : List ℕ) where
  with_header : Memory
  with_header = (write (attached mem p) p.free_list (header_bytes pad₀ pad₁ h)).1

  filled : Memory
  unfolding with_header
  filled = (write with_header p.free_list d).1

  module _ (room : header_size + protocol_header_size ≤ p.elem_size) (small : p.elem_size < 2 ^ 63)
      (short : length d < 2 ^ 63) where
    payload-with_header :
        (payload with_header p.free_list ≡ header_bytes pad₀ pad₁ h)
        × Keeps with_header p.free_list (room_of p)
    unfolding with_header header_bytes
    payload-with_header =
        write_first mem p (omega arith) small (header_bytes pad₀ pad₁ h) (omega arith)

    same_test :
        payload with_header p.free_list ≡ header_bytes pad₀ pad₁ h
        → leb (with_header.word p.free_list + length d) (room_of p)
          ≡ leb (header_size + protocol_header_size + length d) p.elem_size
    same_test held =
        let n : with_header.word p.free_list ≡ 12 =
          held_length with_header p.free_list pad₀ pad₁ h [] (held ∙ sym (append-nil _)) in
        let e = room_of_lem mem p (omega arith) small in
        rw n (leb-add (12 + length d) (room_of p) 16 ∙ ap₂ leb (omega arith) e)

    payload-filled : payload filled p.free_list ≡ header_bytes pad₀ pad₁ h ++ carried p d
    unfolding filled
    payload-filled =
        let (held, keeps) = payload-with_header in
        let r =
          write-Keeps with_header p.free_list (room_of p) d keeps
            (room_of-small mem p (omega arith) small) short in
        r.0 ∙ ap₂ ◌++◌ held (ap (λ b. if b then d else []) (same_test held))

module _ (pad₀ pad₁ : ℕ) (h : HttpProtocolHeader) (d : List ℕ) (q : PackageQueue)
    (p : FixedMemoryPool) (has : q.pool ≡ some p) (free : p.free_list ≢ 0) where
  on_received-run : on_received pad₀ pad₁ h d q ≡ (
    0,
    record {
      queue = q.queue ++ (p.free_list ∷ []);
      sem = Semaphore.post q.sem;
      pool = some (taken q p);
      mem = filled q.mem p pad₀ pad₁ h d;
    },
  )
  unfolding on_received fill_packet push filled with_header
  on_received-run =
      ap (fill_packet pad₀ pad₁ h d) (alloc_write_packet-run q p has free)
      ∙ ap
          (λ (b : Bool).
            let r : Bool × PackageQueue = if b then (false, before) else (true, after) in (0, r.1))
          (nonzero p.free_list free)
    where
      before : PackageQueue
      before = record {
        queue = q.queue;
        sem = q.sem;
        pool = some (taken q p);
        mem = filled q.mem p pad₀ pad₁ h d;
      }

      after : PackageQueue
      after = record before { queue = q.queue ++ (p.free_list ∷ []); sem = Semaphore.post q.sem }

process_msg-run :
    (q : PackageQueue) (buf : ℕ)
    → q.queue ≡ buf ∷ []
    → q.sem ≡ some 1
    → (process_msg q).0
      ≡ some (
        read_header q.mem.byte (get_buffer buf),
        read_bytes q.mem.byte
            (get_buffer buf + protocol_header_size)
            ((get_data_length q.mem buf + 2 ^ 64 - protocol_header_size) % 2 ^ 64),
      )
unfolding process_msg pop take_front Semaphore.wait
process_msg-run q buf one sem = rw (one, sem) refl

-- OnReceived for a client, on an empty queue whose pool has a free element of less than 2 ^ 63 bytes with room
-- for the two headers, and ProcessMsg after it: OnReceived returns 0, and OnHttpPacket is called with the
-- socket id, port and address of the client and with exactly the received data, if the data fits in the
-- element behind the headers; if it does not, OnReceived returns 0 all the same, and OnHttpPacket is called
-- with no data.
pub on_received-process_msg :
    (pad₀ pad₁ : ℕ) (h : HttpProtocolHeader) (d : List ℕ) (q : PackageQueue) (p : FixedMemoryPool)
    → q.pool ≡ some p
    → q.queue ≡ []
    → q.sem ≡ some 0
    → p.free_list ≢ 0
    → header_size + protocol_header_size ≤ p.elem_size
    → p.elem_size < 2 ^ 63
    → length d < 2 ^ 63
    → IsHeader h
    → ((on_received pad₀ pad₁ h d q).0 ≡ 0)
      × ((process_msg (on_received pad₀ pad₁ h d q).1).0 ≡ some (h, carried p d))
unfolding Semaphore.post
on_received-process_msg pad₀ pad₁ h d q p has empty sem free room small short fits =
    let ran = on_received-run pad₀ pad₁ h d q p has free in
    let holds = payload-filled q.mem p pad₀ pad₁ h d room small short in
    (
      ap (λ (r : ℕ × PackageQueue). r.0) ran,
      subst (λ (r : ℕ × PackageQueue). (process_msg r.1).0 ≡ some (h, carried p d)) (sym ran)
          (process_msg-run _ p.free_list (ap (λ xs. xs ++ (p.free_list ∷ [])) empty)
              (ap Semaphore.post sem)
            ∙ ap some (
                handed (filled q.mem p pad₀ pad₁ h d) p.free_list pad₀ pad₁ h (carried p d) holds
                  free (length-carried p d short) fits)),
    )
