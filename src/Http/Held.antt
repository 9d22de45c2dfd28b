-- ===== src/Http/Held.antt =====
-- Netlib/HttpServiceImplementer.cpp, ProcessMsg: what it reads out of a packet that holds a header and data.
use iocp_netlib.Base.{
  ℕ, zero, suc, ◌+◌, ◌-◌, ◌*◌, ◌/◌, ◌%◌, ◌^◌, ◌<◌, ◌≡◌, ◌≢◌, sym, ap, ap₂, ◌∙◌, List, ◌++◌, arith,
  length, get_or, drop,
}
use iocp_netlib.Memory.{Memory}
use iocp_netlib.Packet.{header_size, payload, get_data_length, get_buffer, read_bytes}
use iocp_netlib.Packet.Laws.{read_bytes-add, length-read_bytes}
use iocp_netlib.PackageQueue.Alloc.{nonzero}
use iocp_netlib.Http.Queue.{
  HttpProtocolHeader, protocol_header_size, header_bytes, read_short, read_int, read_header,
}

get_or-read_bytes : (f : ℕ → ℕ) (a n i : ℕ) → i < n → get_or (read_bytes f a n) i 0 ≡ f (a + i)
get_or-read_bytes f a zero i h = absurd (omega arith)
get_or-read_bytes f a (suc n) zero h = ap f (omega arith)
get_or-read_bytes f a (suc n) (suc i) h =
    get_or-read_bytes f (a + 1) n i (omega arith) ∙ ap f (omega arith)

-- The fields of a header have the widths of their types.
abbrev pub IsHeader : HttpProtocolHeader → Type 0
IsHeader h = (h.socket_id < 2 ^ 32) × (h.remote_port < 2 ^ 16) × (h.remote_ip < 2 ^ 32)

four :
    (n : ℕ)
    → n < 2 ^ 32
    → n % 256 + 256 * (n / 256 % 256) + 65536 * (n / 65536 % 256) + 16777216 * (n / 16777216 % 256)
      ≡ n
four n h = omega arith

two : (n : ℕ) → n < 2 ^ 16 → n % 256 + 256 * (n / 256 % 256) ≡ n
two n h = omega arith

module _ (f : ℕ → ℕ) (a n : ℕ) where
  read_int_lem :
      n < 2 ^ 32
      → f a ≡ n % 256
      → f (a + 1) ≡ n / 256 % 256
      → f (a + 2) ≡ n / 65536 % 256
      → f (a + 3) ≡ n / 16777216 % 256
      → read_int f a ≡ n
  unfolding read_int
  read_int_lem small e₀ e₁ e₂ e₃ = rw (e₀, e₁, e₂, e₃) (four n small)

  read_short_lem : n < 2 ^ 16 → f a ≡ n % 256 → f (a + 1) ≡ n / 256 % 256 → read_short f a ≡ n
  unfolding read_short
  read_short_lem small e₀ e₁ = rw (e₀, e₁) (two n small)

same_header :
    (g h : HttpProtocolHeader)
    → g.socket_id ≡ h.socket_id
    → g.remote_port ≡ h.remote_port
    → g.remote_ip ≡ h.remote_ip
    → g ≡ h
same_header g h s p i = cc

module _ (mem : Memory) (buf pad₀ pad₁ : ℕ) (h : HttpProtocolHeader) (d : List ℕ)
    (holds : payload mem buf ≡ header_bytes pad₀ pad₁ h ++ d) where
  pub held_length : mem.word buf ≡ 12 + length d
  unfolding header_bytes
  held_length =
      sym (length-read_bytes mem.byte (buf + header_size) (mem.word buf))
      ∙ ap length holds
      ∙ omega arith

  held_byte :
      (i : ℕ)
      → i < 12
      → mem.byte (buf + header_size + i) ≡ get_or (header_bytes pad₀ pad₁ h ++ d) i 0
  held_byte i l =
      sym (
        get_or-read_bytes mem.byte (buf + header_size) (mem.word buf) i
          (rw held_length (omega arith)))
      ∙ ap (λ (xs : List ℕ). get_or xs i 0) holds

  at :
      (i j : ℕ)
      → j ≡ buf + header_size + i
      → i < 12
      → mem.byte j ≡ get_or (header_bytes pad₀ pad₁ h ++ d) i 0
  at i j e l = ap mem.byte e ∙ held_byte i l

  held_data : read_bytes mem.byte (buf + header_size + 12) (length d) ≡ d
  unfolding header_bytes
  held_data = ap (drop 12) (
      sym (read_bytes-add mem.byte (buf + header_size) 12 (length d))
      ∙ ap (read_bytes mem.byte (buf + header_size)) (sym held_length)
      ∙ holds)

  held_header : IsHeader h → read_header mem.byte (buf + header_size) ≡ h
  unfolding header_bytes read_header read_int read_short
  held_header (s, p, i) =
      same_header (read_header mem.byte (buf + header_size)) h
        (read_int_lem mem.byte (buf + header_size) h.socket_id s
          (at 0 _ (omega arith) (omega arith)) (at 1 _ (omega arith) (omega arith))
          (at 2 _ (omega arith) (omega arith)) (at 3 _ (omega arith) (omega arith)))
        (read_short_lem mem.byte (buf + header_size + 4) h.remote_port p
          (at 4 _ (omega arith) (omega arith)) (at 5 _ (omega arith) (omega arith)))
        (read_int_lem mem.byte (buf + header_size + 8) h.remote_ip i
          (at 8 _ (omega arith) (omega arith)) (at 9 _ (omega arith) (omega arith))
          (at 10 _ (omega arith) (omega arith)) (at 11 _ (omega arith) (omega arith)))

pub handed :
    (mem : Memory) (buf pad₀ pad₁ : ℕ) (h : HttpProtocolHeader) (d : List ℕ)
    → payload mem buf ≡ header_bytes pad₀ pad₁ h ++ d
    → buf ≢ 0
    → length d < 2 ^ 63
    → IsHeader h
    → ◌≡◌ {A = HttpProtocolHeader × List ℕ}
        (
          read_header mem.byte (get_buffer buf),
          read_bytes mem.byte
              (get_buffer buf + protocol_header_size)
              ((get_data_length mem buf + 2 ^ 64 - protocol_header_size) % 2 ^ 64),
        )
        (h, d)
unfolding get_buffer get_data_length
handed mem buf pad₀ pad₁ h d holds ne short fits =
    let n = held_length mem buf pad₀ pad₁ h d holds in
    rw (nonzero buf ne) (
      ap₂ (λ (x : HttpProtocolHeader) (y : List ℕ). (x, y))
        (held_header mem buf pad₀ pad₁ h d holds fits)
        (ap (read_bytes mem.byte (buf + header_size + 12)) (rw n (omega arith))
          ∙ held_data mem buf pad₀ pad₁ h d holds))
