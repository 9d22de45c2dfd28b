-- ===== src/Client/Connect.antt =====
-- Netlib/TcpClient.cpp, PostConnect and PostSendHttp: a connection to a remote server, and a response
-- whose text is made in the send packet.
use iocp_netlib.Base.{
  ℕ, ◌+◌, ◌-◌, ◌%◌, ◌^◌, ◌<◌, ◌≡◌, refl, ◌⊎◌, inl, inr, Bool, true, false, Option, none, some, [],
  ◌∷◌, ◌++◌, arith, if◌then◌else◌, ltb, Bool-cases, Option-cases,
}
use iocp_netlib.Config.{NetServiceErr}
use iocp_netlib.Semaphore
use iocp_netlib.Client.{Session, IoContext, op_connectex, set_client, decrease_io_count}
use iocp_netlib.Client.Post.{request, post_send}

-- The answers of inet_pton (the address, `none` for a bad format), CreateSemaphore, the completion
-- port, WSAIoctl, bind and ConnectEx.
pub record Answers : Type 0 where
  pub ip : Option ℕ
  pub semaphore : Bool
  pub attached : Bool
  pub extension : Bool
  pub bound : Bool
  pub connecting : Bool

-- mRecvContext as SetRecvContextToConnect sets it.
abbrev pub connect_context : IoContext
connect_context = record { address = 0; operation_type = op_connectex; pointer = 0; len = 4096 }

abbrev close_after : Session → Bool × Session
close_after s = (false, set_client s (record s.client { socket_open = false }))

-- The part of PostConnect from ConnectEx on.
abbrev connect : Bool → Session → Bool × Session
connect connecting s =
    let s' = set_client s (record s.client {
      recv_op = op_connectex;
      pending_io = (s.client.pending_io + 1) % 2 ^ 32;
    }) in
    if connecting
    then (true, request connect_context s')
    else close_after (set_client s' (decrease_io_count s'.client))

-- PostConnect
unfoldable pub post_connect : Answers → ℕ → Session → Bool × Session
post_connect a port s = elim a.ip [
  | none ↦ (false, s)
  | some ip ↦
      let c = record s.client { remote_ip = ip; remote_port = port } in
      let s₁ = set_client s (record c { connect_sem = Semaphore.create a.semaphore 0 }) in
      if a.semaphore
      then (if a.attached
          then (if a.extension
              then (if a.bound then connect a.connecting s₁ else close_after s₁)
              else close_after s₁)
          else close_after s₁)
      else close_after s₁
]

-- PostSendHttp: PostSend of the text that _snprintf_s has written, with -1 for a text that it had to
-- cut short, as the length of a WSABUF reads it.
unfoldable pub post_send_http : ℕ → ℕ → ℕ → ℕ → Bool → Session → NetServiceErr × Session
post_send_http text_len max_packet_size fresh_context fresh_packet taken s =
    post_send
      (if ltb text_len ((max_packet_size + 2 ^ 64 - 128) % 2 ^ 64) then text_len else 2 ^ 32 - 1)
      fresh_context fresh_packet taken s

-- What PostConnect leaves after a failure: the counts and the requests as they were, and a closed
-- socket unless the address was bad.
abbrev pub Undone : Answers → Session → Session → Type 0
Undone a s t =
    (t.client.pending_io ≡ s.client.pending_io)
    × (t.client.reference_count ≡ s.client.reference_count)
    × (t.registered ≡ s.registered)
    × (t.io ≡ s.io)
    × (t.events ≡ s.events)
    × ((a.ip ≡ none) ⊎ (t.client.socket_open ≡ false))

-- PostConnect on a client with fewer than 2 ^ 32 - 1 requests: either one connect request is in flight
-- and counted, the address and port are those asked for, and nobody has posted the semaphore; or
-- nothing is in flight that was not before, the count of requests is unchanged, and the socket is
-- closed unless the address was bad.
pub post_connect-cases :
    (a : Answers) (port : ℕ) (s : Session)
    → s.client.pending_io + 1 < 2 ^ 32
    → let r = post_connect a port s in
      ((r.0 ≡ true)
        × (r.1.client.pending_io ≡ s.client.pending_io + 1)
        × (r.1.io ≡ s.io ++ (connect_context ∷ []))
        × (a.ip ≡ some r.1.client.remote_ip)
        × (r.1.client.remote_port ≡ port)
        × (r.1.client.connect_sem ≡ some 0))
      ⊎ ((r.0 ≡ false) × Undone a s r.1)
unfolding post_connect Semaphore.create
post_connect-cases a port s small = elim (Option-cases a.ip) [
  | inl e ↦ inr (rw e (refl, (refl, refl, refl, refl, refl, inl refl)))
  | inr (ip, e) ↦ elim (Bool-cases a.semaphore) [
    | inr b ↦ inr (rw (e, b) (refl, (refl, refl, refl, refl, refl, inr refl)))
    | inl b ↦ elim (Bool-cases a.attached) [
      | inr c ↦ inr (rw (e, b, c) (refl, (refl, refl, refl, refl, refl, inr refl)))
      | inl c ↦ elim (Bool-cases a.extension) [
        | inr d ↦ inr (rw (e, b, c, d) (refl, (refl, refl, refl, refl, refl, inr refl)))
        | inl d ↦ elim (Bool-cases a.bound) [
          | inr f ↦ inr (rw (e, b, c, d, f) (refl, (refl, refl, refl, refl, refl, inr refl)))
          | inl f ↦ elim (Bool-cases a.connecting) [
            | inr g ↦
                inr (rw (e, b, c, d, f, g) (refl, (omega arith, refl, refl, refl, refl, inr refl)))
            | inl g ↦ inl (rw (e, b, c, d, f, g) (refl, omega arith, refl, refl, refl, refl))
          ]
        ]
      ]
    ]
  ]
]
