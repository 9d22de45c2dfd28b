-- ===== src/Client/Life/Posted.antt =====
-- Netlib/TcpClient.cpp: what PostSend and PostSpecial leave, by cases.
use iocp_netlib.Base.{ℕ, ◌<◌, ◌≡◌, refl, inl, inr, Bool, true, arith, ◌==◌, Bool-cases}
use iocp_netlib.Config.{success}
use iocp_netlib.Client.{
  Pools, Session, IoContext, OpType, increase_io_count, op_send, release_block, alloc_block,
}
use iocp_netlib.Client.Post.{request, check_release, post_send, post_special}

-- What PostSend can leave.
pub data Sent (s : Session) : Session → Type 0 where
  no_block : {r : Session} (p : Pools) → r ≡ record s { pools = p } → Sent s r
  in_flight :
      {r : Session} (x : IoContext) (p : Pools)
      → x.operation_type ≡ op_send
      → r ≡ request x (record s { client = increase_io_count s.client; pools = p })
      → Sent s r
  refused :
      {r : Session} (p p' : Pools)
      → r ≡ record (check_release (record s { client = increase_io_count s.client; pools = p })) {
        pools = p';
      }
      → Sent s r

module _ (s : Session) (len fresh_context fresh_packet : ℕ) (taken : Bool) where
  context : ℕ
  context = (alloc_block fresh_context s.pools.send_contexts).0

  packet : ℕ
  packet = (alloc_block fresh_packet s.pools.send_packets).0

  both : Pools
  both = record s.pools {
    send_contexts = (alloc_block fresh_context s.pools.send_contexts).1;
    send_packets = (alloc_block fresh_packet s.pools.send_packets).1;
  }

  left : Session
  unfolding both
  left = check_release (record s { client = increase_io_count s.client; pools = both })

  pub post_send-Sent : Sent s (post_send len fresh_context fresh_packet taken s).1
  unfolding post_send context packet both left
  post_send-Sent = elim (Bool-cases (context == 0)) [
    | inl e ↦
        no_block
          (record s.pools { send_contexts = (alloc_block fresh_context s.pools.send_contexts).1 })
          (rw e refl)
    | inr e ↦ elim (Bool-cases (packet == 0)) [
      | inl e' ↦
          no_block (record both { send_contexts = release_block context both.send_contexts })
            (rw (e, e') refl)
      | inr e' ↦ elim (Bool-cases taken) [
        | inl t ↦
            in_flight
              (record { address = context; operation_type = op_send; pointer = packet; len = len })
              both refl (rw (e, e', t) refl)
        | inr t ↦
            refused both
              (record left.pools {
                send_contexts = release_block context left.pools.send_contexts;
                send_packets = release_block packet left.pools.send_packets;
              })
              (rw (e, e', t) refl)
      ]
    ]
  ]

-- PostSpecial with the code 0 has put a request in flight.
module _ (s : Session) (op : OpType) (fresh : ℕ) (taken : Bool) where
  abbrev pub ct : ℕ
  ct = (alloc_block fresh s.pools.exception_contexts).0

  abbrev pub special : Pools
  special = record s.pools { exception_contexts = (alloc_block fresh s.pools.exception_contexts).1 }

  abbrev pub special_request : IoContext
  special_request = record { address = ct; operation_type = op; pointer = 0; len = 0 }

  pub post_special_done :
      (post_special op fresh taken s).0 ≡ success
      → (post_special op fresh taken s).1
        ≡ request special_request
            (record s { client = increase_io_count s.client; pools = special })
  unfolding post_special
  post_special_done ok = elim (Bool-cases (ct == 0)) [
    | inl e ↦ absurd (ground (arith, ok, e))
    | inr e ↦ elim (Bool-cases taken) [
      | inl t ↦ rw (e, t) refl
      | inr t ↦ absurd (ground (arith, ok, e, t))
    ]
  ]

post_special_success :
    (s : Session) (op : OpType) (fresh : ℕ)
    → 0 < (alloc_block fresh s.pools.exception_contexts).0
    → (post_special op fresh true s).0 ≡ success
unfolding post_special
post_special_success s op fresh pos = ground (arith, pos)

-- With a context, and when the system takes the request, the code is 0.
pub post_special_taken :
    (s : Session) (op : OpType) (fresh : ℕ)
    → 0 < (alloc_block fresh s.pools.exception_contexts).0
    → (x : IoContext) × (x.operation_type ≡ op)
      × ((post_special op fresh true s).1
          ≡ request x (record s {
            client = increase_io_count s.client;
            pools = record s.pools {
              exception_contexts = (alloc_block fresh s.pools.exception_contexts).1;
            };
          }))
post_special_taken s op fresh pos = (
  special_request s op fresh true,
  refl,
  post_special_done s op fresh true (post_special_success s op fresh pos),
)
