-- ===== src/Client/Life/Steps.antt =====
-- Netlib/TcpClient.cpp: each operation keeps what is known of an accepted connection.
use iocp_netlib.Base.{
  ◌+◌, ◌^◌, ◌≤◌, ◌<◌, ◌≡◌, refl, sym, subst, ◌∙◌, ◌≢◌, ◌⊎◌, inl, inr, true, false, arith, length,
}
use iocp_netlib.Config.{NetServiceErr}
use iocp_netlib.Client.{
  TcpClient, Session, ConnState, conn_closed, conn_connected, conn_closing, set_client,
  set_disconnect,
}
use iocp_netlib.Client.Life.{recvs, AllServed, Told, IsBusy}

-- In an operation that has taken a receive out, with the receive still missing or the connection
-- about to be disconnected.
pub record IsOpen (s : Session) : Type 0 where
  pub counted : s.client.pending_io ≡ length s.io + 1
  pub short : length s.io < 2 ^ 31
  pub once : recvs s.io ≤ 1
  pub served : AllServed s.io
  pub referenced : s.client.reference_count < 2 ^ 31
  pub told : Told s.client.conn_state s.client 1 s.events
  pub known : s.registered ≡ true

-- SetDisconnect after a code other than 0.
module _ (s : Session) (b : IsOpen s) (err : NetServiceErr) where
  Told-as : (st : ConnState) → s.client.conn_state ≡ st → Told st s.client 1 s.events
  Told-as st e = subst (λ t. Told t s.client 1 s.events) e b.told

  disconnected : TcpClient
  disconnected = record s.client {
    conn_state = conn_closing;
    last_error_code = err;
    socket_open = false;
  }

  set_disconnect_other :
      (st : ConnState)
      → Told st s.client 1 s.events
      → st ≢ conn_connected
      → Told st s.client (recvs s.io) s.events
  set_disconnect_other conn_connected h ne = absurd (ne refl)
  set_disconnect_other conn_closing h ne = h
  set_disconnect_other conn_closed h ne = h

  set_disconnect-cases :
      ((set_disconnect err s.client ≡ disconnected) × (s.client.conn_state ≡ conn_connected))
      ⊎ ((set_disconnect err s.client ≡ s.client) × (s.client.conn_state ≢ conn_connected))
  unfolding set_disconnect disconnected
  set_disconnect-cases = by_state s.client.conn_state refl
    where
      by_state :
          (st : ConnState)
          → s.client.conn_state ≡ st
          → ((set_disconnect err s.client ≡ disconnected) × (s.client.conn_state ≡ conn_connected))
            ⊎ ((set_disconnect err s.client ≡ s.client) × (s.client.conn_state ≢ conn_connected))
      by_state conn_connected e = inl (rw e refl, e)
      by_state conn_closing e = inr (rw e refl, λ q. cc (e, q))
      by_state conn_closed e = inr (rw e refl, λ q. cc (e, q))

  IsBusy-with :
      (c : TcpClient)
      → c.pending_io ≡ s.client.pending_io
      → c.reference_count ≡ s.client.reference_count
      → Told c.conn_state c (recvs s.io) s.events
      → IsBusy (set_client s c)
  IsBusy-with c p r told = record {
    counted = p ∙ b.counted;
    short = b.short;
    once = b.once;
    served = b.served;
    referenced = omega (arith, r, b.referenced);
    told = told;
    known = b.known;
  }

  pub set_disconnect-IsBusy : IsBusy (set_client s (set_disconnect err s.client))
  unfolding disconnected
  set_disconnect-IsBusy = elim set_disconnect-cases [
    | inl (run, e) ↦
        subst (λ c. IsBusy (set_client s c)) (sym run)
          (IsBusy-with disconnected refl refl (refl, (Told-as conn_connected e).1))
    | inr (run, ne) ↦
        subst (λ c. IsBusy (set_client s c)) (sym run)
          (IsBusy-with s.client refl refl (set_disconnect_other s.client.conn_state b.told ne))
  ]
