-- ===== src/Service/Send.antt =====
-- Netlib/TcpService.cpp, Send: each branch, and what it leaves of the map.
use iocp_netlib.Base.{
  ℕ, ◌+◌, ◌^◌, ◌≤◌, ◌<◌, ◌≡◌, refl, sym, ap, subst, ◌∙◌, ◌≢◌, ◌⊎◌, inl, inr, Bool, true, none, some,
  List, [], ◌∷◌, arith, ltb, ◌==◌, Bool-cases, Option-cases, ltb→lt, ltb→le, lt→ltb, le→ltb,
}
use iocp_netlib.Config.{illegal_send_packet, invalid_socket}
use iocp_netlib.Client.{
  Session, ConnState, conn_closed, conn_connected, conn_closing, increase_ref, decrease_ref,
  is_active, remove_client, set_client, increase_io_count, decrease_io_count,
}
use iocp_netlib.Client.Post.{post_send, check_release, finish, report_closed}
use iocp_netlib.Client.Life.Release.{finish_closing, finish_connected, finish_closed}
use iocp_netlib.Client.Life.Posted.{no_block, in_flight, refused, post_send-Sent}
use iocp_netlib.Service.{
  Entry, TcpService, view, node, find_in, find_client, put_in, put_back, with_ref, send,
}

-- A client that somebody holds is known and keeps its references.
abbrev IsHeld : ℕ → Session → Type 0
IsHeld n s = (s.registered ≡ true) × (s.client.reference_count ≡ n)

module _ (n : ℕ) (pos : 0 < n) (small : n < 2 ^ 31) where
  remove_client-IsHeld : (s : Session) → IsHeld n s → IsHeld n (remove_client s)
  unfolding remove_client is_active
  remove_client-IsHeld s h = ground (arith, h)

  finish-IsHeld :
      (s : Session) (st : ConnState) → s.client.conn_state ≡ st → IsHeld n s → IsHeld n (finish s)
  finish-IsHeld s conn_closing e h =
      subst (IsHeld n) (sym (finish_closing s e)) (remove_client-IsHeld (report_closed s) h)
  finish-IsHeld s conn_connected e h =
      subst (IsHeld n) (sym (finish_connected s e)) (remove_client-IsHeld s h)
  finish-IsHeld s conn_closed e h =
      subst (IsHeld n) (sym (finish_closed s e)) (remove_client-IsHeld s h)

  check_release-IsHeld : (s : Session) → IsHeld n s → IsHeld n (check_release s)
  unfolding check_release
  check_release-IsHeld s h = elim (Bool-cases ((decrease_io_count s.client).pending_io == 0)) [
    | inl e ↦
        rw e (finish-IsHeld (set_client s (decrease_io_count s.client)) s.client.conn_state refl h)
    | inr e ↦ rw e h
  ]

  post_send-IsHeld :
      (s : Session) (len fresh_context fresh_packet : ℕ) (taken : Bool)
      → IsHeld n s
      → IsHeld n (post_send len fresh_context fresh_packet taken s).1
  post_send-IsHeld s len f g taken h = elim (post_send-Sent s len f g taken) [
    | no_block p e ↦ subst (IsHeld n) (sym e) h
    | in_flight x p o e ↦ subst (IsHeld n) (sym e) h
    | refused p p' e ↦
        subst (IsHeld n) (sym e)
          (check_release-IsHeld (record s { client = increase_io_count s.client; pools = p }) h)
  ]

pub find-put_other :
    (key other : ℕ) (s : Session) (es : List Entry)
    → key ≢ other
    → find_in other (put_in key s es) ≡ find_in other es
find-put_other key other s [] ne = refl
find-put_other key other s (e ∷ es) ne =
    let rest = find-put_other key other s es ne in ground (arith, ne, rest)

pub find-put_self :
    (key : ℕ) (s : Session) (es : List Entry) (e : Entry)
    → s.registered ≡ true
    → find_in key es ≡ some e
    → find_in key (put_in key s es) ≡ some (node key s)
find-put_self key s [] e r f = absurd (ground (arith, f))
find-put_self key s (x ∷ es) e r f = elim (Bool-cases (x.key == key)) [
  | inl q ↦ rw (q, r) (ground arith)
  | inr q ↦
      let f' : find_in key es ≡ some e = ground (arith, f, q) in
      rw (q, q) (find-put_self key s es e r f')
]

module _ (v : TcpService) (key len fresh_context fresh_packet : ℕ) (taken : Bool) where
  sent : TcpService
  sent = (send key len fresh_context fresh_packet taken v).1

  send_long :
      len < 2 ^ 31
      → v.max_packet_size < len
      → send key len fresh_context fresh_packet taken v ≡ (illegal_send_packet, v)
  unfolding send
  send_long int h = rw (lt→ltb _ _ int, lt→ltb _ _ h) refl

  send_unknown :
      len < 2 ^ 31
      → len ≤ v.max_packet_size
      → find_client key v ≡ none
      → send key len fresh_context fresh_packet taken v ≡ (invalid_socket, v)
  unfolding send
  send_unknown int h e = rw (lt→ltb _ _ int, le→ltb _ _ h, e) refl

  module _ (e : Entry) (int : len < 2 ^ 31) (fits : len ≤ v.max_packet_size)
      (f : find_client key v ≡ some e) (small : e.client.reference_count + 1 < 2 ^ 31) where
    held : Session
    held = set_client (view v.pools e) (increase_ref e.client)

    posted : Session
    unfolding held
    posted = (post_send len fresh_context fresh_packet taken held).1

    dropped : Session
    unfolding posted
    dropped = set_client posted (decrease_ref posted.client)

    send_run :
        send key len fresh_context fresh_packet taken v
        ≡ ((post_send len fresh_context fresh_packet taken held).0, put_back key dropped v)
    unfolding send with_ref held posted dropped
    send_run = rw (lt→ltb _ _ int, le→ltb _ _ fits, f) refl

    held-IsHeld : IsHeld (e.client.reference_count + 1) held
    unfolding held increase_ref
    held-IsHeld = (refl, omega arith)

    posted-IsHeld : IsHeld (e.client.reference_count + 1) posted
    unfolding posted
    posted-IsHeld =
        post_send-IsHeld (e.client.reference_count + 1) (omega arith) small held len fresh_context
          fresh_packet taken held-IsHeld

    dropped-IsHeld : IsHeld e.client.reference_count dropped
    unfolding dropped decrease_ref
    dropped-IsHeld = (posted-IsHeld.0, omega (arith, posted-IsHeld.1))

    found_again : find_client key (put_back key dropped v) ≡ some (node key dropped)
    unfolding find_client
    found_again = find-put_self key dropped v.clients e dropped-IsHeld.0 f

  others_kept :
      (other : ℕ) (s : Session)
      → key ≢ other
      → find_client other (put_back key s v) ≡ find_client other v
  unfolding find_client
  others_kept other s ne = find-put_other key other s v.clients ne

-- Send of a length that is not negative. Data longer than mMaxPacketSize is refused with NSE_ILLEGAL_SEND_PACKET and an unknown id
-- with NSE_INVALID_SOCKET, and then nothing changes. Otherwise, with fewer than 2 ^ 31 - 1 references
-- to the client, the code is that of PostSend; the client is still known, even when PostSend has
-- ended its last request, and its reference count is what it was before, on every path; and what the
-- map holds for every other id is unchanged.
pub send-find_client :
    (v : TcpService) (key len fresh_context fresh_packet : ℕ) (taken : Bool)
    → len < 2 ^ 31
    → ((e : Entry) → find_client key v ≡ some e → e.client.reference_count + 1 < 2 ^ 31)
    → let r = send key len fresh_context fresh_packet taken v in
      ((v.max_packet_size < len) × (r ≡ (illegal_send_packet, v)))
      ⊎ ((len ≤ v.max_packet_size) × (find_client key v ≡ none) × (r ≡ (invalid_socket, v)))
      ⊎ ((e : Entry) × (e' : Entry) × (find_client key v ≡ some e)
          × (r.0
              ≡ (post_send len fresh_context fresh_packet taken
                  (set_client (view v.pools e) (increase_ref e.client))).0)
          × (find_client key r.1 ≡ some e')
          × (e'.client.reference_count ≡ e.client.reference_count)
          × ((other : ℕ) → key ≢ other → find_client other r.1 ≡ find_client other v))
unfolding held
send-find_client v key len f g taken int small = elim (Bool-cases (ltb v.max_packet_size len)) [
  | inl long ↦ inl (ltb→lt _ _ long, send_long v key len f g taken int (ltb→lt _ _ long))
  | inr short ↦ elim (Option-cases (find_client key v)) [
    | inl e ↦
        inr (inl (ltb→le _ _ short, e, send_unknown v key len f g taken int (ltb→le _ _ short) e))
    | inr (e, found) ↦
        let fits : len ≤ v.max_packet_size = ltb→le _ _ short in
        let few = small e found in
        let after = dropped v key len f g taken e int fits found few in
        let run = send_run v key len f g taken e int fits found few in
        inr (
          inr (
            e,
            node key after,
            found,
            ap (λ r. r.0) run,
            ap (λ r. find_client key r.1) run
                ∙ found_again v key len f g taken e int fits found few,
            (dropped-IsHeld v key len f g taken e int fits found few).1,
            λ other ne.
                ap (λ r. find_client other r.1) run
                ∙ others_kept v key len f g taken other after ne,
          ))
  ]
]
