-- ===== src/Service/Connecting.antt =====
-- Netlib/TcpService.cpp, ConnectServer: what it leaves of the map of clients.
use iocp_netlib.Base.{
  ℕ, ◌+◌, ◌^◌, ◌<◌, ◌≡◌, ◌≢◌, refl, ap, ◌∙◌, ◌⊎◌, inl, inr, true, false, Option, none, some, List,
  [], ◌∷◌, ◌++◌, arith, ltb, ◌==◌, Bool-cases,
}
use iocp_netlib.Client.{
  Session, IoContext, increase_ref, decrease_ref, is_active, remove_client, set_client,
}
use iocp_netlib.Client.Connect.{Answers, post_connect, connect_context, post_connect-cases}
use iocp_netlib.Service.{
  Entry, TcpService, view, node, find_in, find_client, put_in, put_back, insert_in, remove,
}
use iocp_netlib.Service.Send.{find-put_other, find-put_self}
use iocp_netlib.Service.Connect.{connect_client}

none_first :
    (e x : Entry) (xs : List Entry)
    → find_in e.key (x ∷ xs) ≡ none
    → ((x.key == e.key) ≡ false) × (find_in e.key xs ≡ none)
none_first e x xs h = elim (Bool-cases (x.key == e.key)) [
  | inl q ↦ absurd (clash (rw q at h))
  | inr q ↦ (q, rw q at h)
]
  where
    clash : ◌≡◌ {A = Option Entry} (some x) none → ⊥
    clash c = absurd cc

-- A new key is found, and an erased one is not.
find-insert_self :
    (e : Entry) (es : List Entry)
    → find_in e.key es ≡ none
    → find_in e.key (insert_in e es) ≡ some e
find-insert_self e [] h = ground arith
find-insert_self e (x ∷ xs) h =
    let (q, h') = none_first e x xs h in
    let deep = find-insert_self e xs h' in
    elim (Bool-cases (ltb e.key x.key)) [
      | inl b ↦ rw b (ground arith)
      | inr b ↦ let q' : (e.key == x.key) ≡ false = ground (arith, q) in rw (b, q', q) deep
    ]

find-insert_other :
    (e : Entry) (other : ℕ) (es : List Entry)
    → e.key ≢ other
    → find_in other (insert_in e es) ≡ find_in other es
find-insert_other e other [] ne = ground (arith, ne)
find-insert_other e other (x ∷ xs) ne =
    let deep = find-insert_other e other xs ne in ground (arith, ne, deep)

find-put_erased :
    (e : Entry) (s : Session) (es : List Entry)
    → s.registered ≡ false
    → find_in e.key es ≡ none
    → find_in e.key (put_in e.key s (insert_in e es)) ≡ none
find-put_erased e s [] r h = let q : (e.key == e.key) ≡ true = ground arith in rw (q, r) refl
find-put_erased e s (x ∷ xs) r h =
    let (q, h') = none_first e x xs h in
    let deep = find-put_erased e s xs r h' in
    let self : (e.key == e.key) ≡ true = ground arith in
    elim (Bool-cases (ltb e.key x.key)) [
      | inl b ↦ rw (b, self, r) h
      | inr b ↦ let q' : (e.key == x.key) ≡ false = ground (arith, q) in rw (b, q', q, q) deep
    ]

put_in-put_in :
    (key : ℕ) (s t : Session) (es : List Entry)
    → s.registered ≡ true
    → put_in key t (put_in key s es) ≡ put_in key t es
put_in-put_in key s t [] r = refl
put_in-put_in key s t (x ∷ xs) r =
    let self : (key == key) ≡ true = ground arith in
    elim (Bool-cases (x.key == key)) [
      | inl b ↦ rw (b, r, self) refl
      | inr b ↦ rw (b, b) (ap (◌∷◌ x) (put_in-put_in key s t xs r))
    ]

-- What the map holds for every other id is as it was.
abbrev pub OthersKept : ℕ → TcpService → TcpService → Type 0
OthersKept key v w = (other : ℕ) → key ≢ other → find_client other w ≡ find_client other v

-- The id is not in the map, and nothing else has changed.
abbrev pub NotThere : ℕ → TcpService → TcpService → Type 0
NotThere key v w = (find_client key w ≡ none) × OthersKept key v w

-- A client with this id that waits for a connection to the address, held once
abbrev pub Waits : Answers → ℕ → ℕ → TcpService → Type 0
Waits a key port w =
    (e : Entry) × (find_client key w ≡ some e)
    × (e.client.reference_count ≡ 1)
    × (e.client.pending_io ≡ 1)
    × (e.io ≡ connect_context ∷ [])
    × (a.ip ≡ some e.client.remote_ip)
    × (e.client.remote_port ≡ port)
    × (e.client.connect_sem ≡ some 0)

-- PostConnect does not touch the references.
post_connect-held :
    (a : Answers) (port : ℕ) (s : Session)
    → ((post_connect a port s).1.registered ≡ s.registered)
      × ((post_connect a port s).1.client.reference_count ≡ s.client.reference_count)
unfolding post_connect
post_connect-held a port s = ground arith

module _ (a : Answers) (port : ℕ) (v w : TcpService) (e : Entry)
    (fresh : find_client e.key v ≡ none) (inserted : w.clients ≡ insert_in e v.clients)
    (no_refs : e.client.reference_count ≡ 0) (no_io : e.client.pending_io ≡ 0)
    (no_requests : e.io ≡ []) where
  held : Session
  held = set_client (view w.pools e) (increase_ref e.client)

  fresh_in : find_in e.key v.clients ≡ none
  unfolding find_client
  fresh_in = fresh

  found : find_in e.key w.clients ≡ some e
  found = ap (find_in e.key) inserted ∙ find-insert_self e v.clients fresh_in

  others : (other : ℕ) → e.key ≢ other → find_in other w.clients ≡ find_in other v.clients
  others other ne = ap (find_in other) inserted ∙ find-insert_other e other v.clients ne

  held_once : (held.registered ≡ true) × (held.client.reference_count ≡ 1)
  unfolding held increase_ref
  held_once = (refl, omega (arith, no_refs))

  io_small : held.client.pending_io + 1 < 2 ^ 32
  unfolding held increase_ref
  io_small = omega (arith, no_io)

  -- The client after PostConnect, and without its reference
  posted : Session
  unfolding held
  posted = (post_connect a port held).1

  dropped : Session
  unfolding posted
  dropped = set_client posted (decrease_ref posted.client)

  posted_once : (posted.registered ≡ true) × (posted.client.reference_count ≡ 1)
  unfolding posted
  posted_once = let (r, n) = post_connect-held a port held in (r ∙ held_once.0, n ∙ held_once.1)

  waiting :
      (post_connect a port held).0 ≡ true
      → (posted.client.pending_io ≡ held.client.pending_io + 1)
      → (posted.io ≡ held.io ++ (connect_context ∷ []))
      → (a.ip ≡ some posted.client.remote_ip)
      → (posted.client.remote_port ≡ port)
      → (posted.client.connect_sem ≡ some 0)
      → let r = connect_client a port (some e, w) in
        (r.0 ≡ some e.key) × Waits a e.key port r.1 × OthersKept e.key v r.1
  unfolding connect_client find_client held posted increase_ref
  waiting ok io requests ip p sem =
      rw (connect_client, ok)
        (
          refl,
          (
            node e.key posted,
            find-put_self e.key posted w.clients e posted_once.0 found,
            posted_once.1,
            io ∙ omega (arith, no_io),
            requests ∙ ap (λ (l : List IoContext). l ++ (connect_context ∷ [])) no_requests,
            ip,
            p,
            sem,
          ),
          (λ other ne. find-put_other e.key other posted w.clients ne ∙ others other ne),
        )

  dropped_free : (dropped.registered ≡ true) × (is_active dropped.client ≡ false)
  unfolding dropped decrease_ref is_active
  dropped_free = let (r, n) = posted_once in (r, ground (arith, n))

  gone : Session
  unfolding dropped
  gone = remove_client (view dropped.pools (node e.key dropped))

  gone_free : gone.registered ≡ false
  unfolding gone remove_client
  gone_free = rw dropped_free.1 refl

  removed : remove e.key (put_back e.key dropped w) ≡ put_back e.key gone (put_back e.key dropped w)
  unfolding remove find_client gone
  removed =
      ap
        (λ (o : Option Entry). elim o [
          | none ↦ put_back e.key dropped w
          | some x ↦
              put_back e.key (remove_client (view dropped.pools x)) (put_back e.key dropped w)
        ])
        (find-put_self e.key dropped w.clients e dropped_free.0 found)

  erased :
      (put_back e.key gone (put_back e.key dropped w)).clients
      ≡ put_in e.key gone (insert_in e v.clients)
  erased =
      put_in-put_in e.key dropped gone w.clients dropped_free.0 ∙ ap (put_in e.key gone) inserted

  after_removal : NotThere e.key v (remove e.key (put_back e.key dropped w))
  unfolding find_client
  after_removal = (
    ap (λ u. find_client e.key u) removed
        ∙ ap (find_in e.key) erased
        ∙ find-put_erased e gone v.clients gone_free fresh_in,
    λ other ne.
        ap (λ u. find_client other u) removed
        ∙ ap (find_in other) erased
        ∙ find-put_other e.key other gone (insert_in e v.clients) ne
        ∙ find-insert_other e other v.clients ne,
  )

  given_up :
      (post_connect a port held).0 ≡ false
      → let r = connect_client a port (some e, w) in (r.0 ≡ none) × NotThere e.key v r.1
  unfolding connect_client held posted dropped
  given_up bad = rw (connect_client, bad) (refl, after_removal)

  pub connect_client-cases :
      let r = connect_client a port (some e, w) in
      ((r.0 ≡ none) × NotThere e.key v r.1)
      ⊎ ((r.0 ≡ some e.key) × Waits a e.key port r.1 × OthersKept e.key v r.1)
  unfolding posted
  connect_client-cases = elim (post_connect-cases a port held io_small) [
    | inl (ok, io, requests, ip, p, sem) ↦ inr (waiting ok io requests ip p sem)
    | inr (bad, undone) ↦ inl (given_up bad)
  ]
