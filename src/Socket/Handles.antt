-- ===== src/Socket/Handles.antt =====
-- Netlib/SuperSocket.cpp: the handle of a socket, from Create and Connect to Close and the destructor.
use iocp_netlib.Base.{
  ℕ, ◌≡◌, refl, sym, ap, ◌∙◌, inl, inr, ◌==◌, ==_iff, Bool, true, false, Option, none, some, List,
  [], ◌∷◌, not, if◌then◌else◌, Bool-cases, Option-cases,
}
use iocp_netlib.Socket.{Events}

pub data SocketType : Type 0 where
  tcp : SocketType
  udp : SocketType

-- The object, with m_fd `none` for INVALID_SOCKET, and the handles that it has opened and not closed.
pub record SuperSocket : Type 0 where
  pub fd : Option ℕ
  pub type : SocketType
  pub blocking : Bool
  pub handles : List ℕ

-- The constructor
abbrev pub fresh : SuperSocket
fresh = record { fd = none; type = tcp; blocking = true; handles = [] }

-- closesocket
unfoldable pub remove : ℕ → List ℕ → List ℕ
remove h [] = []
remove h (x ∷ xs) = let rest = remove h xs in if x == h then rest else (x ∷ rest)

unfoldable pub close : SuperSocket → SuperSocket
unfolding remove
close s = elim s.fd [ none ↦ s | some h ↦ record s { fd = none; handles = remove h s.handles } ]

unfoldable pub adopt : Option ℕ → SuperSocket → SuperSocket
adopt none s = record s { fd = none }
adopt (some h) s = record s { fd = some h; handles = h ∷ s.handles }

-- Create, with the handle that socket gives.
unfoldable pub create : SocketType → Option ℕ → SuperSocket → Bool × SuperSocket
unfolding adopt
create type handle s =
    (elim handle [ none ↦ false | some _ ↦ true ], adopt handle (record (close s) { type = type }))

-- What connect answers.
pub data Connecting : Type 0 where
  connected : Connecting
  would_block : Connecting
  in_progress : Connecting
  refused : Connecting

-- The answers of the system to a Connect: a null host, socket, the name service, connect, the events
-- of the wait, SO_ERROR.
pub record Answers : Type 0 where
  pub null_host : Bool
  pub handle : Option ℕ
  pub resolved : Bool
  pub result : Connecting
  pub fired : Events
  pub so_error : ℕ

unfoldable pub set_blocking : Bool → SuperSocket → SuperSocket
set_blocking block s = record s { blocking = block }

unfoldable pub is_refused : Connecting → Bool
is_refused refused = true
is_refused _ = false

unfoldable pub connect : Answers → SuperSocket → Bool × SuperSocket
connect a s =
    let s' = (create tcp a.handle s).1 in
    let s'' = set_blocking false s' in
    if a.null_host
    then (false, s)
    else if not a.resolved
    then (false, s')
    else if is_refused a.result
    then (false, s'')
    else if not a.fired.write
    then (false, s'')
    else (a.so_error == 0, s'')

pub data Call : Type 0 where
  creates : SocketType → Option ℕ → Call
  connects : Answers → Call
  sets_blocking : Bool → Call
  closes : Call

abbrev pub calls : SuperSocket → List Call → SuperSocket
calls s [] = s
calls s (creates type handle ∷ rest) = calls (create type handle s).1 rest
calls s (connects a ∷ rest) = calls (connect a s).1 rest
calls s (sets_blocking b ∷ rest) = calls (set_blocking b s) rest
calls s (closes ∷ rest) = calls (close s) rest

-- The handle that the object names is all that it has open.
abbrev pub own : Option ℕ → List ℕ
own none = []
own (some h) = h ∷ []

abbrev pub IsOwner : SuperSocket → Type 0
IsOwner s = s.handles ≡ own s.fd

remove-own : (h : ℕ) → remove h (h ∷ []) ≡ []
unfolding remove
remove-own h = rw ((==_iff h h).1 refl) refl

close-none : (s : SuperSocket) → IsOwner s → ((close s).handles ≡ []) × ((close s).fd ≡ none)
unfolding close
close-none s v = elim (Option-cases s.fd) [
  | inl e ↦ rw e (v ∙ ap own e, refl)
  | inr (h, e) ↦ rw e (ap (remove h) (v ∙ ap own e) ∙ remove-own h, refl)
]

create-IsOwner :
    (type : SocketType) (handle : Option ℕ) (s : SuperSocket)
    → IsOwner s
    → IsOwner (create type handle s).1
unfolding create adopt
create-IsOwner type none s v = (close-none s v).0
create-IsOwner type (some h) s v = ap (◌∷◌ h) (close-none s v).0

connect-IsOwner : (a : Answers) (s : SuperSocket) → IsOwner s → IsOwner (connect a s).1
unfolding connect set_blocking
connect-IsOwner a s v =
    let v' : IsOwner (create tcp a.handle s).1 = create-IsOwner tcp a.handle s v in
    elim (Bool-cases a.null_host) [
      | inl e ↦ rw (connect, e) v
      | inr e ↦ elim (Bool-cases a.resolved) [
        | inr e' ↦ rw (connect, e, e') v'
        | inl e' ↦ elim (Bool-cases (is_refused a.result)) [
          | inl e'' ↦ rw (connect, e, e', e'') v'
          | inr e'' ↦ elim (Bool-cases a.fired.write) [
            | inl w ↦ rw (connect, e, e', e'', w) v'
            | inr w ↦ rw (connect, e, e', e'', w) v'
          ]
        ]
      ]
    ]

calls-IsOwner : (s : SuperSocket) (history : List Call) → IsOwner s → IsOwner (calls s history)
unfolding set_blocking
calls-IsOwner s [] v = v
calls-IsOwner s (creates type handle ∷ rest) v =
    calls-IsOwner (create type handle s).1 rest (create-IsOwner type handle s v)
calls-IsOwner s (connects a ∷ rest) v = calls-IsOwner (connect a s).1 rest (connect-IsOwner a s v)
calls-IsOwner s (sets_blocking b ∷ rest) v = calls-IsOwner (set_blocking b s) rest v
calls-IsOwner s (closes ∷ rest) v =
    calls-IsOwner (close s) rest ((close-none s v).0 ∙ sym (ap own (close-none s v).1))

-- After any sequence of Create, Connect, SetBlocking and Close on a new object, whatever the system
-- answers, the handles that were opened and not closed are the one in m_fd, or none when that is
-- INVALID_SOCKET, and the Close of the destructor leaves none open.
pub calls-no_leak :
    (history : List Call)
    → ((calls fresh history).handles ≡ own (calls fresh history).fd)
      × ((close (calls fresh history)).handles ≡ [])
calls-no_leak history =
    let v : IsOwner (calls fresh history) = calls-IsOwner fresh history refl in
    (v, (close-none (calls fresh history) v).0)
