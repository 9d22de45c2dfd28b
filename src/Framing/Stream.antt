-- ===== src/Framing/Stream.antt =====
-- Netlib/TcpClient.cpp, SplitPacket: what it promises, on the stream of bytes alone, with no buffer
-- and no chunks.
use iocp_netlib.Base.{
  ℕ, ◌+◌, ◌≤◌, ◌<◌, ◌≡◌, refl, ap, subst, ◌∙◌, ◌≢◌, List, ◌++◌, arith, length, take, drop,
  length-append, take-append, drop-append, get_or-append, get_or-take,
}
use iocp_netlib.Config.{NetServiceErr, success, illegal_recv_packet, be_closed}
use iocp_netlib.Framing.{RecvConfig, read_int}

pub read_int-append :
    (off : ℕ) (xs ys : List ℕ) → off + 4 ≤ length xs → read_int (xs ++ ys) off ≡ read_int xs off
unfolding read_int
read_int-append off xs ys h = omega (
  arith,
  get_or-append off xs ys 0 (omega arith),
  get_or-append (off + 1) xs ys 0 (omega arith),
  get_or-append (off + 2) xs ys 0 (omega arith),
  get_or-append (off + 3) xs ys 0 (omega arith),
)

pub read_int-take :
    (off n : ℕ) (xs : List ℕ) → off + 4 ≤ n → read_int (take n xs) off ≡ read_int xs off
unfolding read_int
read_int-take off n xs h = omega (
  arith,
  get_or-take off n xs 0 (omega arith),
  get_or-take (off + 1) n xs 0 (omega arith),
  get_or-take (off + 2) n xs 0 (omega arith),
  get_or-take (off + 3) n xs 0 (omega arith),
)

module _ {W : Type 0} (on_received : W → List ℕ → ℕ × W) (cfg : RecvConfig) where
  open cfg use {max_packet_size, packet_size_offset}

  abbrev pub size_of : List ℕ → ℕ
  size_of stream = read_int stream packet_size_offset

  abbrev pub HasSize : List ℕ → Type 0
  HasSize stream = packet_size_offset + 4 ≤ length stream

  abbrev pub IsLegal : ℕ → Type 0
  IsLegal size = (4 ≤ size) × (size ≤ max_packet_size)

  -- `Frames s w ret rest w'`: cutting the stream `s` ends with the code `ret` and the bytes `rest`
  -- not delivered, and takes the application from `w` to `w'`.
  pub data Frames : List ℕ → W → NetServiceErr → List ℕ → W → Type 0 where
    no_size : {s : List ℕ} {w : W} → length s < packet_size_offset + 4 → Frames s w success s w
    illegal :
        {s : List ℕ} {w : W}
        → HasSize s
        → ¬ IsLegal (size_of s)
        → Frames s w illegal_recv_packet s w
    incomplete :
        {s : List ℕ} {w : W}
        → HasSize s
        → IsLegal (size_of s)
        → length s < size_of s
        → Frames s w success s w
    rejected :
        {s : List ℕ} {w : W}
        → HasSize s
        → IsLegal (size_of s)
        → size_of s ≤ length s
        → (on_received w (take (size_of s) s)).0 ≢ 0
        → Frames s w be_closed s (on_received w (take (size_of s) s)).1
    accepted :
        {s rest : List ℕ} {w w' : W} {ret : NetServiceErr}
        → HasSize s
        → IsLegal (size_of s)
        → size_of s ≤ length s
        → (on_received w (take (size_of s) s)).0 ≡ 0
        → Frames (drop (size_of s) s) (on_received w (take (size_of s) s)).1 ret rest w'
        → Frames s w ret rest w'

  -- `accepted` and `rejected` at a size and a packet that are known by equations.
  module _ {s : List ℕ} {w : W} {size : ℕ} (has : HasSize s) (e : size_of s ≡ size) where
    module _ (legal : IsLegal size) (whole : size ≤ length s) {packet : List ℕ} where
      pub accepted_at :
          {rest left : List ℕ} {w' : W} {ret : NetServiceErr}
          → take size s ≡ packet
          → drop size s ≡ left
          → (on_received w packet).0 ≡ 0
          → Frames left (on_received w packet).1 ret rest w'
          → Frames s w ret rest w'
      accepted_at {rest} {left} {w'} {ret} p q ok f =
          accepted has (rw e legal) (rw e whole) (rw (e, p) ok) (rw (e, p, q) f)

      pub rejected_at :
          take size s ≡ packet
          → (on_received w packet).0 ≢ 0
          → Frames s w be_closed s (on_received w packet).1
      rejected_at p bad =
          subst (λ x. Frames s w be_closed s (on_received w x).1) (ap (λ (k : ℕ). take k s) e ∙ p)
            (rejected has (rw e legal) (rw e whole) (rw (e, p) bad))

  -- The first bytes decide: a longer stream is cut the same way as far as the shorter one went.
  module _ (more : List ℕ) where
    HasSize-append : (s : List ℕ) → HasSize s → HasSize (s ++ more)
    HasSize-append s h = omega (arith, length-append s more)

    size_of-append : (s : List ℕ) → HasSize s → size_of (s ++ more) ≡ size_of s
    size_of-append s h = read_int-append packet_size_offset s more h

    pub Frames-append :
        {s rest rest' : List ℕ} {w w' w'' : W} {ret : NetServiceErr}
        → Frames s w success rest w'
        → Frames (rest ++ more) w' ret rest' w''
        → Frames (s ++ more) w ret rest' w''
    Frames-append (no_size h) k = k
    Frames-append (incomplete h l p) k = k
    Frames-append (accepted {s} h l p ok f) k =
        accepted_at (HasSize-append s h) (size_of-append s h) l
          (omega (arith, length-append s more)) (take-append _ s more p) (drop-append _ s more p) ok
          (Frames-append f k)

    pub Frames-append_error :
        {s rest : List ℕ} {w w' : W} {ret : NetServiceErr}
        → ret ≢ success
        → Frames s w ret rest w'
        → Frames (s ++ more) w ret (rest ++ more) w'
    Frames-append_error ne (no_size h) = absurd (ne refl)
    Frames-append_error ne (incomplete h l p) = absurd (ne refl)
    Frames-append_error ne (illegal {s} h bad) =
        illegal (HasSize-append s h) (rw (size_of-append s h) bad)
    Frames-append_error ne (rejected {s} h l p bad) =
        rejected_at (HasSize-append s h) (size_of-append s h) l
          (omega (arith, length-append s more)) (take-append _ s more p) bad
    Frames-append_error ne (accepted {s} h l p ok f) =
        accepted_at (HasSize-append s h) (size_of-append s h) l
          (omega (arith, length-append s more)) (take-append _ s more p) (drop-append _ s more p) ok
          (Frames-append_error ne f)

  -- A stream is cut in one way.
  pub Frames-unique :
      {s r r' : List ℕ} {w v v' : W} {ret ret' : NetServiceErr}
      → Frames s w ret r v
      → Frames s w ret' r' v'
      → (ret ≡ ret') × (r ≡ r') × (v ≡ v')
  Frames-unique (no_size h) (no_size _) = (refl, refl, refl)
  Frames-unique (no_size h) (illegal g _) = absurd (omega arith)
  Frames-unique (no_size h) (incomplete g _ _) = absurd (omega arith)
  Frames-unique (no_size h) (rejected g _ _ _) = absurd (omega arith)
  Frames-unique (no_size h) (accepted g _ _ _ _) = absurd (omega arith)
  Frames-unique (illegal g bad) (no_size h) = absurd (omega arith)
  Frames-unique (illegal g bad) (illegal _ _) = (refl, refl, refl)
  Frames-unique (illegal g bad) (incomplete _ l _) = absurd (bad l)
  Frames-unique (illegal g bad) (rejected _ l _ _) = absurd (bad l)
  Frames-unique (illegal g bad) (accepted _ l _ _ _) = absurd (bad l)
  Frames-unique (incomplete g l p) (no_size h) = absurd (omega arith)
  Frames-unique (incomplete g l p) (illegal _ bad) = absurd (bad l)
  Frames-unique (incomplete g l p) (incomplete _ _ _) = (refl, refl, refl)
  Frames-unique (incomplete g l p) (rejected _ _ q _) = absurd (omega arith)
  Frames-unique (incomplete g l p) (accepted _ _ q _ _) = absurd (omega arith)
  Frames-unique (rejected g l p no') (no_size h) = absurd (omega arith)
  Frames-unique (rejected g l p no') (illegal _ bad) = absurd (bad l)
  Frames-unique (rejected g l p no') (incomplete _ _ q) = absurd (omega arith)
  Frames-unique (rejected g l p no') (rejected _ _ _ _) = (refl, refl, refl)
  Frames-unique (rejected g l p no') (accepted _ _ _ ok _) = absurd (no' ok)
  Frames-unique (accepted g l p ok f) (no_size h) = absurd (omega arith)
  Frames-unique (accepted g l p ok f) (illegal _ bad) = absurd (bad l)
  Frames-unique (accepted g l p ok f) (incomplete _ _ q) = absurd (omega arith)
  Frames-unique (accepted g l p ok f) (rejected _ _ _ bad) = absurd (bad ok)
  Frames-unique (accepted g l p ok f) (accepted _ _ _ _ f') = Frames-unique f f'
