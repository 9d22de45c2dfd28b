-- ===== src/Packet/Append.antt =====
-- Baselib/PackageQueue.cpp, PacketWrite: what a sequence of writes leaves in a packet.
use iocp_netlib.Base.{
  ℕ, ◌+◌, ◌^◌, ◌≤◌, ◌<◌, ◌≡◌, sym, subst, ◌∙◌, Bool, false, List, [], ◌++◌, arith, length, leb,
  if◌then◌else◌, inl, inr, Bool-cases, leb→le, append-nil,
}
use iocp_netlib.Memory.{Memory}
use iocp_netlib.Packet.{write, payload}
use iocp_netlib.Packet.Laws.{write_lem}

gt→leb : (a b : ℕ) → leb a b ≡ false → b < a
gt→leb a b h = ground arith

-- A write appends what fits, and keeps the capacity.
abbrev pub Keeps : Memory → ℕ → ℕ → Type 0
Keeps mem buf cap = (mem.word (buf + 8) ≡ cap) × (mem.word buf ≤ cap)

pub write-Keeps :
    (mem : Memory) (buf c : ℕ) (d : List ℕ)
    → Keeps mem buf c
    → c < 2 ^ 63
    → length d < 2 ^ 63
    → (payload (write mem buf d).1 buf
        ≡ payload mem buf ++ (if leb (mem.word buf + length d) c then d else []))
      × Keeps (write mem buf d).1 buf c
write-Keeps mem buf c d (full, within) small short =
    let (refused, fits) = write_lem mem buf c d within full small short in
    elim (Bool-cases (leb (mem.word buf + length d) c)) [
      | inl e ↦
          let (mem', ran, held, within', _, others) = fits (leb→le _ _ e) in
          rw e (
            subst
              (λ (r : Bool × Memory). (payload r.1 buf ≡ payload mem buf ++ d) × Keeps r.1 buf c)
              (sym ran) (held, (others (buf + 8) (λ same. omega arith) ∙ full, within')))
      | inr e ↦ rw e (
          subst (λ (r : Bool × Memory). (payload r.1 buf ≡ payload mem buf ++ []) × Keeps r.1 buf c)
            (sym (refused (gt→leb _ _ e))) (sym (append-nil _), (full, within)))
    ]
