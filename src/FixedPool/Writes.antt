-- ===== src/FixedPool/Writes.antt =====
-- include/tool/FixedMemoryPool.h: what clients write into their blocks keeps the pool's invariant.
use mathlib.Core.List.{Mem, Perm, Nodup-append, mem-append_right, mem-append_left}
use mathlib.Core.List.Perm
use native.Mathlib.Decide.{dec_lt}
use iocp_netlib.Base.{ℕ, ◌+◌, ◌≤◌, ◌<◌, ◌≡◌, List, arith, Perm-length}
use iocp_netlib.Memory.{Memory, store, copy_bytes}
use iocp_netlib.FixedPool.{FixedMemoryPool}
use iocp_netlib.FixedPool.Chain.{Chain-update, blocks_apart}
use iocp_netlib.FixedPool.Laws.{IsPool, block-mem, all-Nodup}

-- Clients may write into the blocks that they hold.
module _ {mem : Memory} {p : FixedMemoryPool} {free used : List ℕ}
    (inv : IsPool mem p free used) where
  inside_not_free : (x a : ℕ) → Mem x used → x ≤ a → a < x + p.elem_size → ¬ Mem a free
  inside_not_free x a held lo hi m =
      let bx = block-mem inv x (mem-append_right free held) in
      let ba = block-mem inv a (mem-append_left used m) in
      elim (dec_lt x a) [
        | yes above ↦ absurd (omega (arith, blocks_apart x a _ _ _ bx ba above))
        | no same ↦
            let e : a ≡ x = omega arith in
            ((Nodup-append {l₁ = free} {l₂ = used}).0 (all-Nodup inv)).2 a m (rw e held)
      ]

  pub store-IsPool :
      (x a v : ℕ) → Mem x used → x ≤ a → a < x + p.elem_size → IsPool (store mem a v) p free used
  store-IsPool x a v held lo hi = record {
    chain = Chain-update mem.word a v p.free_list free (inside_not_free x a held lo hi) inv.chain;
    counted = inv.counted;
    owned = inv.owned;
    total = inv.total;
    sized = inv.sized;
    based = inv.based;
    small = inv.small;
  }

  pub copy_bytes-IsPool : (a : ℕ) (src : List ℕ) → IsPool (copy_bytes mem a src) p free used
  unfolding copy_bytes
  copy_bytes-IsPool a src = record {
    chain = inv.chain;
    counted = inv.counted;
    owned = inv.owned;
    total = inv.total;
    sized = inv.sized;
    based = inv.based;
    small = inv.small;
  }

  pub reorder-IsPool : (held : List ℕ) → Perm used held → IsPool mem p free held
  reorder-IsPool held e = record {
    chain = inv.chain;
    counted = inv.counted;
    owned = Perm.trans (Perm.append_left free (Perm.symm e)) inv.owned;
    total = omega (arith, inv.total, Perm-length e);
    sized = inv.sized;
    based = inv.based;
    small = inv.small;
  }
