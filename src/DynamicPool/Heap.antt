-- ===== src/DynamicPool/Heap.antt =====
-- include/tool/DynamicMemoryPool.h: the blocks that operator new has given and that are not deleted, in
-- any sequence of Create and Free.
use mathlib.Core.List.{
  Mem, Nodup, Nodup-nil, Perm, perm_middle, mem-append_right, mem-cons_self, not-mem-nil,
  reverse_perm,
}
use mathlib.Core.List.Perm
use mathlib.Core.Option.{some-injective}
use iocp_netlib.Base.{
  ℕ, ◌+◌, ◌^◌, ◌<◌, ◌≡◌, refl, sym, ap, subst, ◌∙◌, ◌≢◌, ◌⊎◌, inl, inr, ◌||◌, Bool-cases, Option,
  none, some, List, [], ◌∷◌, ◌++◌, arith, length, ◌==◌,
}
use iocp_netlib.DynamicPool.{DynamicMemoryPool, construct, create, free, clear, get_used_count}
use iocp_netlib.DynamicPool.Laws.{IsBalanced, create-IsBalanced, free-IsBalanced}

-- The pool, the blocks that clients hold, and those that operator new has given and that are not
-- deleted.
pub record System : Type 0 where
  pub pool : DynamicMemoryPool
  pub held : List ℕ
  pub live : List ℕ

-- Create calls operator new if nothing is cached.
abbrev pub born : ℕ → List ℕ → List ℕ → List ℕ
born fresh [] live = fresh ∷ live
born fresh (x ∷ rest) live = live

-- Operator delete on `x`, unless it is null, takes a live block.
abbrev pub Dies : ℕ → List ℕ → List ℕ → Type 0
Dies x live live' = ((x ≡ 0) × (live' ≡ live)) ⊎ ((x ≢ 0) × Perm live (x ∷ live'))

pub data Step (s : System) : System → Type 0 where
  creates :
      (fresh : ℕ)
      → fresh ≢ 0
      → ¬ Mem fresh s.live
      → length s.held + 1 < 2 ^ 64
      → Step s (record {
        pool = (create fresh s.pool).1;
        held = (create fresh s.pool).0 ∷ s.held;
        live = born fresh s.pool.cache s.live;
      })
  frees :
      (x : ℕ) (rest : List ℕ) (deleted : ℕ) (p : DynamicMemoryPool) (live : List ℕ)
      → Perm s.held (x ∷ rest)
      → free x s.pool ≡ some (deleted, p)
      → Dies deleted s.live live
      → Step s (record { pool = p; held = rest; live = live })

pub data Reach (s : System) : System → Type 0 where
  here : Reach s s
  next : {t u : System} → Reach s t → Step t u → Reach s u

-- Every live block is cached or held.
record IsHeap (s : System) : Type 0 where
  balanced : IsBalanced s.pool s.held
  whole : Perm s.live (s.pool.cache ++ s.held)

module _ (fresh : ℕ) (p : DynamicMemoryPool) where
  cache-create_new : fresh ≢ 0 → (create fresh (record p { cache = [] })).1.cache ≡ []
  unfolding create
  cache-create_new ne = ground arith

  cache-create_cached :
      (x : ℕ) (rest : List ℕ) → (create fresh (record p { cache = x ∷ rest })).1.cache ≡ rest
  unfolding create
  cache-create_cached x rest = ground arith

  born-Perm :
      (cache held live : List ℕ)
      → fresh ≢ 0
      → Perm live (cache ++ held)
      → Perm (born fresh cache live) (
          (create fresh (record p { cache = cache })).1.cache
          ++ ((create fresh (record p { cache = cache })).0 ∷ held))
  unfolding create
  born-Perm [] held live ne whole =
      subst (λ c. Perm (fresh ∷ live) (c ++ (fresh ∷ held))) (sym (cache-create_new ne))
        (Perm.cons fresh whole)
  born-Perm (x ∷ rest) held live ne whole =
      subst (λ c. Perm live (c ++ (x ∷ held))) (sym (cache-create_cached x rest))
        (Perm.trans whole (Perm.symm (perm_middle rest held)))

module _ {s : System} (v : IsHeap s) where
  creates-IsHeap :
      (fresh : ℕ)
      → fresh ≢ 0
      → ¬ Mem fresh s.live
      → length s.held + 1 < 2 ^ 64
      → IsHeap (record {
        pool = (create fresh s.pool).1;
        held = (create fresh s.pool).0 ∷ s.held;
        live = born fresh s.pool.cache s.live;
      })
  creates-IsHeap fresh ne unused room =
      let (x, p', e, _, _, _, ok) =
        create-IsBalanced v.balanced fresh ne (λ m. unused ((Perm.mem_iff v.whole).1 m)) room in
      record {
        balanced = subst (λ r. IsBalanced r.1 (r.0 ∷ s.held)) (sym e) ok;
        whole = born-Perm fresh s.pool s.pool.cache s.held s.live ne v.whole;
      }

  module _ (x : ℕ) (rest : List ℕ) (held : Perm s.held (x ∷ rest)) where
    whole_moved : Perm s.live (x ∷ (s.pool.cache ++ rest))
    whole_moved =
        Perm.trans v.whole
          (Perm.trans (Perm.append_left s.pool.cache held) (perm_middle s.pool.cache rest))

    x-ne : x ≢ 0
    x-ne = omega (
      arith,
      v.balanced.positive x (mem-append_right s.pool.cache ((Perm.mem_iff held).1 mem-cons_self)),
    )

    -- What Free does with the block, and where it is then.
    abbrev Freed : ℕ → DynamicMemoryPool → Type 0
    Freed deleted p =
        ((length s.pool.cache < s.pool.max_cache) × (deleted ≡ 0) × (p.cache ≡ x ∷ s.pool.cache))
        ⊎ ((length s.pool.cache ≡ s.pool.max_cache) × (deleted ≡ x) × (p.cache ≡ s.pool.cache))

    Freed-whole :
        (deleted : ℕ) (p : DynamicMemoryPool) (live : List ℕ)
        → Freed deleted p
        → Dies deleted s.live live
        → Perm live (p.cache ++ rest)
    Freed-whole deleted p live (inl (_, _, e)) (inl (_, same)) =
        subst (λ l. Perm l (p.cache ++ rest)) (sym same)
          (subst (λ c. Perm s.live (c ++ rest)) (sym e) whole_moved)
    Freed-whole deleted p live (inl (_, z, e)) (inr (ne, _)) = absurd (ne z)
    Freed-whole deleted p live (inr (_, d, _)) (inl (z, _)) = absurd (x-ne (sym d ∙ z))
    Freed-whole deleted p live (inr (_, d, e)) (inr (_, gone)) =
        subst (λ c. Perm live (c ++ rest)) (sym e)
          (Perm.cons_inv
            (Perm.trans (Perm.symm (subst (λ y. Perm s.live (y ∷ live)) d gone)) whole_moved))

    Freed-Dies :
        (deleted : ℕ) (p : DynamicMemoryPool)
        → Freed deleted p
        → (live : List ℕ) × Dies deleted s.live live
    Freed-Dies deleted p (inl (_, z, _)) = (s.live, inl (z, refl))
    Freed-Dies deleted p (inr (_, d, _)) = (
      s.pool.cache ++ rest,
      inr (
        (λ z. x-ne (sym d ∙ z)),
        subst (λ y. Perm s.live (y ∷ (s.pool.cache ++ rest))) (sym d) whole_moved,
      ),
    )

    frees-IsHeap :
        (deleted : ℕ) (p : DynamicMemoryPool) (live : List ℕ)
        → free x s.pool ≡ some (deleted, p)
        → Dies deleted s.live live
        → IsHeap (record { pool = p; held = rest; live = live })
    frees-IsHeap deleted p live e =
        let (p', deleted', e', _, what, ok) = free-IsBalanced v.balanced x rest held in
        subst (λ r. Dies r.0 s.live live → IsHeap (record { pool = r.1; held = rest; live = live }))
          (some-injective _ _ (sym e' ∙ e))
          (λ dies. record { balanced = ok; whole = Freed-whole deleted' p' live what dies })

    -- Free of a block that is held is such a step.
    frees_next : (t : System) × Step s t × (t.held ≡ rest)
    frees_next =
        let (p', deleted, e, _, what, _) = free-IsBalanced v.balanced x rest held in
        let (live, dies) = Freed-Dies deleted p' what in
        (
          record { pool = p'; held = rest; live = live },
          frees x rest deleted p' live held e dies,
          refl,
        )

  Step-IsHeap : {t : System} → Step s t → IsHeap t
  Step-IsHeap (creates fresh ne unused room) = creates-IsHeap fresh ne unused room
  Step-IsHeap (frees x rest deleted p live held e dies) =
      frees-IsHeap x rest held deleted p live e dies

  clear-whole : Perm s.live ((clear s.pool).0 ++ s.held)
  unfolding clear
  clear-whole =
      Perm.trans v.whole (Perm.append_right s.held (Perm.symm (reverse_perm s.pool.cache)))

Reach-IsHeap : {s t : System} → IsHeap s → Reach s t → IsHeap t
Reach-IsHeap v here = v
Reach-IsHeap v (next r step) = Step-IsHeap (Reach-IsHeap v r) step

-- What the constructor makes is empty.
abbrev IsEmpty : Option DynamicMemoryPool → Type 0
IsEmpty none = Unit {0}
IsEmpty (some p) = (p.cache ≡ []) × (p.used_count ≡ 0)

construct-IsEmpty : (elem_size max_cache : ℕ) → IsEmpty (construct elem_size max_cache)
unfolding construct
construct-IsEmpty elem_size max_cache = elim (Bool-cases (elem_size == 0 || max_cache == 0)) [
  | inl none_made ↦ rw none_made tt
  | inr made ↦ rw made (refl, refl)
]

construct-IsHeap :
    (elem_size max_cache : ℕ) (p : DynamicMemoryPool)
    → construct elem_size max_cache ≡ some p
    → IsHeap (record { pool = p; held = []; live = [] })
construct-IsHeap elem_size max_cache p made =
    let (no_cache, unused) = subst IsEmpty made (construct-IsEmpty elem_size max_cache) in
    record {
      balanced = record {
        counted = unused;
        bounded = omega (arith, ap length no_cache);
        distinct = subst (λ c. Nodup (c ++ [])) (sym no_cache) Nodup-nil;
        positive = λ x m. absurd (not-mem-nil (subst (λ c. Mem x (c ++ [])) no_cache m));
      };
      whole = subst (λ c. Perm [] (c ++ [])) (sym no_cache) Perm.nil;
    }

-- Clients of a pool that the constructor has made, that call Create and give back with Free what they
-- hold, in any order, when operator new gives no null and no address that is live and fewer than
-- 2 ^ 64 - 1 blocks are held: GetUsedCount is the number of blocks that are held; each of those is not
-- null and can be given back without a failed assert, where operator delete gets null or a live
-- block; the live blocks are those that are held and those that Clear deletes, each once.
pub Reach-heap :
    (elem_size max_cache : ℕ) (p : DynamicMemoryPool) {s : System}
    → construct elem_size max_cache ≡ some p
    → Reach (record { pool = p; held = []; live = [] }) s
    → (get_used_count s.pool ≡ length s.held)
      × ((x : ℕ) (rest : List ℕ)
          → Perm s.held (x ∷ rest)
          → (x ≢ 0) × ((t : System) × Step s t × (t.held ≡ rest)))
      × Nodup s.live
      × Perm s.live ((clear s.pool).0 ++ s.held)
unfolding get_used_count
Reach-heap elem_size max_cache p {s} made r =
    let v = Reach-IsHeap (construct-IsHeap elem_size max_cache p made) r in
    (
      v.balanced.counted,
      (λ x rest held. (x-ne v x rest held, frees_next v x rest held)),
      Perm.nodup (Perm.symm v.whole) v.balanced.distinct,
      clear-whole v,
    )
