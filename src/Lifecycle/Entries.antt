-- ===== src/Lifecycle/Entries.antt =====
-- Netlib/NetCoreIOCP.cpp: the map of the core's services, from the side of one service.
use mathlib.Core.List.{Mem, mem-cons, not-mem-nil}
use mathlib.Core.HLevel.{⊥_prop}
use mathlib.Core.Logic.Or
use iocp_netlib.Base.{
  ℕ, ◌≡◌, sym, ap, inl, inr, false, Option, none, some, List, [], ◌∷◌, arith, ltb, ◌==◌, Bool-cases,
}
use iocp_netlib.CompletionPort.{erase, insert}
use iocp_netlib.CompletionPort.Assist.{services}

-- The service at the address `a` is in the map at the key `allowed` at most.
abbrev pub OnlyAt : Option ℕ → ℕ → List (ℕ × ℕ) → Type 0
OnlyAt allowed a [] = Unit {0}
OnlyAt allowed a ((k, x) ∷ rest) = (x ≡ a → allowed ≡ some k) × OnlyAt allowed a rest

differ : (j k : ℕ) → (j == k) ≡ false → k ≡ j → ⊥
differ j k e same = ground arith

never : {k : ℕ} → ◌≡◌ {A = Option ℕ} none (some k) → ⊥
never e = absurd cc

pub erase-gone :
    (k a : ℕ) (map : List (ℕ × ℕ)) → OnlyAt (some k) a map → OnlyAt none a (erase k map)
unfolding erase
erase-gone k a [] h = tt
erase-gone k a ((j, x) ∷ rest) h = elim (Bool-cases (j == k)) [
  | inl e ↦ rw e (erase-gone k a rest h.1)
  | inr e ↦ rw e (
    (λ same. absurd (differ j k e (ap (λ o. elim o [ none ↦ 0 | some n ↦ n ]) (h.0 same)))),
    erase-gone k a rest h.1,
  )
]

pub erase-OnlyAt :
    (allowed : Option ℕ) (k a : ℕ) (map : List (ℕ × ℕ))
    → OnlyAt allowed a map
    → OnlyAt allowed a (erase k map)
unfolding erase
erase-OnlyAt allowed k a [] h = tt
erase-OnlyAt allowed k a ((j, x) ∷ rest) h = elim (Bool-cases (j == k)) [
  | inl e ↦ rw e (erase-OnlyAt allowed k a rest h.1)
  | inr e ↦ rw e (h.0, erase-OnlyAt allowed k a rest h.1)
]

pub insert-OnlyAt :
    (allowed : Option ℕ) (k y a : ℕ) (map : List (ℕ × ℕ))
    → (y ≡ a → allowed ≡ some k)
    → OnlyAt allowed a map
    → OnlyAt allowed a (insert k y map)
unfolding insert
insert-OnlyAt allowed k y a [] new h = (new, tt)
insert-OnlyAt allowed k y a ((j, x) ∷ rest) new h = elim (Bool-cases (ltb k j)) [
  | inl e ↦ rw e (new, h)
  | inr e ↦ elim (Bool-cases (j == k)) [
    | inl e' ↦ rw (e, e') (new, h.1)
    | inr e' ↦ rw (e, e') (h.0, insert-OnlyAt allowed k y a rest new h.1)
  ]
]

pub weaken :
    (allowed : Option ℕ) (a : ℕ) (map : List (ℕ × ℕ)) → OnlyAt none a map → OnlyAt allowed a map
weaken allowed a [] h = tt
weaken allowed a ((k, x) ∷ rest) h = (λ e. absurd (never (h.0 e)), weaken allowed a rest h.1)

pub not_a_service : (a : ℕ) (map : List (ℕ × ℕ)) → OnlyAt none a map → ¬ Mem a (services map)
unfolding services
not_a_service a [] h = not-mem-nil
not_a_service a ((k, x) ∷ rest) h = elim (Bool-cases (x == 0)) [
  | inl e ↦ rw e (not_a_service a rest h.1)
  | inr e ↦ rw e (λ m.
      Or.elim ⊥_prop (mem-cons.0 m) (λ same. never (h.0 (sym same))) (not_a_service a rest h.1))
]
