-- ===== src/CompletionPort/Ids.antt =====
-- Netlib/NetCoreIOCP.cpp: the ids that the core gives to clients.
use iocp_netlib.Base.{ℕ, zero, suc, ◌+◌, ◌%◌, ◌^◌, ◌<◌, ◌≡◌, ◌≢◌, ap, ◌∙◌, arith}
use iocp_netlib.CompletionPort.{NetCore, get_next_logic_socket_id}

-- The core after `k` calls, and the id of the call after them.
abbrev pub after : ℕ → NetCore → NetCore
after zero c = c
after (suc k) c = (get_next_logic_socket_id (after k c)).1

abbrev pub nth_id : ℕ → NetCore → ℕ
nth_id k c = (get_next_logic_socket_id (after k c)).0

-- The ids go round through all numbers of 32 bits but 0.
next_lem :
    (c : NetCore)
    → c.next_logic_socket_id < 2 ^ 32
    → ((get_next_logic_socket_id c).0 ≡ c.next_logic_socket_id % 0xFFFFFFFF + 1)
      × ((get_next_logic_socket_id c).1.next_logic_socket_id
          ≡ c.next_logic_socket_id % 0xFFFFFFFF + 1)
unfolding get_next_logic_socket_id
next_lem c small = ground arith

step_mod : (n : ℕ) → (n % 0xFFFFFFFF + 1) % 0xFFFFFFFF ≡ (n + 1) % 0xFFFFFFFF
step_mod n = omega arith

apart_mod : (n d : ℕ) → 0 < d → d < 0xFFFFFFFF → n % 0xFFFFFFFF ≢ (n + d) % 0xFFFFFFFF
apart_mod n d pos lt = λ e. omega arith

module _ (c : NetCore) (small : c.next_logic_socket_id < 2 ^ 32) where
  after-counter :
      (k : ℕ)
      → (after (suc k) c).next_logic_socket_id ≡ (c.next_logic_socket_id + k) % 0xFFFFFFFF + 1
  after-counter zero = (next_lem c small).1 ∙ ap (λ n. n % 0xFFFFFFFF + 1) (omega arith)
  after-counter (suc k) =
      let ih = after-counter k in
      (next_lem (after (suc k) c) (omega (arith, ih))).1
      ∙ ap (λ n. n % 0xFFFFFFFF + 1) ih
      ∙ ap (λ n. n + 1)
          (step_mod (c.next_logic_socket_id + k) ∙ ap (λ n. n % 0xFFFFFFFF) (omega arith))

  nth_id_lem : (k : ℕ) → nth_id k c ≡ (c.next_logic_socket_id + k) % 0xFFFFFFFF + 1
  nth_id_lem zero = (next_lem c small).0 ∙ ap (λ n. n % 0xFFFFFFFF + 1) (omega arith)
  nth_id_lem (suc k) =
      let ih = after-counter k in
      (next_lem (after (suc k) c) (omega (arith, ih))).0
      ∙ ap (λ n. n % 0xFFFFFFFF + 1) ih
      ∙ ap (λ n. n + 1)
          (step_mod (c.next_logic_socket_id + k) ∙ ap (λ n. n % 0xFFFFFFFF) (omega arith))

-- The ids that GetNextLogicSocketID gives in a row, from any value of its counter of 32 bits: none is 0
-- or more than 32 bits long, and any two of fewer than 2 ^ 32 - 1 calls apart are different.
pub nth_id-distinct :
    (c : NetCore) (k d : ℕ)
    → c.next_logic_socket_id < 2 ^ 32
    → 0 < d
    → d < 0xFFFFFFFF
    → (0 < nth_id k c) × (nth_id k c < 2 ^ 32) × (nth_id k c ≢ nth_id (k + d) c)
nth_id-distinct c k d small pos lt =
    let e = nth_id_lem c small k in
    let e' = nth_id_lem c small (k + d) in
    (
      omega (arith, e),
      omega (arith, e),
      λ same. apart_mod (c.next_logic_socket_id + k) d pos lt (omega (arith, same, e, e')),
    )
