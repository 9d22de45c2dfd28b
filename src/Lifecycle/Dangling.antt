-- ===== src/Lifecycle/Dangling.antt =====
-- Netlib/NetService.cpp and Netlib/NetCoreIOCP.cpp: the core's services and the life of a service.
use mathlib.Core.List.{Mem}
use iocp_netlib.Base.{ℕ, ◌≡◌, ◌≢◌, refl, inl, inr, Bool, false, none, some}
use iocp_netlib.CompletionPort.{NetCore, get_next_service_id, add_service, remove_service}
use iocp_netlib.CompletionPort.Assist.{services}
use iocp_netlib.Lifecycle.{TcpService, Params, StartAnswers, NetService, stop, start}
use iocp_netlib.Lifecycle.Entries.{OnlyAt, erase-OnlyAt, insert-OnlyAt, not_a_service}
use iocp_netlib.Lifecycle.Entered.{HasIds, IsListed, start-IsListed, stop-IsListed}

-- What happens to the core and to one NetService, whose service was made at the address `a`: its starts and
-- its stops, and the first starts and the stops of the other services.
pub data Step (a : ℕ) (v : NetService) (c : NetCore) : NetService → NetCore → Type 0 where
  starts :
      (has_core : Bool) (ans : StartAnswers) (params : Params)
      → HasIds c
      → Step a v c (start has_core ans params v c).1 (start has_core ans params v c).2
  stops : Step a v c (stop v c).0 (stop v c).1
  other_enters :
      (other : ℕ)
      → other ≢ a
      → Step a v c v (add_service (get_next_service_id c).0 other (get_next_service_id c).1)
  other_leaves : (id : ℕ) → Step a v c v (remove_service id c)

pub data Reach (a : ℕ) (v : NetService) (c : NetCore) : NetService → NetCore → Type 0 where
  here : Reach a v c v c
  next :
      {v₁ v₂ : NetService} {c₁ c₂ : NetCore}
      → Reach a v c v₁ c₁
      → Step a v₁ c₁ v₂ c₂
      → Reach a v c v₂ c₂

other_enters-IsListed :
    (a id other : ℕ) (v : NetService) (c : NetCore)
    → other ≢ a
    → IsListed a v c
    → IsListed a v (add_service id other (get_next_service_id c).1)
unfolding add_service get_next_service_id
other_enters-IsListed a id other none c ne h =
    insert-OnlyAt none id other a c.service_map (λ e. absurd (ne e)) h
other_enters-IsListed a id other (some s) c ne (at, running, inl (z, h)) =
    (at, running, inl (z, insert-OnlyAt none id other a c.service_map (λ e. absurd (ne e)) h))
other_enters-IsListed a id other (some s) c ne (at, running, inr (nz, has, h)) = (
  at,
  running,
  inr (nz, has, insert-OnlyAt (some s.service_id) id other a c.service_map (λ e. absurd (ne e)) h),
)

other_leaves-IsListed :
    (a id : ℕ) (v : NetService) (c : NetCore) → IsListed a v c → IsListed a v (remove_service id c)
unfolding remove_service
other_leaves-IsListed a id none c h = erase-OnlyAt none id a c.service_map h
other_leaves-IsListed a id (some s) c (at, running, inl (z, h)) =
    (at, running, inl (z, erase-OnlyAt none id a c.service_map h))
other_leaves-IsListed a id (some s) c (at, running, inr (nz, has, h)) =
    (at, running, inr (nz, has, erase-OnlyAt (some s.service_id) id a c.service_map h))

module _ (a : ℕ) {v : NetService} {c : NetCore} where
  Step-IsListed : {w : NetService} {d : NetCore} → IsListed a v c → Step a v c w d → IsListed a w d
  Step-IsListed h (starts has ans params ids) = start-IsListed a has ans params v c ids h
  Step-IsListed h stops = stop-IsListed a v c h
  Step-IsListed h (other_enters other ne) =
      other_enters-IsListed a (get_next_service_id c).0 other v c ne h
  Step-IsListed h (other_leaves id) = other_leaves-IsListed a id v c h

module _ (a : ℕ) {v : NetService} {c : NetCore} where
  Reach-IsListed :
      {w : NetService} {d : NetCore} → IsListed a v c → Reach a v c w d → IsListed a w d
  Reach-IsListed h here = h
  Reach-IsListed h (next r st) = Step-IsListed a (Reach-IsListed h r) st

none-no_dangling :
    (a : ℕ) (v : NetService) (c : NetCore)
    → IsListed a v c
    → v ≡ none
    → ¬ Mem a (services c.service_map)
none-no_dangling a none c h e = not_a_service a c.service_map h
none-no_dangling a (some s) c h e = absurd cc

-- A NetService's TcpService starts without an id, not stopped, at an address that is not in the core's map
-- of services. However starts and stops of this NetService and of the others then follow one another,
-- failed starts included, as long as the core has not given out all its 2^32 ids: when the NetService has
-- no service any more, so that it has been deleted, the assist thread does not call it, since its address
-- is not among the services that the thread visits.
pub Reach-no_dangling :
    (s : TcpService) (c : NetCore) {v : NetService} {d : NetCore}
    → s.service_id ≡ 0
    → s.marked_stop ≡ false
    → OnlyAt none s.address c.service_map
    → Reach s.address (some s) c v d
    → v ≡ none
    → ¬ Mem s.address (services d.service_map)
Reach-no_dangling s c {v} {d} new running free r gone =
    none-no_dangling s.address v d (Reach-IsListed s.address (refl, running, inl (new, free)) r)
      gone
