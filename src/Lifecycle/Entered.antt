-- ===== src/Lifecycle/Entered.antt =====
-- Netlib/TcpService.cpp and Netlib/NetService.cpp: a start and a stop keep the service's entry right.
use iocp_netlib.Base.{
  ℕ, ◌+◌, ◌*◌, ◌%◌, ◌^◌, ◌<◌, ◌≡◌, ◌≢◌, refl, sym, subst, ◌∙◌, ◌⊎◌, inl, inr, Bool, true, false,
  none, some, arith, ◌==◌, ==_iff, Bool-cases, if◌then◌else◌,
}
use iocp_netlib.Config.{is_success}
use iocp_netlib.CompletionPort.{NetCore, get_next_service_id, add_service, remove_service}
use iocp_netlib.Timer.{set_timer}
use iocp_netlib.Lifecycle.{
  TcpService, Params, StartAnswers, NetService, enter, listen, create_all_pool, start_net_service,
  stop_net_service, stop, start,
}
use iocp_netlib.Lifecycle.Entries.{OnlyAt, erase-gone, erase-OnlyAt, insert-OnlyAt, weaken}

-- A service that is not in the map, or at its own key only.
abbrev Entered : ℕ → TcpService → NetCore → Type 0
Entered a s c =
    (s.address ≡ a)
    × (s.marked_stop ≡ false)
    × (((s.service_id ≡ 0) × OnlyAt none a c.service_map)
        ⊎ ((s.service_id ≢ 0) × (s.has_core ≡ true) × OnlyAt (some s.service_id) a c.service_map))

abbrev pub IsListed : ℕ → NetService → NetCore → Type 0
IsListed a none c = OnlyAt none a c.service_map
IsListed a (some s) c = Entered a s c

stop_net_service-gone :
    (a : ℕ) (s : TcpService) (c : NetCore)
    → Entered a s c
    → ((stop_net_service s c).0.marked_stop ≡ true)
      × OnlyAt none a (stop_net_service s c).1.service_map
unfolding stop_net_service remove_service
stop_net_service-gone a s c (_, running, place) = rw (stop_net_service, running) (refl, of place)
  where
    of :
        ((s.service_id ≡ 0) × OnlyAt none a c.service_map)
          ⊎ ((s.service_id ≢ 0) × (s.has_core ≡ true) × OnlyAt (some s.service_id) a c.service_map)
        → OnlyAt none a (if s.has_core then remove_service s.service_id c else c).service_map
    of (inl (_, h)) = elim (Bool-cases s.has_core) [
      | inl e ↦ rw e (erase-OnlyAt none s.service_id a c.service_map h)
      | inr e ↦ rw e h
    ]
    of (inr (_, e, h)) = rw e (erase-gone s.service_id a c.service_map h)

stopped_again :
    (s : TcpService) (c : NetCore) → s.marked_stop ≡ true → stop_net_service s c ≡ (s, c)
unfolding stop_net_service
stopped_again s c e = ground arith

stop-gone :
    (a : ℕ) (v : NetService) (c : NetCore)
    → IsListed a v c
    → ((stop v c).0 ≡ none) × OnlyAt none a (stop v c).1.service_map
unfolding stop
stop-gone a none c h = (refl, h)
stop-gone a (some s) c h =
    let (marked, gone) = stop_net_service-gone a s c h in
    (
      refl,
      subst (λ (r : TcpService × NetCore). OnlyAt none a r.1.service_map)
          (sym (stopped_again (stop_net_service s c).0 (stop_net_service s c).1 marked)) gone,
    )

-- The core has ids left.
abbrev pub HasIds : NetCore → Type 0
HasIds c = c.next_service_id + 1 < 2 ^ 32

unlisted :
    (a : ℕ) (s : TcpService) (c : NetCore)
    → s.service_id ≡ 0
    → ((s.service_id ≡ 0) × OnlyAt none a c.service_map)
      ⊎ ((s.service_id ≢ 0) × (s.has_core ≡ true) × OnlyAt (some s.service_id) a c.service_map)
    → OnlyAt none a c.service_map
unlisted a s c z (inl (_, h)) = h
unlisted a s c z (inr (ne, _, h)) = absurd (ne z)

enter-Entered :
    (a : ℕ) (s : TcpService) (c : NetCore)
    → s.has_core ≡ true
    → HasIds c
    → Entered a s c
    → Entered a (enter s c).0 (enter s c).1
unfolding enter get_next_service_id add_service
enter-Entered a s c has ids (addr, running, place) = elim (Bool-cases (s.service_id == 0)) [
  | inl e ↦
      rw (enter, e)
        (
          addr,
          running,
          inr (
            (λ z. omega arith),
            has,
            insert-OnlyAt (some ((c.next_service_id + 1) % 2 ^ 32))
                ((c.next_service_id + 1) % 2 ^ 32) s.address a c.service_map (λ _. refl)
                (weaken (some ((c.next_service_id + 1) % 2 ^ 32)) a c.service_map
                  (unlisted a s c ((==_iff s.service_id 0).0 e) place)),
          ),
        )
  | inr e ↦ rw (enter, e) (addr, running, place)
]

-- What the rest of the start keeps
abbrev SamePlace : TcpService → TcpService → Type 0
SamePlace s t =
    (t.address ≡ s.address)
    × (t.service_id ≡ s.service_id)
    × (t.has_core ≡ s.has_core)
    × (t.marked_stop ≡ s.marked_stop)

listen-SamePlace : (ans : StartAnswers) (s : TcpService) → SamePlace s (listen ans s).1
unfolding listen
listen-SamePlace ans s = ground arith

move : (a : ℕ) (s t : TcpService) (c : NetCore) → SamePlace s t → Entered a s c → Entered a t c
move a s t c (addr, id, core, marked) (at, running, place) = (addr ∙ at, marked ∙ running, of place)
  where
    of :
        ((s.service_id ≡ 0) × OnlyAt none a c.service_map)
          ⊎ ((s.service_id ≢ 0) × (s.has_core ≡ true) × OnlyAt (some s.service_id) a c.service_map)
        → ((t.service_id ≡ 0) × OnlyAt none a c.service_map)
          ⊎ ((t.service_id ≢ 0) × (t.has_core ≡ true) × OnlyAt (some t.service_id) a c.service_map)
    of (inl (z, h)) = inl (id ∙ z, h)
    of (inr (ne, has, h)) = inr (
      (λ z. ne (sym id ∙ z)),
      core ∙ has,
      subst (λ k. OnlyAt (some k) a c.service_map) (sym id) h,
    )

start_net_service-Entered :
    (a : ℕ) (ans : StartAnswers) (params : Params) (s : TcpService) (c : NetCore)
    → HasIds c
    → Entered a s c
    → Entered a (start_net_service ans params s c).1 (start_net_service ans params s c).2
unfolding start_net_service
start_net_service-Entered a ans params s c ids (addr, running, place) =
    let s₀ : TcpService = record s { marked_stop = false; has_core = true } in
    let in_place : Entered a s₀ c = (addr, refl, of place) in
    let e : TcpService × NetCore = enter s₀ c in
    let entered : Entered a e.0 e.1 = enter-Entered a s₀ c refl ids in_place in
    elim (Bool-cases (create_all_pool ans.pools e.0.pools).0) [
      | inl ok ↦
          rw (start_net_service, ok)
            (move a e.0 (listen ans (timed e.0)).1 e.1 (listen-SamePlace ans (timed e.0)) entered)
      | inr bad ↦
          rw (start_net_service, bad) (move a e.0 (made e.0) e.1 (refl, refl, refl, refl) entered)
    ]
  where
    made : TcpService → TcpService
    made t = record t { params = params; pools = (create_all_pool ans.pools t.pools).1 }

    timed : TcpService → TcpService
    timed t = record (made t) {
      check_status_timer = set_timer ans.now 5000;
      log_stats_timer = set_timer ans.now (60 * 1000);
    }

    of :
        ((s.service_id ≡ 0) × OnlyAt none a c.service_map)
          ⊎ ((s.service_id ≢ 0) × (s.has_core ≡ true) × OnlyAt (some s.service_id) a c.service_map)
        → ((s.service_id ≡ 0) × OnlyAt none a c.service_map)
          ⊎ ((s.service_id ≢ 0) × (true ≡ true) × OnlyAt (some s.service_id) a c.service_map)
    of (inl (z, h)) = inl (z, h)
    of (inr (ne, has, h)) = inr (ne, refl, h)

pub start-IsListed :
    (a : ℕ) (has : Bool) (ans : StartAnswers) (params : Params) (v : NetService) (c : NetCore)
    → HasIds c
    → IsListed a v c
    → IsListed a (start has ans params v c).1 (start has ans params v c).2
unfolding start stop
start-IsListed a true ans params none c ids h = h
start-IsListed a false ans params none c ids h = h
start-IsListed a false ans params (some s) c ids h = (stop-gone a (some s) c h).1
start-IsListed a true ans params (some s) c ids h =
    elim (Bool-cases (is_success (start_net_service ans params s c).0)) [
      | inl e ↦ rw e (start_net_service-Entered a ans params s c ids h)
      | inr e ↦
          rw e
            (stop-gone a (some (start_net_service ans params s c).1)
              (start_net_service ans params s c).2
              (start_net_service-Entered a ans params s c ids h)).1
    ]

pub stop-IsListed :
    (a : ℕ) (v : NetService) (c : NetCore) → IsListed a v c → IsListed a (stop v c).0 (stop v c).1
unfolding stop
stop-IsListed a none c h = h
stop-IsListed a (some s) c h = (stop-gone a (some s) c h).1
