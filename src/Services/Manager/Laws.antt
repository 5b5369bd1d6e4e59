-- ===== src/Services/Manager/Laws.antt =====
-- All calls of a run of the manager, in their order.
use config_manager.Prelude.{
  ◌≡◌, refl, sym, ap, ◌∙◌, Bool, true, false, Option, none, some, List, [], ◌∷◌, ◌++◌, map,
  Bool-cases, inl, inr, if◌then◌else◌,
}
use mathlib.Core.List.{reverse, append_assoc, append-nil}
use config_manager.Services.Manager.{
  Service, bot, scraper, publisher, ServiceType, unset, only, another, Call, connect, disconnect,
  start, stop, ServiceManager, call, stop_each, stop_all, stop_named, stop_one, start_one,
  services_to_start, start_each, start_all, new_manager, run_services, main,
}

abbrev pub started : Service → Call
started s = start s true

-- the calls of `stop_all`: the services in reverse order, and then the cache
abbrev pub closing : List Service → List Call
closing services = map stop (reverse services) ++ disconnect ∷ []

-- the services that start, up to the first that does not
unfoldable pub started_of : (Service → Bool) → List Service → List Service
started_of starts [] = []
started_of starts (s ∷ services) =
    let rest = started_of starts services in if starts s then s ∷ rest else []

-- the first service that does not start
unfoldable pub failing_of : (Service → Bool) → List Service → Option Service
failing_of starts [] = none
failing_of starts (s ∷ services) =
    let rest = failing_of starts services in if starts s then rest else some s

-- What follows the starts that succeed: everything is stopped, and if a start failed, it is stopped twice.
abbrev pub ending : List Service → Option Service → List Call
ending services none = closing services
ending services (some s) = start s false ∷ closing services ++ closing services

-- The calls and the services after `stop_all`.
stop_each-calls :
    (services : List Service) (m : ServiceManager)
    → stop_each services m ≡ record { services = m.services; calls = m.calls ++ map stop services }
unfolding stop_each
stop_each-calls [] m =
    ap (λ (l : List Call). record { services = m.services; calls = l }) (sym (append-nil m.calls))
stop_each-calls (s ∷ services) m =
    stop_each-calls services (call (stop s) m)
    ∙ ap (λ (l : List Call). record { services = m.services; calls = l })
        (append_assoc m.calls (stop s ∷ []) (map stop services))

stop_all-calls : (m : ServiceManager) → (stop_all m).calls ≡ m.calls ++ closing m.services
unfolding stop_all
stop_all-calls m =
    rw (stop_each-calls (reverse m.services) m)
      (append_assoc m.calls (map stop (reverse m.services)) (disconnect ∷ []))

stop_all-services : (m : ServiceManager) → (stop_all m).services ≡ m.services
unfolding stop_all
stop_all-services m = rw (stop_each-calls (reverse m.services) m) refl

start_each-calls :
    (starts : Service → Bool) (todo : List Service) (m : ServiceManager)
    → (stop_all (start_each starts todo m).0).calls
      ≡ m.calls
        ++ map started (started_of starts todo)
        ++ ending (m.services ++ started_of starts todo) (failing_of starts todo)
unfolding start_each started_of failing_of
start_each-calls starts [] m = stop_all-calls m ∙ simp (append-nil)
start_each-calls starts (s ∷ todo) m =
    let on : ServiceManager = record {
      services = m.services ++ s ∷ [];
      calls = m.calls ++ start s true ∷ [];
    } in
    let off = call (start s false) m in
    elim (Bool-cases (starts s)) [
      | inl e ↦ rw e (start_each-calls starts todo on ∙ simp (append_assoc))
      | inr e ↦ rw e (
          stop_all-calls (stop_all off)
          ∙ simp (stop_all-calls off, stop_all-services off, append_assoc, append-nil))
    ]

start_one-calls :
    (starts : Service → Bool) (name : Service)
    → (stop_all (start_one starts name new_manager).0).calls
      ≡ connect ∷ map started (started_of starts (name ∷ []))
        ++ ending (started_of starts (name ∷ [])) (failing_of starts (name ∷ []))
unfolding start_one new_manager started_of failing_of stop_one stop_named
start_one-calls starts name = elim (Bool-cases (starts name)) [
  | inl e ↦ rw e (unfold stop_all stop_each in refl)
  | inr e ↦ rw e (unfold stop_all stop_each in refl)
]

-- Whatever the type of service, the run connects to the cache, starts the services of this type up to the first that
-- fails, and stops those that it started in the reverse order, before it disconnects. If one failed, all are stopped a
-- second time.
pub main-calls :
    (starts : Service → Bool) (service_type : ServiceType)
    → (main starts service_type).calls
      ≡ connect ∷ map started (started_of starts (services_to_start service_type))
        ++ ending
            (started_of starts (services_to_start service_type))
            (failing_of starts (services_to_start service_type))
unfolding main run_services start_all new_manager services_to_start
main-calls starts unset =
    start_each-calls starts (scraper ∷ publisher ∷ bot ∷ [])
      (record { services = []; calls = connect ∷ [] })
main-calls starts (only name) = start_one-calls starts name
main-calls starts another =
    start_each-calls starts [] (record { services = []; calls = connect ∷ [] })
