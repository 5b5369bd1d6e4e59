-- ===== src/Services/Manager.antt =====
-- services/main.py: the order in which services are started and stopped. What happens outside is a list of calls; whether
-- a start succeeds is a parameter. The failure of a stop is caught, so that it changes nothing in the order of the calls.
pub mod Laws
use config_manager.Prelude.{ℕ, Bool, true, false, ◌||◌, List, [], ◌∷◌, ◌++◌, nat_beq, if◌then◌else◌}
use mathlib.Core.List.{reverse}

pub data Service : Type 0 where
  bot scraper publisher : Service

-- the variable SERVICE_TYPE, if it is set
pub data ServiceType : Type 0 where
  unset : ServiceType
  only : Service → ServiceType
  another : ServiceType

-- What is called, and, of a start, whether it succeeded.
pub data Call : Type 0 where
  connect disconnect : Call
  start : Service → Bool → Call
  stop : Service → Call

-- `self.services`, and the calls so far, the first one first.
pub record ServiceManager : Type 0 where
  pub services : List Service
  pub calls : List Call

unfoldable pub same_service : Service → Service → Bool
same_service bot bot = true
same_service bot scraper = false
same_service bot publisher = false
same_service scraper bot = false
same_service scraper scraper = true
same_service scraper publisher = false
same_service publisher bot = false
same_service publisher scraper = false
same_service publisher publisher = true

abbrev pub call : Call → ServiceManager → ServiceManager
call c m = record { services = m.services; calls = m.calls ++ c ∷ [] }

-- the loop of `stop_all`
unfoldable pub stop_each : List Service → ServiceManager → ServiceManager
stop_each [] m = m
stop_each (s ∷ services) m = stop_each services (call (stop s) m)

unfoldable pub stop_all : ServiceManager → ServiceManager
unfolding stop_each
stop_all m = call disconnect (stop_each (reverse m.services) m)

-- `stop_bot`, `stop_scraper` and `stop_publisher`: the last service of this name is stopped.
unfoldable pub stop_named : Service → List Service → ServiceManager → ServiceManager
unfolding same_service
stop_named name [] m = call disconnect m
stop_named name (s ∷ services) m =
    if same_service s name then call disconnect (call (stop s) m) else stop_named name services m

unfoldable pub stop_one : Service → ServiceManager → ServiceManager
unfolding stop_named
stop_one name m = stop_named name (reverse m.services) m

-- How a method ends: by `sys.exit(1)`, or it waits until a signal comes.
pub data MethodEnd : Type 0 where
  exits waits : MethodEnd

-- `start_bot`, `start_scraper` and `start_publisher`
unfoldable pub start_one : (Service → Bool) → Service → ServiceManager → ServiceManager × MethodEnd
unfolding stop_one
start_one starts name m =
    let connected = call connect m in
    if starts name
    then (
      record {
        services = m.services ++ name ∷ [];
        calls = connected.calls ++ start name true ∷ [];
      },
      waits,
    )
    else (stop_one name (call (start name false) connected), exits)

unfoldable pub services_to_start : ServiceType → List Service
services_to_start unset = scraper ∷ publisher ∷ bot ∷ []
services_to_start (only s) = s ∷ []
services_to_start another = []

-- the loop of `start_all`
unfoldable pub start_each :
    (Service → Bool) → List Service → ServiceManager → ServiceManager × MethodEnd
unfolding stop_all
start_each starts [] m = (m, waits)
start_each starts (s ∷ services) m =
    let rest =
      start_each starts services
        (record { services = m.services ++ s ∷ []; calls = m.calls ++ start s true ∷ [] }) in
    if starts s then rest else (stop_all (call (start s false) m), exits)

unfoldable pub start_all :
    (Service → Bool) → ServiceType → ServiceManager → ServiceManager × MethodEnd
unfolding start_each services_to_start
start_all starts service_type m =
    start_each starts (services_to_start service_type) (call connect m)

unfoldable pub new_manager : ServiceManager
new_manager = record { services = []; calls = [] }

-- `main`: `finally` stops everything when the method has ended, by itself or by an interrupt while it waits.
unfoldable pub run_services : (Service → Bool) → ServiceType → ServiceManager × MethodEnd
unfolding start_one start_all new_manager
run_services starts unset = start_all starts unset new_manager
run_services starts (only s) = start_one starts s new_manager
run_services starts another = start_all starts another new_manager

unfoldable pub main : (Service → Bool) → ServiceType → ServiceManager
unfolding run_services stop_all
main starts service_type = stop_all (run_services starts service_type).0
