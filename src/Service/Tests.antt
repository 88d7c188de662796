-- ===== src/Service/Tests.antt =====
-- Runs of kernel/core/service.c, and its theorems at concrete inputs.
use clks.Base.{ℕ, ◌≡◌, ◌≢◌, arith, true, false, none, some, ◌⊎◌, if◌then◌else◌, add64, update}
use clks.Service.{Service, Registry, ready, zero_service, is_offline, heartbeat, get}
use clks.Service.Table.{IsRegistry, heartbeat_lem}

abbrev one_service : Registry
one_service = record {
  services = update (λ _. zero_service) 0 (record zero_service { id = 3 });
  used = 1;
}

one_service-IsRegistry : IsRegistry one_service
one_service-IsRegistry = record { room = omega arith; distinct = λ i j p q e. omega arith }

heartbeat_lem_example :
    ((get 3 one_service ≡ none) × (heartbeat 3 50 one_service ≡ (false, one_service)))
    ⊎ ((t : Service) × (get 3 one_service ≡ some t)
        × ((heartbeat 3 50 one_service).0 ≡ true)
        × (get 3 (heartbeat 3 50 one_service).1
            ≡ some (record t {
              heartbeat_count = add64 t.heartbeat_count 1;
              last_heartbeat_tick = 50;
              state = if is_offline t.state then ready else t.state;
            }))
        × ((other : ℕ)
            → other ≢ 3
            → get other (heartbeat 3 50 one_service).1 ≡ get other one_service)
        × IsRegistry (heartbeat 3 50 one_service).1)
heartbeat_lem_example = heartbeat_lem 3 50 one_service one_service-IsRegistry
