-- ===== src/Service.antt =====
-- kernel/core/service.c and include/clks/service.h: the table of kernel services and their heartbeats.
-- What start-up asks of the other parts (the size of the heap, whether the file system and the shell
-- are ready, the number of drivers) are arguments; the lines it logs are not modelled.
mod Table
mod Counts
mod Tests
use clks.Base.{
  ℕ, zero, suc, ◌+◌, ◌-◌, ◌%◌, ◌^◌, Bool, true, false, ◌&&◌, not, Option, none, some, List, [], ◌∷◌,
  ltb, leb, ◌==◌, if◌then◌else◌, add64, Array, update, find_index,
}
use clks.Base.CString.{copy_text, text}

-- CLKS_SERVICE_MAX
abbrev pub service_max : ℕ
service_max = 8

-- CLKS_SERVICE_NAME_MAX
abbrev pub name_max : ℕ
name_max = 24

-- `enum clks_service_state`
pub data ServiceState : Type 0 where
  offline ready degraded : ServiceState

-- `struct clks_service_info`
pub record Service : Type 0 where
  pub id : ℕ
  pub name : Array ℕ
  pub state : ServiceState
  pub heartbeat_count : ℕ
  pub last_heartbeat_tick : ℕ

-- The file's static state.
pub record Registry : Type 0 where
  pub services : Array Service
  pub used : ℕ

-- A slot after `clks_memset(..., 0, ...)`.
abbrev pub zero_service : Service
zero_service = record {
  id = 0;
  name = λ _. 0;
  state = offline;
  heartbeat_count = 0;
  last_heartbeat_tick = 0;
}

pub is_offline : ServiceState → Bool
is_offline offline = true
is_offline _ = false

pub is_ready : ServiceState → Bool
is_ready ready = true
is_ready _ = false

-- The index -1 is `none`.
pub service_index : ℕ → Registry → Option ℕ
service_index service_id r = find_index (λ i. (r.services i).id == service_id) r.used 0

-- `src` is not null.
pub copy_name : Array ℕ → ℕ → Array ℕ → Array ℕ
copy_name dst dst_size src = if dst_size == 0 then dst else copy_text (dst_size - 1) 0 src dst

pub register : ℕ → Array ℕ → ServiceState → Registry → Bool × Registry
register id name state r = if leb service_max r.used then (false, r) else (
  true,
  record {
    services =
        update r.services r.used
          (record zero_service { id = id; name = copy_name (λ _. 0) name_max name; state = state });
    used = add64 r.used 1;
  },
)

-- The state of a service that depends on another part.
pub state_if : Bool → ServiceState
state_if working = if working then ready else degraded

-- The services in the order of start-up: "log", "memory", "filesystem", "driver", "scheduler",
-- "userland".
pub init : ℕ → Bool → ℕ → Bool → Registry
unfolding register state_if
init total_bytes fs_ready driver_count shell_ready =
    let r₀ : Registry = record { services = λ _. zero_service; used = 0 } in
    let (_, r₁) = register 1 (text (108 ∷ 111 ∷ 103 ∷ [])) ready r₀ in
    let (_, r₂) =
      register 2 (text (109 ∷ 101 ∷ 109 ∷ 111 ∷ 114 ∷ 121 ∷ [])) (state_if (ltb 0 total_bytes))
        r₁ in
    let (_, r₃) =
      register 3 (text (102 ∷ 105 ∷ 108 ∷ 101 ∷ 115 ∷ 121 ∷ 115 ∷ 116 ∷ 101 ∷ 109 ∷ []))
        (state_if fs_ready) r₂ in
    let (_, r₄) =
      register 4 (text (100 ∷ 114 ∷ 105 ∷ 118 ∷ 101 ∷ 114 ∷ [])) (state_if (ltb 0 driver_count))
        r₃ in
    let (_, r₅) =
      register 5 (text (115 ∷ 99 ∷ 104 ∷ 101 ∷ 100 ∷ 117 ∷ 108 ∷ 101 ∷ 114 ∷ [])) ready r₄ in
    let (_, r₆) =
      register 7 (text (117 ∷ 115 ∷ 101 ∷ 114 ∷ 108 ∷ 97 ∷ 110 ∷ 100 ∷ [])) (state_if shell_ready)
        r₅ in
    r₆

-- A service that has given a sign of life.
pub beaten : ℕ → Service → Service
unfolding is_offline
beaten tick service = record service {
  heartbeat_count = add64 service.heartbeat_count 1;
  last_heartbeat_tick = tick;
  state = if is_offline service.state then ready else service.state;
}

pub heartbeat : ℕ → ℕ → Registry → Bool × Registry
unfolding beaten
heartbeat service_id tick r = elim (service_index service_id r) [
  | none ↦ (false, r)
  | some idx ↦ (true, record r { services = update r.services idx (beaten tick (r.services idx)) })
]

-- `clks_service_count`
pub service_count : Registry → ℕ
service_count r = r.used

-- The loop of `clks_service_ready_count` over the first slots.
pub count_ready : ℕ → Array Service → ℕ
unfolding is_ready
count_ready zero services = 0
count_ready (suc n) services =
    let ready' = count_ready n services in
    if is_ready (services n).state then add64 ready' 1 else ready'

pub ready_count : Registry → ℕ
ready_count r = count_ready r.used r.services

-- What is stored through `out_info`, where the C function returns true.
pub get : ℕ → Registry → Option Service
get service_id r = elim (service_index service_id r) [
  | none ↦ none
  | some idx ↦ some (r.services idx)
]
