-- ===== src/Service/Table.antt =====
-- The table of kernel/core/service.c: lookups, registration, heartbeats and counts.
use clks.Base.{
  ℕ, ◌+◌, ◌≤◌, ◌<◌, ◌≡◌, ◌≢◌, refl, arith, Bool, true, false, none, some, ◌==◌, if◌then◌else◌,
  add64, Array, update, update_self, update_ne, find_index, find_index-some, find_index-none,
  find_index_unique, ℕ_discrete, dec_lt, sym, ap, ◌∙◌, fun_ext, Option-cases, ◌⊎◌, inl, inr,
}
use clks.Service.{
  ServiceState, ready, Service, Registry, service_max, name_max, copy_name, zero_service,
  is_offline, service_index, register, init, beaten, heartbeat, get,
}

-- No two registered services have one identifier.
pub record IsRegistry (r : Registry) : Type 0 where
  pub room : r.used ≤ service_max
  pub distinct : (i j : ℕ) → i < r.used → j < r.used → (r.services i).id ≡ (r.services j).id → i ≡ j

-- The slot of an identifier is found.
pub service_index-some :
    (r : Registry) (i : ℕ) → IsRegistry r → i < r.used → service_index (r.services i).id r ≡ some i
unfolding service_index
service_index-some r i v lt =
    find_index_unique (λ k. (r.services k).id == (r.services i).id) r.used 0 i (ground arith)
      (omega arith) (omega arith) (λ k l h e. v.distinct k i (omega arith) lt (ground arith))

-- What a lookup says.
pub service_index_lem :
    (id : ℕ) (r : Registry)
    → ((service_index id r ≡ none) × ((i : ℕ) → i < r.used → (r.services i).id ≢ id))
      ⊎ ((i : ℕ) × (service_index id r ≡ some i) × (i < r.used) × ((r.services i).id ≡ id))
unfolding service_index
service_index_lem id r = elim (Option-cases (find_index (λ k. (r.services k).id == id) r.used 0)) [
  | inl e ↦ inl (
    e,
    λ i lt same.
        let miss =
          find_index-none (λ k. (r.services k).id == id) r.used 0 e i (omega arith) (omega arith) in
        ground arith,
  )
  | inr (i, e) ↦
      let (hit, l, h, _) = find_index-some (λ k. (r.services k).id == id) r.used 0 i e in
      inr (i, e, omega arith, ground arith)
]

-- A lookup by the index that is found.
pub get-some :
    (id i : ℕ) (r : Registry) → service_index id r ≡ some i → get id r ≡ some (r.services i)
unfolding get
get-some id i r e = ground arith

pub get-none : (id : ℕ) (r : Registry) → service_index id r ≡ none → get id r ≡ none
unfolding get
get-none id r e = ground arith

-- The table with one service more.
abbrev appended : Service → Registry → Registry
appended t r = record { services = update r.services r.used t; used = r.used + 1 }

appended-IsRegistry :
    (t : Service) (r : Registry)
    → IsRegistry r
    → r.used < service_max
    → ((i : ℕ) → i < r.used → (r.services i).id ≢ t.id)
    → IsRegistry (appended t r)
appended-IsRegistry t r v room fresh = record {
  room = omega arith;
  distinct = λ i j p q e. elim (ℕ_discrete i r.used) [
    | yes a ↦ elim (ℕ_discrete j r.used) [
      | yes b ↦ omega arith
      | no b ↦ absurd (fresh j (omega arith) (ground arith))
    ]
    | no a ↦ elim (ℕ_discrete j r.used) [
      | yes b ↦ absurd (fresh i (omega arith) (ground arith))
      | no b ↦ v.distinct i j (omega arith) (omega arith) (ground arith)
    ]
  ];
}

-- Registration with a new identifier: a full table refuses and stays as it is; otherwise the service is
-- found with its state and no heartbeat, every other service is as it was, and no identifier is
-- double.
pub register_lem :
    (id : ℕ) (name : Array ℕ) (state : ServiceState) (r : Registry)
    → IsRegistry r
    → service_index id r ≡ none
    → ((service_max ≤ r.used) × (register id name state r ≡ (false, r)))
      ⊎ (let r' = (register id name state r).1 in
          (r.used < service_max)
          × ((register id name state r).0 ≡ true)
          × (get id r'
              ≡ some (record zero_service {
                id = id;
                name = copy_name (λ _. 0) name_max name;
                state = state;
              }))
          × ((i : ℕ) → i < r.used → r'.services i ≡ r.services i)
          × IsRegistry r')
unfolding get
register_lem id name state r v fresh = elim (dec_lt r.used service_max) [
  | no full ↦ inl (omega arith, unfold register in ground arith)
  | yes room ↦
      let t : Service = record zero_service {
        id = id;
        name = copy_name (λ _. 0) name_max name;
        state = state;
      } in
      let same : register id name state r ≡ (true, appended t r) =
        unfold register in ground arith in
      let v' : IsRegistry (appended t r) = appended-IsRegistry t r v room (unused fresh) in
      inr (
        rw same (
          room,
          refl,
          get-some id r.used (appended t r) (
                ap (λ (s : Service). service_index s.id (appended t r))
                  (sym (update_self r.services r.used t))
                ∙ service_index-some (appended t r) r.used v' (omega arith))
              ∙ ap some (update_self r.services r.used t),
          λ i lt. update_ne r.services r.used i t (omega arith),
          v',
        ))
]
  where
    unused : service_index id r ≡ none → (i : ℕ) → i < r.used → (r.services i).id ≢ id
    unused e i lt same = elim (service_index_lem id r) [
      | inl (_, out) ↦ out i lt same
      | inr (k, found, _, _) ↦ cc (e, found)
    ]

-- Start-up, whatever the state of the other parts: six services, no identifier double.
pub init-IsRegistry :
    (total_bytes drivers : ℕ) (fs shell : Bool)
    → IsRegistry (init total_bytes fs drivers shell)
      × ((init total_bytes fs drivers shell).used ≡ 6)
unfolding init register
init-IsRegistry total_bytes drivers fs shell =
    (record { room = omega arith; distinct = λ i j p q e. ground arith }, refl)

-- Writing a slot with a service of the same identifier.
kept-IsRegistry :
    (i : ℕ) (t : Service) (r : Registry)
    → IsRegistry r
    → (r.services i).id ≡ t.id
    → IsRegistry (record r { services = update r.services i t })
kept-IsRegistry i t r v same = record {
  room = v.room;
  distinct = λ a b p q e. v.distinct a b p q (sym (ids a) ∙ e ∙ ids b);
}
  where
    ids : (a : ℕ) → (update r.services i t a).id ≡ (r.services a).id
    ids a = ground arith

-- Such a write moves no service to another slot.
service_index-kept :
    (i id : ℕ) (t : Service) (r : Registry)
    → (r.services i).id ≡ t.id
    → service_index id (record r { services = update r.services i t }) ≡ service_index id r
unfolding service_index
service_index-kept i id t r same =
    ap (λ p. find_index p r.used 0) (fun_ext (λ k. ap (λ d. d == id) (ids k)))
  where
    ids : (a : ℕ) → (update r.services i t a).id ≡ (r.services a).id
    ids a = ground arith

-- Other services are as they were.
get-kept :
    (i id other : ℕ) (t : Service) (r : Registry)
    → (r.services i).id ≡ t.id
    → t.id ≡ id
    → other ≢ id
    → get other (record r { services = update r.services i t }) ≡ get other r
get-kept i id other t r same here ne = elim (service_index_lem other r) [
  | inl (e, _) ↦
      get-none other (record r { services = update r.services i t })
        (service_index-kept i other t r same ∙ e)
      ∙ sym (get-none other r e)
  | inr (k, e, lt, at_k) ↦
      get-some other k (record r { services = update r.services i t })
        (service_index-kept i other t r same ∙ e)
      ∙ ap some (update_ne r.services i k t (λ z. ne (ground arith)))
      ∙ sym (get-some other k r e)
]

-- A heartbeat of an unknown service is refused without a change. That of a known one is counted
-- and dated, makes an offline service ready and leaves its state otherwise, changes no other
-- service, and the table stays well formed.
pub heartbeat_lem :
    (id tick : ℕ) (r : Registry)
    → IsRegistry r
    → ((get id r ≡ none) × (heartbeat id tick r ≡ (false, r)))
      ⊎ ((t : Service) × (get id r ≡ some t)
          × ((heartbeat id tick r).0 ≡ true)
          × (get id (heartbeat id tick r).1
              ≡ some (record t {
                heartbeat_count = add64 t.heartbeat_count 1;
                last_heartbeat_tick = tick;
                state = if is_offline t.state then ready else t.state;
              }))
          × ((other : ℕ) → other ≢ id → get other (heartbeat id tick r).1 ≡ get other r)
          × IsRegistry (heartbeat id tick r).1)
heartbeat_lem id tick r v = elim (service_index_lem id r) [
  | inl (e, _) ↦ inl (get-none id r e, unfold heartbeat in ground arith)
  | inr (i, e, lt, same) ↦
      let t : Service = beaten tick (r.services i) in
      let r' : Registry = record r { services = update r.services i t } in
      let beat : heartbeat id tick r ≡ (true, r') = unfold heartbeat in ground arith in
      inr (
        rw beat (
          r.services i,
          get-some id i r e,
          refl,
          get-some id i r' (service_index-kept i id t r (unfold beaten in refl) ∙ e)
              ∙ ap some (update_self r.services i t ∙ unfold beaten in refl),
          λ other ne. get-kept i id other t r (unfold beaten in refl) (unfold beaten in same) ne,
          kept-IsRegistry i t r v (unfold beaten in refl),
        ))
]
