-- ===== src/Service/Counts.antt =====
-- The count of ready services in kernel/core/service.c.
use clks.Base.{
  ℕ, zero, suc, ◌+◌, ◌≤◌, ◌<◌, ◌≡◌, refl, arith, Bool, true, false, none, some, if◌then◌else◌,
  Array, update, dec_lt, inl, inr, u64_mod,
}
use clks.Service.{
  Service, Registry, is_offline, is_ready, beaten, heartbeat, count_ready, ready_count, get,
}
use clks.Service.Table.{IsRegistry, service_index_lem, get-some, get-none}

abbrev pub as_number : Bool → ℕ
as_number b = if b then 1 else 0

count_ready-le : (n : ℕ) (services : Array Service) → n < u64_mod → count_ready n services ≤ n
unfolding count_ready
count_ready-le zero services h = omega arith
count_ready-le (suc n) services h = ground (arith, count_ready-le n services (omega arith))

count_ready-update_above :
    (n i : ℕ) (services : Array Service) (t : Service)
    → n ≤ i
    → count_ready n (update services i t) ≡ count_ready n services
unfolding count_ready
count_ready-update_above zero i services t h = refl
count_ready-update_above (suc n) i services t h =
    ground (arith, count_ready-update_above n i services t (omega arith))

-- Writing one of the first slots changes the count by what the slot was and is.
count_ready-update :
    (n i : ℕ) (services : Array Service) (t : Service)
    → i < n
    → n < u64_mod
    → count_ready n (update services i t) + as_number (is_ready (services i).state)
      ≡ count_ready n services + as_number (is_ready t.state)
unfolding count_ready
count_ready-update zero i services t lt h = absurd (omega arith)
count_ready-update (suc n) i services t lt h =
    let below = count_ready-le n services (omega arith) in
    let below' = count_ready-le n (update services i t) (omega arith) in
    elim (dec_lt i n) [
      | yes inner ↦ ground (arith, count_ready-update n i services t inner (omega arith))
      | no last ↦ ground (arith, count_ready-update_above n i services t (omega arith))
    ]

-- A heartbeat makes one more service ready exactly if it is that of an offline one; it never makes one
-- less.
pub ready_count-heartbeat :
    (id tick : ℕ) (r : Registry)
    → IsRegistry r
    → ready_count (heartbeat id tick r).1
      ≡ ready_count r + elim (get id r) [ none ↦ 0 | some t ↦ as_number (is_offline t.state) ]
unfolding ready_count beaten is_ready is_offline
ready_count-heartbeat id tick r v = elim (service_index_lem id r) [
  | inl (e, _) ↦
      let beat : heartbeat id tick r ≡ (false, r) = unfold heartbeat in ground arith in
      rw (beat, get-none id r e) (omega arith)
  | inr (i, e, lt, _) ↦
      let t : Service = beaten tick (r.services i) in
      let beat : heartbeat id tick r ≡ (true, record r { services = update r.services i t }) =
        unfold heartbeat in ground arith in
      rw (beat, get-some id i r e)
        (ground
          (arith, v.room, count_ready-update r.used i r.services t lt (omega (arith, v.room))))
]
