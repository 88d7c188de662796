-- ===== src/Sched/Growth.antt =====
-- Growing the table and adding tasks in kernel/core/scheduler.c keep the table valid.
use clks.Base.{
  ℕ, zero, suc, ◌*◌, ◌/◌, ◌%◌, ◌≤◌, ◌<◌, ◌≡◌, refl, arith, Bool, true, false, none, some, leb, ◌==◌,
  if◌then◌else◌, u32_mod, u64_mod, Array, dec_lt, sym, ◌∙◌, if_elim, Option-cases, inl, inr,
}
use clks.Sched.{Task, Sched, zero_task}
use clks.Sched.Table.{
  Allocator, initial_capacity, descriptor_size, u32_max, grow, copied, reserve_tasks,
}
use clks.Sched.Invariant.{IsTable, IsValid, used_count}

-- 2 to the power of the rounds left.
abbrev pow2 : ℕ → ℕ
pow2 zero = 1
pow2 (suc n) = 2 * pow2 n

-- With enough fuel the doubling loop stops at a capacity that is large enough, and is a `u32`.
grow-fuel :
    (fuel cap min : ℕ)
    → cap < u32_mod
    → min < u32_mod
    → u32_mod ≤ cap * pow2 fuel
    → (min ≤ grow fuel cap min) × (grow fuel cap min < u32_mod)
unfolding grow
grow-fuel zero cap min h k e = omega arith
grow-fuel (suc fuel) cap min h k e = elim (dec_lt cap min) [
  | yes small ↦ elim (dec_lt (u32_max / 2) cap) [
    | yes big ↦ ground arith
    | no half ↦
        let rest = grow-fuel fuel (cap * 2) min (omega arith) k (omega arith) in
        let same : cap * 2 % u32_mod ≡ cap * 2 = omega arith in ground (arith, rest)
  ]
  | no large ↦ ground arith
]

-- The fuel of `reserve_tasks` is enough: from any non-zero 32-bit capacity, 33 rounds of the
-- loop that doubles it end with at least the 32-bit capacity that is asked for, which is still a
-- 32-bit number.
pub grow-le :
    (cap min : ℕ)
    → 0 < cap
    → cap < u32_mod
    → min < u32_mod
    → (min ≤ grow 33 cap min) × (grow 33 cap min < u32_mod)
grow-le cap min pos h k = grow-fuel 33 cap min h k (omega arith)

used_count-congr :
    (n : ℕ) (f g : Array Task) → ((i : ℕ) → i < n → g i ≡ f i) → used_count n g ≡ used_count n f
unfolding used_count
used_count-congr zero f g h = refl
used_count-congr (suc n) f g h =
    rw (h n (omega arith), used_count-congr n f g (λ i lt. h i (omega arith)))

-- A table moved to new memory.
moved-IsTable :
    (p new_capacity : ℕ) (s : Sched)
    → IsValid s
    → s.task_count ≤ new_capacity
    → new_capacity < u32_mod
    → IsTable
        (some p)
        (copied s.task_count s.tasks)
        s.task_count
        s.live_count
        new_capacity
        s.current
moved-IsTable p new_capacity s v le lt = record {
  allocated = λ e. cc;
  fits = omega (arith, v.fits);
  current_in = v.current_in;
  current_used = rw (same s.current v.current_in) v.current_used;
  idle = rw (same 0 v.fits.0) v.idle;
  each = λ i lt. rw (same i lt) (v.each i lt);
  counted =
      v.counted ∙ sym (used_count-congr s.task_count s.tasks (copied s.task_count s.tasks) same);
}
  where
    same : (i : ℕ) → i < s.task_count → copied s.task_count s.tasks i ≡ s.tasks i
    same i lt = unfold copied in ground arith

module _ (mem : Allocator) where
  open mem use {Store}

  -- A table that gets room.
  reserved-IsTable :
      (p new_capacity : ℕ) (s : Sched)
      → IsValid s
      → s.task_count ≤ new_capacity
      → new_capacity < u32_mod
      → IsTable
          (some p)
          (elim s.table [ none ↦ λ _. zero_task | some _ ↦ copied s.task_count s.tasks ])
          s.task_count
          s.live_count
          new_capacity
          s.current
  reserved-IsTable p new_capacity s v le lt = elim (Option-cases s.table) [
    | inl e ↦ absurd (v.allocated e)
    | inr (old, e) ↦ rw e (moved-IsTable p new_capacity s v le lt)
  ]

  abbrev moved : Sched → Array Task
  moved s = elim s.table [ none ↦ λ _. zero_task | some _ ↦ copied s.task_count s.tasks ]

  reserved_tasks : (s : Sched) → IsValid s → (j : ℕ) → j < s.task_count → moved s j ≡ s.tasks j
  unfolding copied
  reserved_tasks s v j lt = elim (Option-cases s.table) [
    | inl e ↦ absurd (v.allocated e)
    | inr (old, e) ↦ rw e (ground arith)
  ]

  -- What holds of the result of `reserve_tasks`.
  abbrev pub Reserved : ℕ → Sched → Bool × Sched × Store → Type 0
  Reserved min s r =
      IsValid r.1
      × (r.1.task_count ≡ s.task_count)
      × (r.1.live_count ≡ s.live_count)
      × (r.0 ≡ true → min ≤ r.1.capacity)
      × ((j : ℕ) → j < s.task_count → r.1.tasks j ≡ s.tasks j)
      × (min ≤ s.capacity → r.0 ≡ true)

  pub reserve_tasks_lem :
      (min : ℕ) (s : Sched) (h : Store)
      → IsValid s
      → s.task_count ≤ min
      → min < u32_mod
      → Reserved min s (reserve_tasks mem min s h)
  unfolding reserve_tasks
  reserve_tasks_lem min s h v le lt =
      if_elim (Reserved min s) (leb min s.capacity)
        (λ fits. (v, refl, refl, λ _. ground arith, λ j a. refl, λ _. refl))
        (λ above.
          if_elim (Reserved min s) _
            (λ _. (v, refl, refl, λ e. cc, λ j a. refl, λ c. absurd (ground arith)))
            (λ _.
              elim (mem.alloc (grow 33 first min * descriptor_size % u64_mod) h).0
                as (λ o. Reserved min s (elim o [
                  | none ↦
                      (false, s, (mem.alloc (grow 33 first min * descriptor_size % u64_mod) h).1)
                  | some p ↦ (
                    true,
                    record s {
                      table = some p;
                      tasks = elim s.table [
                        | none ↦ λ _. zero_task
                        | some _ ↦ copied s.task_count s.tasks
                      ];
                      capacity = grow 33 first min;
                    },
                    elim s.table [
                      | none ↦ (mem.alloc (grow 33 first min * descriptor_size % u64_mod) h).1
                      | some old ↦
                          mem.free (some old)
                            (mem.alloc (grow 33 first min * descriptor_size % u64_mod) h).1
                    ],
                  )
                ])) [
                  | none ↦ (v, refl, refl, λ e. cc, λ j a. refl, λ c. absurd (ground arith))
                  | some p ↦ (
                    reserved-IsTable p (grow 33 first min) s v (omega (arith, room)) room.1,
                    refl,
                    refl,
                    λ _. room.0,
                    λ j a. reserved_tasks s v j a,
                    λ _. refl,
                  )
                ]))
    where
      first : ℕ
      first = if s.capacity == 0 then initial_capacity else s.capacity

      room : (min ≤ grow 33 first min) × (grow 33 first min < u32_mod)
      room = grow-le first min (ground (arith, v.fits)) (ground (arith, v.fits)) lt
