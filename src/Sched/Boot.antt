-- ===== src/Sched/Boot.antt =====
-- The start-up of kernel/core/scheduler.c.
use clks.Base.{
  ℕ, ◌*◌, ◌≡◌, refl, arith, Bool, true, false, not, Option, none, some, if◌then◌else◌, Array,
  find_index, subst, sym, ap, ◌∙◌,
}
use clks.Sched.{Sched, is_running, is_unused, state_runnable, put_task}
use clks.Sched.Table.{
  Allocator, initial_capacity, descriptor_size, grow, reserve_tasks, append_slot,
  find_free_task_slot, new_task, add_task_internal, reset, run_idle, start_idle, init,
}
use clks.Sched.Invariant.{IsValid, used_count}

module _ (mem : Allocator) where
  open mem use {Store, alloc, free}

  -- The store once the old table is released.
  abbrev pub released : Sched → Store → Store
  released s h = elim s.table [ none ↦ h | some old ↦ free (some old) h ]

  -- What start-up promises, by the answer of the allocator.
  abbrev pub Started : Option ℕ → Sched → Type 0
  Started none s = s ≡ reset
  Started (some p) s =
      IsValid s × (s.online ≡ true) × (s.live_count ≡ 1) × (is_running (s.tasks 0).state ≡ true)

  -- The empty table with its memory, and the same with the idle task in it.
  abbrev fresh : ℕ → Sched
  fresh p = record reset { table = some p; capacity = initial_capacity }

  abbrev with_idle : ℕ → Array ℕ → Sched
  with_idle p name =
      put_task 0 (new_task 0 name 1 none) (record (fresh p) { task_count = 1; live_count = 1 })

  reserve_tasks-reset :
      (h : Store)
      → reserve_tasks mem initial_capacity reset h
        ≡ elim (alloc (initial_capacity * descriptor_size) h).0 [
          | none ↦ (false, reset, (alloc (initial_capacity * descriptor_size) h).1)
          | some p ↦ (true, fresh p, (alloc (initial_capacity * descriptor_size) h).1)
        ]
  unfolding reserve_tasks grow
  reserve_tasks-reset h = refl

  add_idle :
      (p : ℕ) (name : Array ℕ) (h : Store)
      → add_task_internal mem (some name) 1 none true (fresh p) h ≡ (some 0, with_idle p name, h)
  unfolding add_task_internal find_free_task_slot append_slot reserve_tasks find_index
  add_idle p name h = refl

  started : (p : ℕ) (name : Array ℕ) → Started (some p) (run_idle (with_idle p name))
  unfolding run_idle put_task new_task is_running state_runnable is_unused used_count
  started p name = (
    record {
      allocated = λ e. cc;
      fits = omega arith;
      current_in = omega arith;
      current_used = refl;
      idle = refl;
      each = λ j lt. ground arith;
      counted = refl;
    },
    refl,
    refl,
    refl,
  )

  start_idle-fresh :
      (p : ℕ) (name : Array ℕ) (h : Store)
      → start_idle mem name (fresh p) h ≡ (run_idle (with_idle p name), h)
  unfolding start_idle
  start_idle-fresh p name h =
      ap
        (λ (r : Option ℕ × Sched × Store). elim r.0 as (λ _. Sched × Store) [
          | none ↦ (r.1, r.2)
          | some _ ↦ (run_idle r.1, r.2)
        ])
        (add_idle p name h)

  -- What `init` makes of the reserved table.
  abbrev boot : Array ℕ → Bool × Sched × Store → Sched × Store
  boot name r = if not r.0 then (r.1, r.2) else start_idle mem name r.1 r.2

  -- After `clks_scheduler_init` either the allocator has refused the table, and everything is reset, or
  -- the table is valid and holds the idle task alone, which is running, and the scheduler is online.
  pub init-Started :
      (idle_name : Array ℕ) (s : Sched) (h : Store)
      → Started
          (alloc (initial_capacity * descriptor_size) (released s h)).0
          (init mem idle_name s h).0
  unfolding init
  init-Started idle_name s h =
      by_answer (alloc (initial_capacity * descriptor_size) (released s h)) refl
    where
      by_answer :
          (r : Option ℕ × Store)
          → alloc (initial_capacity * descriptor_size) (released s h) ≡ r
          → Started r.0 (init mem idle_name s h).0
      by_answer (none, h') e =
          let answer : reserve_tasks mem initial_capacity reset (released s h)
              ≡ (false, reset, h') =
            rw (reserve_tasks-reset (released s h), e)
              (ap (λ (r : Option ℕ × Store). (false, reset, r.1)) e) in
          ap (λ r. (boot idle_name r).0) answer
      by_answer (some p, h') e =
          let answer : reserve_tasks mem initial_capacity reset (released s h)
              ≡ (true, fresh p, h') =
            rw (reserve_tasks-reset (released s h), e)
              (ap (λ (r : Option ℕ × Store). (true, fresh p, r.1)) e) in
          subst (λ x. Started (some p) x.0)
            (sym (ap (boot idle_name) answer ∙ start_idle-fresh p idle_name h'))
            (started p idle_name)
