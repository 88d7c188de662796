-- ===== src/Sched/Dispatch.antt =====
-- kernel/core/scheduler.c: running tasks. What a task does when its entry point is called is outside
-- this file: the argument `call entry tick` is what it does to the scheduler.
use clks.Base.{
  ℕ, zero, suc, ◌+◌, ◌-◌, ◌%◌, Bool, true, false, ◌&&◌, not, ◌||◌, Option, none, some, ltb, leb,
  ◌==◌, if◌then◌else◌, add32, add64, u32_mod,
}
use clks.Sched.{ready, running, Sched, is_ready, is_running, task_runnable, put_task}
use clks.Sched.Switch.{switch_to, maybe_reschedule, wake_sleepers}

-- CLKS_SCHED_DEFAULT_DISPATCH_BUDGET
abbrev pub dispatch_budget : ℕ
dispatch_budget = 32

-- Equality of table pointers.
unfoldable pub same_table : Option ℕ → Option ℕ → Bool
same_table none none = true
same_table (some a) (some b) = a == b
same_table _ _ = false

-- `clks_sched_run_task` up to the call of the entry point.
unfoldable pub enter_task : ℕ → ℕ → Sched → Sched
unfolding put_task is_ready
enter_task task_id tick s =
    let s₁ : Sched = if is_ready (s.tasks task_id).state then switch_to task_id s else s in
    let task = s₁.tasks task_id in
    put_task task_id
      (record task { state = running; run_count = add64 task.run_count 1; last_run_tick = tick })
      (record s₁ { dispatch_active = true })

-- From the return of the entry point on. The pointer `task` was taken before the call: if the
-- call has moved the table, the write goes to the old one.
unfoldable pub leave_task : ℕ → Option ℕ → Sched → Sched
unfolding put_task is_running same_table
leave_task task_id old_table s =
    let s₁ = record s { dispatch_active = false } in
    let task = s₁.tasks task_id in
    let s₂ : Sched =
      if same_table old_table s₁.table && is_running task.state
      then put_task task_id (record task { state = ready }) s₁
      else s₁ in
    maybe_reschedule s₂

module _ (call : ℕ → ℕ → Sched → Sched) where
  unfoldable pub run_task : ℕ → ℕ → Sched → Sched
  run_task task_id tick s = elim (s.tasks task_id).entry [
    | none ↦ s
    | some entry ↦
        let s₁ = enter_task task_id tick s in
        if leb s.task_count task_id
        then s
        else if not (task_runnable (s.tasks task_id))
        then s
        else leave_task task_id s₁.table (call entry tick s₁)
  ]

  unfoldable pub dispatch_current : ℕ → Sched → Sched
  dispatch_current tick s =
      let s₁ = maybe_reschedule (wake_sleepers tick s) in
      if s.task_count == 0 || s.dispatch_active then s else run_task s₁.current tick s₁

  -- The loop of `clks_scheduler_dispatch_ready`, on fuel, with the budget that is left.
  unfoldable pub ready_loop : ℕ → ℕ → ℕ → ℕ → Sched → ℕ × Sched
  ready_loop zero i budget tick s = (budget, s)
  ready_loop (suc fuel) i budget tick s =
      let idx = add32 s.current i % s.task_count in
      let skip = ready_loop fuel (i + 1) budget tick s in
      let run = ready_loop fuel (i + 1) (budget - 1) tick (run_task idx tick s) in
      if ltb i s.task_count && ltb 0 budget
      then if idx == 0 then skip else if not (task_runnable (s.tasks idx)) then skip else run
      else (budget, s)

  -- The index of the loop is a `u32` below the number of tasks.
  unfoldable pub dispatch_ready : ℕ → Sched → Sched
  dispatch_ready tick s =
      let (budget, s₁) = ready_loop u32_mod 0 dispatch_budget tick (wake_sleepers tick s) in
      if s.task_count == 0 || s.dispatch_active
      then s
      else if budget == dispatch_budget
      then dispatch_current tick s₁
      else s₁
