-- ===== src/Sched/Running.antt =====
-- Running tasks in kernel/core/scheduler.c keeps the table valid.
use clks.Base.{
  ℕ, zero, suc, ◌+◌, ◌-◌, ◌%◌, ◌≤◌, ◌<◌, ◌≡◌, refl, arith, true, false, ◌&&◌, not, ◌||◌, Option,
  none, some, ltb, leb, ◌==◌, if◌then◌else◌, add32, u32_mod, update, sym, if_elim, inl, inr,
  Bool-cases,
}
use clks.Sched.{
  running, Task, Sched, is_running, is_ready, is_unused, state_runnable, task_runnable,
}
use clks.Sched.Switch.{wake_sleepers, maybe_reschedule, demote, promote, switch_to}
use clks.Sched.Dispatch.{
  same_table, enter_task, leave_task, run_task, dispatch_current, dispatch_ready, ready_loop,
  dispatch_budget,
}
use clks.Sched.Invariant.{IsTable, IsValid, put-IsTable}
use clks.Sched.Switching.{switch_to-IsValid, maybe_reschedule-IsValid, wake_sleepers-IsValid}

-- A switch to a task of the table makes it the current one.
switch_to-current : (next : ℕ) (s : Sched) → next < s.task_count → (switch_to next s).current ≡ next
unfolding switch_to promote
switch_to-current next s lt = ground arith

task_count-switch_to : (next : ℕ) (s : Sched) → (switch_to next s).task_count ≡ s.task_count
unfolding switch_to promote demote
task_count-switch_to next s = ground arith

switch_to-used :
    (next : ℕ) (s : Sched)
    → is_unused (s.tasks next).state ≡ false
    → is_unused ((switch_to next s).tasks next).state ≡ false
unfolding switch_to promote demote is_unused
switch_to-used next s u = ground arith

-- Writing "running" into the current task.
mark_running-IsTable :
    (i runs tick : ℕ) (s : Sched)
    → IsValid s
    → s.current ≡ i
    → is_unused (s.tasks i).state ≡ false
    → IsTable s.table
        (update s.tasks i
          (record (s.tasks i) { state = running; run_count = runs; last_run_tick = tick }))
        s.task_count
        s.live_count
        s.capacity
        s.current
unfolding is_unused is_running state_runnable
mark_running-IsTable i runs tick s v here used =
    put-IsTable i _ v lt (ground (arith, v.each i lt)) (sym used) (λ _. refl)
  where
    lt : i < s.task_count
    lt = omega (arith, v.current_in)

pub enter_task-IsValid :
    (i tick : ℕ) (s : Sched)
    → IsValid s
    → i < s.task_count
    → task_runnable (s.tasks i) ≡ true
    → IsValid (enter_task i tick s) × (s.task_count ≤ (enter_task i tick s).task_count)
unfolding enter_task
enter_task-IsValid i tick s v lt runs = elim (Bool-cases (is_ready (s.tasks i).state)) [
  | inl e ↦
      let used = runnable_used (s.tasks i) runs in
      rw e (
        mark_running-IsTable i _ tick (switch_to i s) (switch_to-IsValid i s v used)
            (switch_to-current i s lt) (switch_to-used i s used),
        omega (arith, task_count-switch_to i s),
      )
  | inr e ↦ rw e (
    mark_running-IsTable i _ tick s v (sym ((v.each i lt).alone (not_ready (s.tasks i) runs e)))
        (runnable_used (s.tasks i) runs),
    omega arith,
  )
]
  where
    runnable_used : (t : Task) → task_runnable t ≡ true → is_unused t.state ≡ false
    runnable_used t h = unfold task_runnable state_runnable is_unused in ground arith

    not_ready :
        (t : Task) → task_runnable t ≡ true → is_ready t.state ≡ false → is_running t.state ≡ true
    not_ready t h e = unfold task_runnable state_runnable is_ready is_running in ground arith

-- After the entry point returns.
pub leave_task-IsValid :
    (i : ℕ) (old : Option ℕ) (s : Sched)
    → IsValid s
    → i < s.task_count
    → IsValid (leave_task i old s)
unfolding leave_task is_unused is_running state_runnable
leave_task-IsValid i old s v lt = maybe_reschedule-IsValid _ (
    if_elim IsValid (same_table old s.table && is_running (s.tasks i).state)
      (λ run. put-IsTable i _ v lt (ground (arith, v.each i lt)) (ground arith) (λ _. refl))
      (λ _. v))

module _ (call : ℕ → ℕ → Sched → Sched)
    (call-IsValid : (entry tick : ℕ) (s : Sched)
      → IsValid s
      → IsValid (call entry tick s) × (s.task_count ≤ (call entry tick s).task_count)) where
  run_task-IsValid : (i tick : ℕ) (s : Sched) → IsValid s → IsValid (run_task call i tick s)
  unfolding run_task
  run_task-IsValid i tick s v = at_entry (s.tasks i).entry
    where
      at_entry :
          (o : Option ℕ)
          → IsValid (elim o [
            | none ↦ s
            | some entry ↦
                if leb s.task_count i
                then s
                else if not (task_runnable (s.tasks i))
                then s
                else leave_task i
                    (enter_task i tick s).table
                    (call entry tick (enter_task i tick s))
          ])
      at_entry none = v
      at_entry (some entry) =
          if_elim IsValid (leb s.task_count i) (λ _. v)
            (λ inside.
              if_elim IsValid (not (task_runnable (s.tasks i))) (λ _. v)
                (λ runs.
                  let (entered, grown) =
                    enter_task-IsValid i tick s v (ground arith) (ground arith) in
                  let (called, kept) = call-IsValid entry tick (enter_task i tick s) entered in
                  leave_task-IsValid i (enter_task i tick s).table _ called (ground arith)))

  -- Running the current task.
  pub dispatch_current-IsValid :
      (tick : ℕ) (s : Sched) → IsValid s → IsValid (dispatch_current call tick s)
  unfolding dispatch_current
  dispatch_current-IsValid tick s v =
      if_elim IsValid (s.task_count == 0 || s.dispatch_active) (λ _. v)
        (λ _.
          run_task-IsValid (maybe_reschedule (wake_sleepers tick s)).current tick _
            (maybe_reschedule-IsValid _ (wake_sleepers-IsValid tick s v)))

  ready_loop-IsValid :
      (fuel i budget tick : ℕ) (s : Sched)
      → IsValid s
      → IsValid (ready_loop call fuel i budget tick s).1
  unfolding ready_loop
  ready_loop-IsValid zero i budget tick s v = v
  ready_loop-IsValid (suc fuel) i budget tick s v =
      if_elim Keeps (ltb i s.task_count && ltb 0 budget)
        (λ _.
          if_elim Keeps (idx == 0) (λ _. ready_loop-IsValid fuel (i + 1) budget tick s v)
            (λ _.
              if_elim Keeps (not (task_runnable (s.tasks idx)))
                (λ _. ready_loop-IsValid fuel (i + 1) budget tick s v)
                (λ _.
                  ready_loop-IsValid fuel (i + 1) (budget - 1) tick (run_task call idx tick s)
                    (run_task-IsValid idx tick s v))))
        (λ _. v)
    where
      idx : ℕ
      idx = add32 s.current i % s.task_count

      Keeps : ℕ × Sched → Type 0
      Keeps r = IsValid r.1

  -- Running the ready tasks keeps a valid table valid, if what each entry point does keeps it
  -- valid and does not shrink the table.
  pub dispatch_ready-IsValid :
      (tick : ℕ) (s : Sched) → IsValid s → IsValid (dispatch_ready call tick s)
  unfolding dispatch_ready
  dispatch_ready-IsValid tick s v =
      let looped = ready_loop call u32_mod 0 dispatch_budget tick (wake_sleepers tick s) in
      let w : IsValid looped.1 =
        ready_loop-IsValid u32_mod 0 dispatch_budget tick (wake_sleepers tick s)
          (wake_sleepers-IsValid tick s v) in
      if_elim IsValid (s.task_count == 0 || s.dispatch_active) (λ _. v)
        (λ _.
          if_elim IsValid (looped.0 == dispatch_budget)
            (λ _. dispatch_current-IsValid tick looped.1 w) (λ _. w))
