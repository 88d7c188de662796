-- ===== src/Sched/Removal.antt =====
-- Removing a task in kernel/core/scheduler.c keeps the table valid.
use clks.Base.{
  ℕ, ◌-◌, ◌<◌, ◌≡◌, ◌≢◌, arith, false, not, ◌||◌, ltb, ◌==◌, if◌then◌else◌, sub32, update,
  update_self, update_ne, ℕ_discrete, subst, sym, if_elim,
}
use clks.Sched.{Sched, zero_task, is_running, is_unused, state_runnable, slot_used}
use clks.Sched.Table.{remove_task}
use clks.Sched.Invariant.{IsTable, IsValid, used_count-update, used_count-le}
use clks.Sched.Calls.{slot_used_lem, Keeps}

-- Clearing a used slot that is not current.
cleared-IsTable :
    (i : ℕ) (s : Sched)
    → IsValid s
    → i < s.task_count
    → is_unused (s.tasks i).state ≡ false
    → i ≢ 0
    → i ≢ s.current
    → IsTable s.table
        (update s.tasks i (record zero_task { id = i }))
        s.task_count
        (s.live_count - 1)
        s.capacity
        s.current
unfolding is_unused is_running
cleared-IsTable i s v lt u nz ne = record {
  allocated = v.allocated;
  fits = v.fits;
  current_in = v.current_in;
  current_used = ground (arith, v.current_used);
  idle = ground (arith, v.idle);
  each = λ j lt'. elim (ℕ_discrete j i) [
    | yes e ↦ rw (e, update_self s.tasks i (record zero_task { id = i })) (ground arith)
    | no other ↦ rw (update_ne s.tasks i j (record zero_task { id = i }) other) (v.each j lt')
  ];
  counted =
      ground (
        arith,
        v.counted,
        used_count-update s.task_count i s.tasks (record zero_task { id = i }) lt,
      );
}

-- Clearing the current slot makes the idle task current.
cleared_current-IsTable :
    (s : Sched)
    → IsValid s
    → s.current ≢ 0
    → IsTable s.table
        (update s.tasks s.current (record zero_task { id = s.current }))
        s.task_count
        (s.live_count - 1)
        s.capacity
        0
unfolding is_unused is_running state_runnable
cleared_current-IsTable s v nz = record {
  allocated = v.allocated;
  fits = v.fits;
  current_in = omega (arith, v.fits);
  current_used = ground (arith, v.idle);
  idle = ground (arith, v.idle);
  each = λ j lt'. elim (ℕ_discrete j s.current) [
    | yes e ↦
        rw (e, update_self s.tasks s.current (record zero_task { id = s.current })) (ground arith)
    | no other ↦
        rw (update_ne s.tasks s.current j (record zero_task { id = s.current }) other) (record {
          id = (v.each j lt').id;
          slice = (v.each j lt').slice;
          left = (v.each j lt').left;
          alone = λ r. absurd (other ((v.each j lt').alone r));
        })
  ];
  counted = ground (
    arith,
    v.counted,
    v.current_used,
    used_count-update s.task_count s.current s.tasks (record zero_task { id = s.current })
        v.current_in,
  );
}

-- What `clks_scheduler_remove_task` writes to the count and to the current task.
abbrev live_after : Sched → ℕ
live_after s = if ltb 0 s.live_count then sub32 s.live_count 1 else s.live_count

live_after_lem : (s : Sched) → IsValid s → live_after s ≡ s.live_count - 1
live_after_lem s v = ground (arith, v.counted, v.fits, used_count-le s.task_count s.tasks)

removed-IsTable :
    (i : ℕ) (s : Sched)
    → IsValid s
    → i < s.task_count
    → is_unused (s.tasks i).state ≡ false
    → i ≢ 0
    → IsTable s.table
        (update s.tasks i (record zero_task { id = i }))
        s.task_count
        (s.live_count - 1)
        s.capacity
        (if s.current == i then 0 else s.current)
removed-IsTable i s v lt u nz = elim (ℕ_discrete s.current i) [
  | yes e ↦
      subst
        (λ c.
          IsTable s.table (update s.tasks i (record zero_task { id = i })) s.task_count
            (s.live_count - 1) s.capacity c)
        (sym (at_current e))
        (subst
          (λ k.
            IsTable s.table (update s.tasks k (record zero_task { id = k })) s.task_count
              (s.live_count - 1) s.capacity 0)
          e (cleared_current-IsTable s v (omega arith)))
  | no ne ↦
      subst
        (λ c.
          IsTable s.table (update s.tasks i (record zero_task { id = i })) s.task_count
            (s.live_count - 1) s.capacity c)
        (sym (elsewhere ne)) (cleared-IsTable i s v lt u nz (omega arith))
]
  where
    at_current : s.current ≡ i → (if s.current == i then 0 else s.current) ≡ 0
    at_current e = ground arith

    elsewhere : s.current ≢ i → (if s.current == i then 0 else s.current) ≡ s.current
    elsewhere e = ground arith

-- Removing any task keeps a valid table valid.
pub remove_task-IsValid : (i : ℕ) (s : Sched) → IsValid s → IsValid (remove_task i s).1
unfolding remove_task
remove_task-IsValid i s v =
    if_elim Keeps (i == 0 || not (slot_used i s)) (λ _. v)
      (λ used.
        let (lt, u) = slot_used_lem i s (ground arith) in
        subst
          (λ k.
            IsTable s.table (update s.tasks i (record zero_task { id = i })) s.task_count k
              s.capacity (if s.current == i then 0 else s.current))
          (sym (live_after_lem s v)) (removed-IsTable i s v lt u (ground arith)))
