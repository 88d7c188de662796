-- ===== src/Sched/Switch.antt =====
-- kernel/core/scheduler.c: waking sleepers, picking the next task, switching, the timer tick.
use clks.Base.{
  ℕ, zero, suc, ◌+◌, ◌-◌, ◌%◌, true, false, not, ◌||◌, none, some, ltb, leb, ◌==◌, if◌then◌else◌,
  add32, add64, find_index,
}
use clks.Sched.{
  ready, running, Sched, is_sleeping, is_running, state_runnable, task_runnable, put_task,
}

-- The body of the loop of `clks_sched_wake_sleepers`.
unfoldable pub wake_sleeper : ℕ → ℕ → Sched → Sched
unfolding put_task is_sleeping
wake_sleeper tick i s =
    let task = s.tasks i in
    if not (is_sleeping task.state)
    then s
    else if ltb tick task.wake_tick
    then s
    else put_task i
        (record task { wake_tick = 0; state = ready; remaining_ticks = task.time_slice_ticks })
        (record s { wakeup_count = add64 s.wakeup_count 1 })

-- The loop with `rounds` tasks left from `i` on.
unfoldable pub wake_from : ℕ → ℕ → ℕ → Sched → Sched
wake_from zero i tick s = s
wake_from (suc rounds) i tick s = wake_from rounds (i + 1) tick (wake_sleeper tick i s)

unfoldable pub wake_sleepers : ℕ → Sched → Sched
wake_sleepers tick s = wake_from s.task_count 0 tick s

-- The i-th index after `from`, going round.
unfoldable pub nth_after : ℕ → ℕ → Sched → ℕ
nth_after from i s = add32 from i % s.task_count

unfoldable pub next_runnable_task : ℕ → Sched → ℕ
next_runnable_task from s =
    if s.task_count == 0
    then 0
    else elim (find_index (λ i. task_runnable (s.tasks (nth_after from i s))) s.task_count 1) [
      | some i ↦ nth_after from i s
      | none ↦ if task_runnable (s.tasks from) then from else 0
    ]

-- A running task that is switched away from is ready.
unfoldable pub demote : Sched → Sched
unfolding put_task is_running
demote s =
    let old_task = s.tasks s.current in
    if is_running old_task.state
    then put_task s.current (record old_task { state = ready }) s
    else s

-- The task that is switched to is running, with a new slice if it has no ticks left.
unfoldable pub promote : ℕ → Sched → Sched
unfolding put_task
promote next s =
    let new_task = s.tasks next in
    put_task next
      (record new_task {
        state = running;
        switch_count = add64 new_task.switch_count 1;
        remaining_ticks =
            if new_task.remaining_ticks == 0
            then new_task.time_slice_ticks
            else new_task.remaining_ticks;
      })
      (record s { current = next; context_switch_count = add64 s.context_switch_count 1 })

unfoldable pub switch_to : ℕ → Sched → Sched
switch_to next s =
    if s.task_count == 0 || leb s.task_count next
    then s
    else if next == s.current
    then s
    else promote next (demote s)

unfoldable pub account_current_tick : Sched → Sched
unfolding put_task state_runnable
account_current_tick s =
    let task = s.tasks s.current in
    let left = task.remaining_ticks - 1 in
    if s.task_count == 0
    then s
    else if not (state_runnable task.state)
    then s
    else put_task s.current
        (record task { total_ticks = add64 task.total_ticks 1; remaining_ticks = left })
        (record s { reschedule_requested = if left == 0 then true else s.reschedule_requested })

unfoldable pub maybe_reschedule : Sched → Sched
unfolding put_task
maybe_reschedule s =
    let s₁ = record s { reschedule_requested = false } in
    let next = next_runnable_task s.current s₁ in
    let task = s.tasks s.current in
    let s₂ = put_task s.current (record task { remaining_ticks = task.time_slice_ticks }) s₁ in
    if s.task_count == 0 || not s.reschedule_requested then s else switch_to next s₂

unfoldable pub on_timer_tick : ℕ → Sched → Sched
on_timer_tick tick s =
    let s₁ = wake_sleepers tick (record s { total_timer_ticks = tick }) in
    if s.task_count == 0
    then s
    else if s₁.dispatch_active
    then s₁
    else maybe_reschedule (account_current_tick s₁)
