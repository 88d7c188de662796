-- ===== src/Sched/Tests.antt =====
-- Runs of kernel/core/scheduler.c, and its theorems at concrete inputs.
use clks.Base.{
  ℕ, ◌+◌, ◌≤◌, ◌≡◌, refl, arith, true, false, some, Array, update, if◌then◌else◌, ◌==◌, ◌%◌, ◌<◌,
  inl, inr, subst,
}
use clks.Sched.{
  ready, running, sleeping, Task, Sched, zero_task, is_unused, is_running, state_runnable, put_task,
}
use clks.Sched.Table.{Allocator, init}
use clks.Sched.Switch.{next_runnable_task, on_timer_tick}
use clks.Sched.Dispatch.{dispatch_ready}
use clks.Sched.Api.{yield_current}
use clks.Sched.Invariant.{IsValid, used_count}
use clks.Sched.Switching.{on_timer_tick-IsValid}
use clks.Sched.Calls.{yield_current-IsValid}
use clks.Sched.Running.{dispatch_ready-IsValid}
use clks.Sched.Picking.{Runs, next_runnable_task-first}
use clks.Sched.Safety.{tick, here, there, IsSafe, boot-Reach-IsSafe}

-- An allocator that hands out one address after the other.
abbrev bump : Allocator
bump = record { Store = ℕ; alloc = λ size top. (some top, top + size); free = λ p top. top }

abbrev idle_name : Array ℕ
idle_name i = if i == 0 then 105 else 0

-- The idle task is running, a task sleeps until tick 10, and one is ready.
abbrev three_tasks : Array Task
three_tasks =
    update
      (update
        (update (λ _. zero_task) 0 (record zero_task { state = running; time_slice_ticks = 1 })) 1
        (record zero_task {
          id = 1;
          state = sleeping;
          time_slice_ticks = 2;
          wake_tick = 10;
          entry = some 7;
        }))
      2 (record zero_task { id = 2; state = ready; time_slice_ticks = 3; entry = some 8 })

abbrev small : Sched
small = record {
  table = some 0;
  tasks = three_tasks;
  task_count = 3;
  live_count = 3;
  capacity = 32;
  current = 0;
  total_timer_ticks = 0;
  context_switch_count = 0;
  yield_count = 0;
  wakeup_count = 0;
  dispatch_active = false;
  reschedule_requested = true;
  online = true;
}

small-IsValid : IsValid small
unfolding is_unused is_running state_runnable used_count
small-IsValid = record {
  allocated = λ e. cc;
  fits = omega arith;
  current_in = omega arith;
  current_used = refl;
  idle = refl;
  each = λ i lt. ground arith;
  counted = refl;
}

-- A task that yields when it is run.
abbrev yielding : ℕ → ℕ → Sched → Sched
yielding entry now s = yield_current s

yielding-IsValid :
    (entry now : ℕ) (s : Sched)
    → IsValid s
    → IsValid (yielding entry now s) × (s.task_count ≤ (yielding entry now s).task_count)
yielding-IsValid entry now s v =
    (yield_current-IsValid s v, unfold yield_current put_task in ground arith)

boot-Reach-IsSafe_example : IsSafe bump (on_timer_tick 5 (init bump idle_name small 1000).0)
boot-Reach-IsSafe_example =
    boot-Reach-IsSafe bump idle_name small 1000 1000 refl
      (there (tick 5 (init bump idle_name small 1000).0 (init bump idle_name small 1000).1) here)

on_timer_tick-IsValid_example : IsValid (on_timer_tick 10 small)
on_timer_tick-IsValid_example = on_timer_tick-IsValid 10 small small-IsValid

dispatch_ready-IsValid_example : IsValid (dispatch_ready yielding 10 small)
dispatch_ready-IsValid_example =
    dispatch_ready-IsValid yielding yielding-IsValid 10 small small-IsValid

next_runnable_task-first_example : next_runnable_task 0 small ≡ (0 + 2) % small.task_count
next_runnable_task-first_example =
    next_runnable_task-first 0 2 small (omega arith) (omega arith) (omega arith) (8, refl, inl refl)
      (λ k l h r. asleep (small_first k l h r))
  where
    small_first :
        (k : ℕ)
        → 1 ≤ k
        → k < 2
        → Runs (small.tasks ((0 + k) % small.task_count))
        → Runs (small.tasks 1)
    small_first k l h =
        let one : (0 + k) % small.task_count ≡ 1 = omega arith in
        subst (λ i. Runs (small.tasks i)) one

    asleep : Runs (small.tasks 1) → ⊥
    asleep (e, has, inl a) = absurd (cc a)
    asleep (e, has, inr b) = absurd (cc b)
