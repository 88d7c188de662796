-- ===== src/Sched/Api.antt =====
-- kernel/core/scheduler.c: yielding, sleeping, waking, setting a state, statistics.
use clks.Base.{
  ℕ, zero, suc, Bool, true, false, ◌&&◌, not, ◌||◌, none, some, ◌==◌, if◌then◌else◌, add32, add64,
  Array,
}
use clks.Sched.{
  TaskState, ready, sleeping, Task, Sched, is_running, is_blocked, is_sleeping, is_unused,
  is_zombie, state_runnable, slot_used, put_task,
}

unfoldable pub yield_current : Sched → Sched
unfolding put_task state_runnable
yield_current s =
    let task = s.tasks s.current in
    if s.task_count == 0
    then s
    else if state_runnable task.state
    then put_task s.current
        (record task { yield_count = add64 task.yield_count 1; remaining_ticks = 0 })
        (record s { yield_count = add64 s.yield_count 1; reschedule_requested = true })
    else s

unfoldable pub yield_task : ℕ → Sched → Bool × Sched
unfolding put_task state_runnable
yield_task task_id s =
    let task = s.tasks task_id in
    if not (slot_used task_id s)
    then (false, s)
    else if state_runnable task.state
    then (
      true,
      put_task task_id (record task { yield_count = add64 task.yield_count 1; remaining_ticks = 0 })
          (record s {
            yield_count = add64 s.yield_count 1;
            reschedule_requested = if s.current == task_id then true else s.reschedule_requested;
          }),
    )
    else (true, s)

-- A task put to sleep.
unfoldable pub asleep : ℕ → Task → Task
asleep wake_tick task = record task {
  state = sleeping;
  wake_tick = wake_tick;
  sleep_count = add64 task.sleep_count 1;
  remaining_ticks = task.time_slice_ticks;
}

unfoldable pub sleep_current_until : ℕ → Sched → Bool × Sched
unfolding put_task asleep
sleep_current_until wake_tick s =
    if s.task_count == 0
    then (false, s)
    else if s.current == 0
    then (false, s)
    else elim (s.tasks s.current).entry [
      | none ↦ (false, s)
      | some _ ↦ (
        true,
        put_task s.current (asleep wake_tick (s.tasks s.current))
            (record s { reschedule_requested = true }),
      )
    ]

unfoldable pub sleep_task_until : ℕ → ℕ → Sched → Bool × Sched
unfolding put_task asleep
sleep_task_until task_id wake_tick s =
    if task_id == 0 || not (slot_used task_id s) then (false, s) else (
      true,
      put_task task_id (asleep wake_tick (s.tasks task_id)) (record s {
        reschedule_requested = if s.current == task_id then true else s.reschedule_requested;
      }),
    )

unfoldable pub sleep_current_ticks : ℕ → ℕ → Sched → Bool × Sched
sleep_current_ticks ticks now_tick s =
    if ticks == 0 then (true, yield_current s) else sleep_current_until (add64 now_tick ticks) s

unfoldable pub sleep_task_ticks : ℕ → ℕ → ℕ → Sched → Bool × Sched
sleep_task_ticks task_id ticks now_tick s =
    if ticks == 0 then yield_task task_id s else sleep_task_until task_id (add64 now_tick ticks) s

-- The state that `clks_scheduler_set_task_state` writes: only the current task can be running.
unfoldable pub granted : TaskState → Bool → TaskState
unfolding is_running
granted state is_current = if is_running state && not is_current then ready else state

unfoldable pub set_task_state : ℕ → TaskState → Sched → Bool × Sched
unfolding put_task state_runnable is_blocked granted
set_task_state task_id state s =
    let task = s.tasks task_id in
    let state' = granted state (s.current == task_id) in
    if not (slot_used task_id s)
    then (false, s)
    else if task_id == 0 && not (state_runnable state)
    then (false, s)
    else (
      true,
      put_task task_id
          (record task {
            state = state';
            block_count = if is_blocked state' then add64 task.block_count 1 else task.block_count;
          })
          (record s {
            reschedule_requested =
                if s.current == task_id && not (state_runnable state')
                then true
                else s.reschedule_requested;
          }),
    )

unfoldable pub wake_task : ℕ → Sched → Bool × Sched
unfolding put_task is_unused is_zombie
wake_task task_id s =
    let task = s.tasks task_id in
    if not (slot_used task_id s)
    then (false, s)
    else if is_unused task.state || is_zombie task.state
    then (false, s)
    else (
      true,
      put_task task_id
          (record task {
            state = ready;
            wake_tick = 0;
            remaining_ticks =
                if task.remaining_ticks == 0 then task.time_slice_ticks else task.remaining_ticks;
          })
          (record s { wakeup_count = add64 s.wakeup_count 1 }),
    )

-- `struct clks_scheduler_stats`, the counts that the loop fills in.
pub record Counts : Type 0 where
  pub runnable_count : ℕ
  pub sleeping_count : ℕ
  pub blocked_count : ℕ

-- The loop of `clks_scheduler_get_stats` over the first tasks.
unfoldable pub count_states : ℕ → Array Task → Counts
unfolding state_runnable is_sleeping is_blocked
count_states zero tasks = record { runnable_count = 0; sleeping_count = 0; blocked_count = 0 }
count_states (suc n) tasks =
    let c = count_states n tasks in
    let state = (tasks n).state in
    if state_runnable state
    then record c { runnable_count = add32 c.runnable_count 1 }
    else if is_sleeping state
    then record c { sleeping_count = add32 c.sleeping_count 1 }
    else if is_blocked state
    then record c { blocked_count = add32 c.blocked_count 1 }
    else c

-- `struct clks_scheduler_stats`
pub record Stats : Type 0 where
  pub task_count : ℕ
  pub current_task_id : ℕ
  pub counts : Counts
  pub total_timer_ticks : ℕ
  pub context_switch_count : ℕ
  pub yield_count : ℕ
  pub wakeup_count : ℕ

unfoldable pub get_stats : Sched → Stats
get_stats s = record {
  task_count = s.live_count;
  current_task_id = s.current;
  counts = count_states s.task_count s.tasks;
  total_timer_ticks = s.total_timer_ticks;
  context_switch_count = s.context_switch_count;
  yield_count = s.yield_count;
  wakeup_count = s.wakeup_count;
}
