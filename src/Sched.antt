-- ===== src/Sched.antt =====
-- kernel/core/scheduler.c, include/clks/task.h and include/clks/scheduler.h: the cooperative
-- scheduler. This file has its state and the helpers that its parts share; `Table` grows the task
-- table and adds and removes tasks, `Switch` picks and switches tasks, `Dispatch` runs them, `Api`
-- has the operations on one task.
pub mod Table
pub mod Switch
pub mod Dispatch
pub mod Api
pub mod Invariant
mod Switching
mod Calls
mod Removal
mod Tests
mod Growth
mod Picking
mod Ticking
mod Running
mod Boot
mod Adding
pub mod Safety
use clks.Base.{
  ℕ, ◌^◌, Bool, true, false, ◌&&◌, not, Option, none, some, ltb, ◌==◌, if◌then◌else◌, u32_mod,
  Array, update,
}

-- `enum clks_task_state`
pub data TaskState : Type 0 where
  unused ready running blocked sleeping waiting_child blocked_io stopped zombie : TaskState

-- `struct clks_task_descriptor`; an entry point is the number of a function, or null.
pub record Task : Type 0 where
  pub id : ℕ
  pub name : Array ℕ
  pub state : TaskState
  pub time_slice_ticks : ℕ
  pub remaining_ticks : ℕ
  pub total_ticks : ℕ
  pub switch_count : ℕ
  pub run_count : ℕ
  pub last_run_tick : ℕ
  pub wake_tick : ℕ
  pub sleep_count : ℕ
  pub block_count : ℕ
  pub yield_count : ℕ
  pub entry : Option ℕ

-- The file's static state. `tasks` is the array that `table` points to.
pub record Sched : Type 0 where
  pub table : Option ℕ
  pub tasks : Array Task
  pub task_count : ℕ
  pub live_count : ℕ
  pub capacity : ℕ
  pub current : ℕ
  pub total_timer_ticks : ℕ
  pub context_switch_count : ℕ
  pub yield_count : ℕ
  pub wakeup_count : ℕ
  pub dispatch_active : Bool
  pub reschedule_requested : Bool
  pub online : Bool

-- A descriptor after `clks_memset(..., 0, ...)`.
abbrev pub zero_task : Task
zero_task = record {
  id = 0;
  name = λ _. 0;
  state = unused;
  time_slice_ticks = 0;
  remaining_ticks = 0;
  total_ticks = 0;
  switch_count = 0;
  run_count = 0;
  last_run_tick = 0;
  wake_tick = 0;
  sleep_count = 0;
  block_count = 0;
  yield_count = 0;
  entry = none;
}

-- `state == CLKS_TASK_UNUSED` and the like.
unfoldable pub is_unused : TaskState → Bool
is_unused unused = true
is_unused _ = false

unfoldable pub is_ready : TaskState → Bool
is_ready ready = true
is_ready _ = false

unfoldable pub is_running : TaskState → Bool
is_running running = true
is_running _ = false

unfoldable pub is_sleeping : TaskState → Bool
is_sleeping sleeping = true
is_sleeping _ = false

unfoldable pub is_zombie : TaskState → Bool
is_zombie zombie = true
is_zombie _ = false

-- Blocked, blocked on input or output, or waiting for a child.
unfoldable pub is_blocked : TaskState → Bool
is_blocked blocked = true
is_blocked blocked_io = true
is_blocked waiting_child = true
is_blocked _ = false

unfoldable pub state_runnable : TaskState → Bool
state_runnable ready = true
state_runnable running = true
state_runnable _ = false

unfoldable pub task_runnable : Task → Bool
unfolding state_runnable
task_runnable task = elim task.entry [ none ↦ false | some _ ↦ state_runnable task.state ]

-- `&clks_tasks[i]` is written through.
unfoldable pub put_task : ℕ → Task → Sched → Sched
put_task i task s = record s { tasks = update s.tasks i task }

unfoldable pub slot_used : ℕ → Sched → Bool
unfolding is_unused
slot_used task_id s = elim s.table [
  | none ↦ false
  | some _ ↦ ltb task_id s.task_count && not (is_unused (s.tasks task_id).state)
]

-- `clks_scheduler_get_task`
unfoldable pub get_task : ℕ → Sched → Option Task
unfolding slot_used
get_task task_id s = if slot_used task_id s then some (s.tasks task_id) else none
