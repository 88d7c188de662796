-- ===== src/Sched/Table.antt =====
-- kernel/core/scheduler.c: growing the task table, adding and removing tasks, start-up. The memory
-- that the table lives in comes from an allocator, which kernel/memory/heap.c implements.
use clks.Base.{
  ℕ, zero, suc, ◌-◌, ◌*◌, ◌/◌, ◌%◌, Bool, true, false, ◌&&◌, not, ◌||◌, Option, none, some, ltb,
  leb, ◌==◌, if◌then◌else◌, add32, sub32, u32_mod, u64_mod, Array, update, find_index,
}
pub use clks.Base.Allocator.{Allocator}
use clks.Base.CString.{copy_text}
use clks.Sched.{ready, running, Task, Sched, zero_task, is_unused, slot_used, put_task}

-- CLKS_SCHED_INITIAL_TASK_CAPACITY
abbrev pub initial_capacity : ℕ
initial_capacity = 32

-- CLKS_TASK_NAME_MAX
abbrev pub name_max : ℕ
name_max = 32

-- `sizeof(struct clks_task_descriptor)` on a 64-bit target
abbrev pub descriptor_size : ℕ
descriptor_size = 120

-- The largest `u32`, which also stands for "no task".
abbrev pub u32_max : ℕ
u32_max = u32_mod - 1

-- The loop that doubles the capacity. It takes at most 32 rounds; that its fuel is enough is
-- `grow-le`.
unfoldable pub grow : ℕ → ℕ → ℕ → ℕ
grow zero new_capacity min_capacity = new_capacity
grow (suc fuel) new_capacity min_capacity =
    let rest = grow fuel (new_capacity * 2 % u32_mod) min_capacity in
    if ltb new_capacity min_capacity
    then if ltb (u32_max / 2) new_capacity then min_capacity else rest
    else new_capacity

unfoldable pub copy_name : Option (Array ℕ) → Array ℕ → Array ℕ
copy_name none dst = update dst 0 0
copy_name (some src) dst = copy_text (name_max - 1) 0 src dst

-- `clks_memset` and `clks_memcpy` on the new table.
unfoldable pub copied : ℕ → Array Task → Array Task
copied task_count tasks i = if ltb i task_count then tasks i else zero_task

-- The descriptor of a new task.
unfoldable pub new_task : ℕ → Array ℕ → ℕ → Option ℕ → Task
new_task task_id name time_slice_ticks entry =
    let slice : ℕ = if ltb time_slice_ticks 1 then 1 else time_slice_ticks in
    record zero_task {
      id = task_id;
      name = copy_name (some name) (λ _. 0);
      state = ready;
      time_slice_ticks = slice;
      remaining_ticks = slice;
      entry = entry;
    }

-- What `clks_scheduler_init` resets.
abbrev pub reset : Sched
reset = record {
  table = none;
  tasks = λ _. zero_task;
  task_count = 0;
  live_count = 0;
  capacity = 0;
  current = 0;
  total_timer_ticks = 0;
  context_switch_count = 0;
  yield_count = 0;
  wakeup_count = 0;
  dispatch_active = false;
  reschedule_requested = false;
  online = false;
}

-- The idle task becomes the running one.
unfoldable pub run_idle : Sched → Sched
unfolding put_task
run_idle s =
    let task = s.tasks 0 in
    record (put_task 0 (record task { state = running; remaining_ticks = task.time_slice_ticks })
      s) { online = true }

module _ (mem : Allocator) where
  open mem use {Store, alloc, free}

  unfoldable pub reserve_tasks : ℕ → Sched → Store → Bool × Sched × Store
  unfolding copied
  reserve_tasks min_capacity s h =
      let first : ℕ = if s.capacity == 0 then initial_capacity else s.capacity in
      let new_capacity = grow 33 first min_capacity in
      let bytes = new_capacity * descriptor_size % u64_mod in
      let (new_tasks, h₁) = alloc bytes h in
      let h₂ : Store = elim s.table [ none ↦ h₁ | some old ↦ free (some old) h₁ ] in
      let old_tasks : Array Task = elim s.table [
        | none ↦ λ _. zero_task
        | some _ ↦ copied s.task_count s.tasks
      ] in
      if leb min_capacity s.capacity
      then (true, s, h)
      else if new_capacity == 0 || not (bytes / descriptor_size == new_capacity)
      then (false, s, h)
      else elim new_tasks [
        | none ↦ (false, s, h₁)
        | some p ↦
            (true, record s { table = some p; tasks = old_tasks; capacity = new_capacity }, h₂)
      ]

  -- The part of `clks_sched_find_free_task_slot` after its loop. The slot found is `none` where the C
  -- function returns false.
  unfoldable pub append_slot : Sched → Store → Option ℕ × Sched × Store
  append_slot s h =
      let (grown, s', h') = reserve_tasks (add32 s.task_count 1) s h in
      if s.task_count == u32_max
      then (none, s, h)
      else if grown
      then (some s'.task_count, record s' { task_count = add32 s'.task_count 1 }, h')
      else (none, s', h')

  unfoldable pub find_free_task_slot : Sched → Store → Option ℕ × Sched × Store
  find_free_task_slot s h =
      elim (find_index (λ i. is_unused (s.tasks i).state) (s.task_count - 1) 1) [
        | some i ↦ (some i, s, h)
        | none ↦ append_slot s h
      ]

  -- The result is the new task's number; where the C function returns false, it is `none`.
  unfoldable pub add_task_internal :
      Option (Array ℕ) → ℕ → Option ℕ → Bool → Sched → Store → Option ℕ × Sched × Store
  unfolding new_task put_task
  add_task_internal none time_slice_ticks entry allow_before_online s h = (none, s, h)
  add_task_internal (some name) time_slice_ticks entry allow_before_online s h =
      let (slot, s', h') = find_free_task_slot s h in
      if not allow_before_online && not s.online then (none, s, h) else elim slot [
        | none ↦ (none, s', h')
        | some task_id ↦ (
          some task_id,
          put_task task_id (new_task task_id name time_slice_ticks entry)
              (record s' { live_count = add32 s'.live_count 1 }),
          h',
        )
      ]

  -- `clks_scheduler_add_kernel_task_ex_id`
  unfoldable pub add_kernel_task_ex_id :
      Option (Array ℕ) → ℕ → Option ℕ → Sched → Store → Option ℕ × Sched × Store
  add_kernel_task_ex_id name time_slice_ticks entry s h =
      add_task_internal name time_slice_ticks entry false s h

  -- `clks_scheduler_add_kernel_task_ex` and `clks_scheduler_add_kernel_task`: a null `out_task_id`, and
  -- a null entry point.
  unfoldable pub add_kernel_task_ex :
      Option (Array ℕ) → ℕ → Option ℕ → Sched → Store → Bool × Sched × Store
  add_kernel_task_ex name time_slice_ticks entry s h =
      let (id, s', h') = add_kernel_task_ex_id name time_slice_ticks entry s h in
      (elim id [ none ↦ false | some _ ↦ true ], s', h')

  unfoldable pub add_kernel_task : Option (Array ℕ) → ℕ → Sched → Store → Bool × Sched × Store
  add_kernel_task name time_slice_ticks s h = add_kernel_task_ex name time_slice_ticks none s h

  -- The end of `clks_scheduler_init`: the idle task is started. The argument `name` is the text
  -- "idle".
  unfoldable pub start_idle : Array ℕ → Sched → Store → Sched × Store
  start_idle name s h =
      let (idle, s', h') = add_task_internal (some name) 1 none true s h in
      elim idle [ none ↦ (s', h') | some _ ↦ (run_idle s', h') ]

  unfoldable pub init : Array ℕ → Sched → Store → Sched × Store
  init idle_name s h =
      let h₀ : Store = elim s.table [ none ↦ h | some old ↦ free (some old) h ] in
      let (reserved, s₁, h₁) = reserve_tasks initial_capacity reset h₀ in
      if not reserved then (s₁, h₁) else start_idle idle_name s₁ h₁

-- `clks_scheduler_is_online`
unfoldable pub is_online : Sched → Bool
is_online s = s.online

unfoldable pub remove_task : ℕ → Sched → Bool × Sched
unfolding put_task
remove_task task_id s =
    let is_current : Bool = s.current == task_id in
    if task_id == 0 || not (slot_used task_id s) then (false, s) else (
      true,
      put_task task_id (record zero_task { id = task_id })
          (record s {
            live_count = if ltb 0 s.live_count then sub32 s.live_count 1 else s.live_count;
            current = if is_current then 0 else s.current;
            reschedule_requested = if is_current then true else s.reschedule_requested;
          }),
    )
