-- ===== src/Sched/Invariant.antt =====
-- The invariant of the task table of kernel/core/scheduler.c.
use clks.Base.{
  ℕ, zero, suc, ◌+◌, ◌≤◌, ◌<◌, ◌≡◌, ◌≢◌, refl, arith, true, false, Option, none, if◌then◌else◌,
  u32_mod, Array, update, update_self, update_ne, ℕ_discrete, dec_lt, subst,
}
use clks.Sched.{Task, Sched, is_running, is_unused, state_runnable}

-- The descriptor at index `i`: it carries its index, a used one has a time slice, no more ticks are
-- left than the slice has, and only the current task is running.
pub record IsTask (current i : ℕ) (t : Task) : Type 0 where
  pub id : t.id ≡ i
  pub slice : is_unused t.state ≡ false → 0 < t.time_slice_ticks
  pub left : t.remaining_ticks ≤ t.time_slice_ticks
  pub alone : is_running t.state ≡ true → i ≡ current

-- The number of used slots among the first `n`.
unfoldable pub used_count : ℕ → Array Task → ℕ
used_count zero tasks = 0
used_count (suc n) tasks = used_count n tasks + (if is_unused (tasks n).state then 0 else 1)

pub record IsTable (table : Option ℕ) (tasks : Array Task) (count live capacity current : ℕ)
    : Type 0 where
  pub allocated : table ≢ none
  pub fits : (0 < count) × (count ≤ capacity) × (capacity < u32_mod)
  pub current_in : current < count
  pub current_used : is_unused (tasks current).state ≡ false
  pub idle : state_runnable (tasks 0).state ≡ true
  pub each : (i : ℕ) → i < count → IsTask current i (tasks i)
  pub counted : live ≡ used_count count tasks

abbrev pub IsValid : Sched → Type 0
IsValid s = IsTable s.table s.tasks s.task_count s.live_count s.capacity s.current

pub used_count-update_above :
    (n i : ℕ) (tasks : Array Task) (t : Task)
    → n ≤ i
    → used_count n (update tasks i t) ≡ used_count n tasks
unfolding used_count
used_count-update_above zero i tasks t h = refl
used_count-update_above (suc n) i tasks t h = ground (arith, used_count-update_above n i tasks t)

-- Writing slot `i` changes the count by what the slot was and is.
pub used_count-update :
    (n i : ℕ) (tasks : Array Task) (t : Task)
    → i < n
    → used_count n (update tasks i t) + (if is_unused (tasks i).state then 0 else 1)
      ≡ used_count n tasks + (if is_unused t.state then 0 else 1)
unfolding used_count
used_count-update zero i tasks t h = absurd (omega arith)
used_count-update (suc n) i tasks t h = elim (dec_lt i n) [
  | yes below ↦ ground (arith, used_count-update n i tasks t below)
  | no last ↦ ground (arith, used_count-update_above n i tasks t)
]

pub used_count-le : (n : ℕ) (tasks : Array Task) → used_count n tasks ≤ n
unfolding used_count
used_count-le zero tasks = omega arith
used_count-le (suc n) tasks = ground (arith, used_count-le n tasks)

-- Writing a used slot with a used descriptor.
pub put-IsTable :
    {table : Option ℕ} {tasks : Array Task} {count live capacity current : ℕ} (i : ℕ) (t : Task)
    → IsTable table tasks count live capacity current
    → i < count
    → IsTask current i t
    → is_unused t.state ≡ is_unused (tasks i).state
    → (i ≡ 0 → state_runnable t.state ≡ true)
    → IsTable table (update tasks i t) count live capacity current
put-IsTable {tasks} {count} i t v lt task same idle = record {
  allocated = v.allocated;
  fits = v.fits;
  current_in = v.current_in;
  current_used = ground (arith, v.current_used);
  idle = ground (arith, v.idle);
  each = λ j lt'. elim (ℕ_discrete j i) [
    | yes e ↦ rw (e, update_self tasks i t) task
    | no ne ↦ rw (update_ne tasks i j t ne) (v.each j lt')
  ];
  counted = ground (arith, v.counted, used_count-update count i tasks t lt);
}

-- While no task is running any task can become the current one.
pub move-IsTable :
    {table : Option ℕ} {tasks : Array Task} {count live capacity current : ℕ} (next : ℕ)
    → IsTable table tasks count live capacity current
    → next < count
    → is_unused (tasks next).state ≡ false
    → is_running (tasks current).state ≡ false
    → IsTable table tasks count live capacity next
move-IsTable {tasks} {current} next v lt used quiet = record {
  allocated = v.allocated;
  fits = v.fits;
  current_in = lt;
  current_used = used;
  idle = v.idle;
  each = λ j lt'. record {
    id = (v.each j lt').id;
    slice = (v.each j lt').slice;
    left = (v.each j lt').left;
    alone =
        λ r. cc (quiet, subst (λ k. is_running (tasks k).state ≡ true) ((v.each j lt').alone r) r);
  };
  counted = v.counted;
}
