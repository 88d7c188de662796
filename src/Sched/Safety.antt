-- ===== src/Sched/Safety.antt =====
-- The runs of kernel/core/scheduler.c: every operation as a step, in any order and any number.
use clks.Base.{ℕ, ◌*◌, ◌<◌, ◌≡◌, Bool, true, false, Option, some, Array, subst, sym, ◌∙◌}
use clks.Sched.{TaskState, Sched, is_running, is_unused, state_runnable, task_runnable}
use clks.Sched.Switch.{wake_sleepers, maybe_reschedule, on_timer_tick}
use clks.Sched.Api.{
  yield_current, yield_task, sleep_current_until, sleep_current_ticks, sleep_task_until,
  sleep_task_ticks, set_task_state, wake_task,
}
use clks.Sched.Dispatch.{enter_task, leave_task}
use clks.Sched.Table.{
  Allocator, initial_capacity, descriptor_size, add_task_internal, remove_task, init,
}
use clks.Sched.Invariant.{IsValid, used_count}
use clks.Sched.Switching.{wake_sleepers-IsValid, maybe_reschedule-IsValid, on_timer_tick-IsValid}
use clks.Sched.Calls.{
  yield_current-IsValid, yield_task-IsValid, sleep_current_until-IsValid,
  sleep_current_ticks-IsValid, sleep_task_until-IsValid, sleep_task_ticks-IsValid,
  set_task_state-IsValid, wake_task-IsValid,
}
use clks.Sched.Removal.{remove_task-IsValid}
use clks.Sched.Running.{enter_task-IsValid, leave_task-IsValid}
use clks.Sched.Adding.{add_task_internal_lem}
use clks.Sched.Boot.{Started, released, init-Started}

module _ (mem : Allocator) where
  open mem use {Store, alloc}

  -- One operation. Entering a task and its return are two steps: what the task does in between are
  -- steps as well.
  pub data Step : Sched × Store → Sched × Store → Type 0 where
    tick : (now : ℕ) (s : Sched) (h : Store) → Step (s, h) (on_timer_tick now s, h)
    wake_all : (now : ℕ) (s : Sched) (h : Store) → Step (s, h) (wake_sleepers now s, h)
    reschedule : (s : Sched) (h : Store) → Step (s, h) (maybe_reschedule s, h)
    enter :
        (i now : ℕ) (s : Sched) (h : Store)
        → i < s.task_count
        → task_runnable (s.tasks i) ≡ true
        → Step (s, h) (enter_task i now s, h)
    leave :
        (i : ℕ) (old : Option ℕ) (s : Sched) (h : Store)
        → i < s.task_count
        → Step (s, h) (leave_task i old s, h)
    yield_now : (s : Sched) (h : Store) → Step (s, h) (yield_current s, h)
    yield_one : (i : ℕ) (s : Sched) (h : Store) → Step (s, h) ((yield_task i s).1, h)
    sleep_now :
        (until : ℕ) (s : Sched) (h : Store) → Step (s, h) ((sleep_current_until until s).1, h)
    sleep_now_ticks :
        (ticks now : ℕ) (s : Sched) (h : Store)
        → Step (s, h) ((sleep_current_ticks ticks now s).1, h)
    sleep_one :
        (i until : ℕ) (s : Sched) (h : Store) → Step (s, h) ((sleep_task_until i until s).1, h)
    sleep_one_ticks :
        (i ticks now : ℕ) (s : Sched) (h : Store)
        → Step (s, h) ((sleep_task_ticks i ticks now s).1, h)
    set_state :
        (i : ℕ) (state : TaskState) (s : Sched) (h : Store)
        → is_unused state ≡ false
        → Step (s, h) ((set_task_state i state s).1, h)
    wake_one : (i : ℕ) (s : Sched) (h : Store) → Step (s, h) ((wake_task i s).1, h)
    remove : (i : ℕ) (s : Sched) (h : Store) → Step (s, h) ((remove_task i s).1, h)
    add :
        (name : Option (Array ℕ)) (slice : ℕ) (entry : Option ℕ) (early : Bool) (s : Sched)
        (h : Store)
        → Step
            (s, h)
            (
              (add_task_internal mem name slice entry early s h).1,
              (add_task_internal mem name slice entry early s h).2,
            )

  -- The states that any sequence of operations leads to.
  pub data Reach : Sched × Store → Sched × Store → Type 0 where
    here : {x : Sched × Store} → Reach x x
    there : {x y z : Sched × Store} → Step x y → Reach y z → Reach x z

  Step-IsValid : {x y : Sched × Store} → Step x y → IsValid x.0 → IsValid y.0
  Step-IsValid (tick now s h) v = on_timer_tick-IsValid now s v
  Step-IsValid (wake_all now s h) v = wake_sleepers-IsValid now s v
  Step-IsValid (reschedule s h) v = maybe_reschedule-IsValid s v
  Step-IsValid (enter i now s h lt runs) v = (enter_task-IsValid i now s v lt runs).0
  Step-IsValid (leave i old s h lt) v = leave_task-IsValid i old s v lt
  Step-IsValid (yield_now s h) v = yield_current-IsValid s v
  Step-IsValid (yield_one i s h) v = yield_task-IsValid i s v
  Step-IsValid (sleep_now until s h) v = sleep_current_until-IsValid until s v
  Step-IsValid (sleep_now_ticks ticks now s h) v = sleep_current_ticks-IsValid ticks now s v
  Step-IsValid (sleep_one i until s h) v = sleep_task_until-IsValid i until s v
  Step-IsValid (sleep_one_ticks i ticks now s h) v = sleep_task_ticks-IsValid i ticks now s v
  Step-IsValid (set_state i state s h given) v = set_task_state-IsValid i state s v given
  Step-IsValid (wake_one i s h) v = wake_task-IsValid i s v
  Step-IsValid (remove i s h) v = remove_task-IsValid i s v
  Step-IsValid (add name slice entry early s h) v =
      (add_task_internal_lem mem name slice entry early s h v).0

  Reach-IsValid : {x y : Sched × Store} → Reach x y → IsValid x.0 → IsValid y.0
  Reach-IsValid here v = v
  Reach-IsValid (there step rest) v = Reach-IsValid rest (Step-IsValid step v)

  -- What a state promises: at most one task is running, and it is the current one; the idle task can
  -- always run; the number of tasks is that of the used slots.
  pub record IsSafe (s : Sched) : Type 0 where
    pub alone :
        (i j : ℕ)
        → i < s.task_count
        → j < s.task_count
        → is_running (s.tasks i).state ≡ true
        → is_running (s.tasks j).state ≡ true
        → i ≡ j
    pub current : s.current < s.task_count
    pub current_used : is_unused (s.tasks s.current).state ≡ false
    pub idle : state_runnable (s.tasks 0).state ≡ true
    pub counted : s.live_count ≡ used_count s.task_count s.tasks

  valid-IsSafe : (s : Sched) → IsValid s → IsSafe s
  valid-IsSafe s v = record {
    alone = λ i j p q a b. (v.each i p).alone a ∙ sym ((v.each j q).alone b);
    current = v.current_in;
    current_used = v.current_used;
    idle = v.idle;
    counted = v.counted;
  }

  -- After start-up with an allocator that gives the first table, whatever operations follow in
  -- whatever order (a task is entered only if it is runnable, and no state is set to "unused"),
  -- at most one task of the table is running, the current task is one in use, the idle task can
  -- run, and the number of live tasks is the number of used slots.
  pub boot-Reach-IsSafe :
      (idle_name : Array ℕ) (s : Sched) (h : Store) (p : ℕ) {y : Sched × Store}
      → (alloc (initial_capacity * descriptor_size) (released mem s h)).0 ≡ some p
      → Reach (init mem idle_name s h) y
      → IsSafe y.0
  boot-Reach-IsSafe idle_name s h p {y} e reach = valid-IsSafe y.0 (
      Reach-IsValid reach
        (subst (λ o. Started mem o (init mem idle_name s h).0) e
          (init-Started mem idle_name s h)).0)
