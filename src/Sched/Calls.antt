-- ===== src/Sched/Calls.antt =====
-- The operations on one task of kernel/core/scheduler.c keep the table valid.
use clks.Base.{
  ℕ, ◌<◌, ◌≡◌, ◌≢◌, refl, arith, Bool, true, false, ◌&&◌, not, ◌||◌, Option, none, some, ◌==◌,
  add64, update, sym, if_elim,
}
use clks.Sched.{
  TaskState, Sched, is_running, is_unused, is_zombie, state_runnable, slot_used, put_task,
}
use clks.Sched.Api.{
  yield_current, yield_task, asleep, sleep_current_until, sleep_task_until, sleep_current_ticks,
  sleep_task_ticks, granted, set_task_state, wake_task,
}
use clks.Sched.Invariant.{IsTable, IsValid, put-IsTable}

-- What the test of a slot says.
pub slot_used_lem :
    (i : ℕ) (s : Sched)
    → slot_used i s ≡ true
    → (i < s.task_count) × (is_unused (s.tasks i).state ≡ false)
unfolding slot_used
slot_used_lem i s h = ground arith

abbrev pub Keeps : Bool × Sched → Type 0
Keeps r = IsValid r.1

pub yield_current-IsValid : (s : Sched) → IsValid s → IsValid (yield_current s)
unfolding yield_current
yield_current-IsValid s v =
    if_elim IsValid (s.task_count == 0) (λ _. v)
      (λ _.
        if_elim IsValid (state_runnable (s.tasks s.current).state)
          (λ r.
            put-IsTable s.current _ v v.current_in (ground (arith, v.each s.current v.current_in))
              refl (λ _. r))
          (λ _. v))

pub yield_task-IsValid : (i : ℕ) (s : Sched) → IsValid s → IsValid (yield_task i s).1
unfolding yield_task
yield_task-IsValid i s v =
    if_elim Keeps (not (slot_used i s)) (λ _. v)
      (λ used.
        let (lt, u) = slot_used_lem i s (ground arith) in
        if_elim Keeps (state_runnable (s.tasks i).state)
          (λ r. put-IsTable i _ v lt (ground (arith, v.each i lt)) refl (λ _. r)) (λ _. v))

-- Putting a used task to sleep.
asleep-IsTable :
    (i wake_tick : ℕ) (s : Sched)
    → IsValid s
    → i < s.task_count
    → is_unused (s.tasks i).state ≡ false
    → i ≢ 0
    → IsTable s.table
        (update s.tasks i (asleep wake_tick (s.tasks i)))
        s.task_count
        s.live_count
        s.capacity
        s.current
unfolding asleep is_unused is_running
asleep-IsTable i wake_tick s v lt u ne =
    put-IsTable i (asleep wake_tick (s.tasks i)) v lt (ground (arith, v.each i lt)) (sym u)
      (λ z. absurd (ne z))

pub sleep_task_until-IsValid :
    (i wake_tick : ℕ) (s : Sched) → IsValid s → IsValid (sleep_task_until i wake_tick s).1
unfolding sleep_task_until
sleep_task_until-IsValid i wake_tick s v =
    if_elim Keeps (i == 0 || not (slot_used i s)) (λ _. v)
      (λ used.
        let (lt, u) = slot_used_lem i s (ground arith) in
        asleep-IsTable i wake_tick s v lt u (ground arith))

pub wake_task-IsValid : (i : ℕ) (s : Sched) → IsValid s → IsValid (wake_task i s).1
unfolding wake_task is_running state_runnable
wake_task-IsValid i s v =
    if_elim Keeps (not (slot_used i s)) (λ _. v)
      (λ used.
        let (lt, u) = slot_used_lem i s (ground arith) in
        if_elim Keeps (is_unused (s.tasks i).state || is_zombie (s.tasks i).state) (λ _. v)
          (λ _. put-IsTable i _ v lt (ground (arith, v.each i lt)) (sym u) (λ _. refl)))

-- Setting the state of any task to any state but "unused" keeps a valid table valid.
pub set_task_state-IsValid :
    (i : ℕ) (state : TaskState) (s : Sched)
    → IsValid s
    → is_unused state ≡ false
    → IsValid (set_task_state i state s).1
unfolding set_task_state is_unused is_running state_runnable granted
set_task_state-IsValid i state s v given =
    if_elim Keeps (not (slot_used i s)) (λ _. v)
      (λ used.
        let (lt, u) = slot_used_lem i s (ground arith) in
        if_elim Keeps (i == 0 && not (state_runnable state)) (λ _. v)
          (λ idle.
            put-IsTable i _ v lt (ground (arith, v.each i lt)) (ground arith) (λ z. ground arith)))

pub sleep_current_until-IsValid :
    (wake_tick : ℕ) (s : Sched) → IsValid s → IsValid (sleep_current_until wake_tick s).1
unfolding sleep_current_until
sleep_current_until-IsValid wake_tick s v =
    if_elim Keeps (s.task_count == 0) (λ _. v)
      (λ _. if_elim Keeps (s.current == 0) (λ _. v) (λ ne. at_entry (s.tasks s.current).entry ne))
  where
    at_entry :
        (entry : Option ℕ)
        → (s.current == 0) ≡ false
        → Keeps (elim entry [
          | none ↦ (false, s)
          | some _ ↦ (
            true,
            put_task s.current
                (asleep wake_tick (s.tasks s.current))
                (record s { reschedule_requested = true }),
          )
        ])
    at_entry none ne = v
    at_entry (some e) ne =
        asleep-IsTable s.current wake_tick s v v.current_in v.current_used (ground arith)

pub sleep_current_ticks-IsValid :
    (ticks now : ℕ) (s : Sched) → IsValid s → IsValid (sleep_current_ticks ticks now s).1
unfolding sleep_current_ticks
sleep_current_ticks-IsValid ticks now s v =
    if_elim Keeps (ticks == 0) (λ _. yield_current-IsValid s v)
      (λ _. sleep_current_until-IsValid (add64 now ticks) s v)

pub sleep_task_ticks-IsValid :
    (i ticks now : ℕ) (s : Sched) → IsValid s → IsValid (sleep_task_ticks i ticks now s).1
unfolding sleep_task_ticks
sleep_task_ticks-IsValid i ticks now s v =
    if_elim Keeps (ticks == 0) (λ _. yield_task-IsValid i s v)
      (λ _. sleep_task_until-IsValid i (add64 now ticks) s v)
