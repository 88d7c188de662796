-- ===== src/Sched/Switching.antt =====
-- Waking, picking, switching and the timer tick of kernel/core/scheduler.c keep the table valid.
use clks.Base.{
  ℕ, zero, suc, ◌+◌, ◌≤◌, ◌<◌, ◌≡◌, refl, arith, true, false, not, ◌||◌, Option, none, some, ltb,
  leb, ◌==◌, if◌then◌else◌, subst, sym, if_elim, find_index, find_index-some,
}
use clks.Sched.{
  TaskState, Task, Sched, is_running, is_unused, is_sleeping, state_runnable, task_runnable,
}
use clks.Sched.Switch.{
  wake_sleeper, wake_from, wake_sleepers, nth_after, next_runnable_task, demote, promote, switch_to,
  account_current_tick, maybe_reschedule, on_timer_tick,
}
use clks.Sched.Invariant.{IsValid, put-IsTable, move-IsTable}

pub wake_sleeper-IsValid :
    (tick i : ℕ) (s : Sched) → IsValid s → i < s.task_count → IsValid (wake_sleeper tick i s)
unfolding wake_sleeper is_unused is_running state_runnable
wake_sleeper-IsValid tick i s v lt =
    if_elim IsValid (not (is_sleeping (s.tasks i).state)) (λ _. v)
      (λ asleep.
        if_elim IsValid (ltb tick (s.tasks i).wake_tick) (λ _. v)
          (λ _. put-IsTable i _ v lt (ground (arith, v.each i lt)) (ground arith) (λ _. refl)))

task_count-wake_sleeper :
    (tick i : ℕ) (s : Sched) → (wake_sleeper tick i s).task_count ≡ s.task_count
unfolding wake_sleeper
task_count-wake_sleeper tick i s = ground arith

wake_from-IsValid :
    (rounds i tick : ℕ) (s : Sched)
    → IsValid s
    → i + rounds ≤ s.task_count
    → IsValid (wake_from rounds i tick s)
unfolding wake_from
wake_from-IsValid zero i tick s v h = v
wake_from-IsValid (suc rounds) i tick s v h =
    wake_from-IsValid rounds (i + 1) tick (wake_sleeper tick i s)
      (wake_sleeper-IsValid tick i s v (omega arith))
      (omega (arith, task_count-wake_sleeper tick i s))

pub wake_sleepers-IsValid : (tick : ℕ) (s : Sched) → IsValid s → IsValid (wake_sleepers tick s)
unfolding wake_sleepers
wake_sleepers-IsValid tick s v = wake_from-IsValid s.task_count 0 tick s v (omega arith)

-- The next task is one of the table.
pub next_runnable_task-lt :
    (from : ℕ) (s : Sched)
    → IsValid s
    → from < s.task_count
    → next_runnable_task from s < s.task_count
unfolding next_runnable_task nth_after
next_runnable_task-lt from s v h = ground (arith, v.fits)

-- On a valid table the task that is picked is ready or running, from wherever the search starts.
pub next_runnable_task-runnable :
    (from : ℕ) (s : Sched)
    → IsValid s
    → state_runnable (s.tasks (next_runnable_task from s)).state ≡ true
unfolding next_runnable_task task_runnable
next_runnable_task-runnable from s v =
    if_elim (λ k. state_runnable (s.tasks k).state ≡ true) (s.task_count == 0) (λ _. v.idle)
      (λ _.
        pick (find_index (λ i. task_runnable (s.tasks (nth_after from i s))) s.task_count 1) refl)
  where
    runs : (t : Task) → task_runnable t ≡ true → state_runnable t.state ≡ true
    runs t h = ground arith

    pick :
        (o : Option ℕ)
        → find_index (λ i. task_runnable (s.tasks (nth_after from i s))) s.task_count 1 ≡ o
        → state_runnable
            (s.tasks (elim o [
              | some i ↦ nth_after from i s
              | none ↦ if task_runnable (s.tasks from) then from else 0
            ])).state
          ≡ true
    pick (some i) e =
        runs (s.tasks (nth_after from i s))
          (find_index-some (λ i. task_runnable (s.tasks (nth_after from i s))) s.task_count 1 i e).0
    pick none e =
        if_elim (λ k. state_runnable (s.tasks k).state ≡ true) (task_runnable (s.tasks from))
          (λ h. runs (s.tasks from) h) (λ _. v.idle)

demote-IsValid : (s : Sched) → IsValid s → IsValid (demote s)
unfolding demote is_unused is_running state_runnable
demote-IsValid s v =
    if_elim IsValid (is_running (s.tasks s.current).state)
      (λ run.
        put-IsTable s.current _ v v.current_in (ground (arith, v.each s.current v.current_in))
          (ground arith) (λ _. refl))
      (λ _. v)

-- What `demote` leaves.
demote_lem :
    (s : Sched)
    → ((demote s).task_count ≡ s.task_count)
      × ((demote s).current ≡ s.current)
      × (is_running ((demote s).tasks s.current).state ≡ false)
unfolding demote
demote_lem s = ground arith

demote-used :
    (s : Sched) (i : ℕ)
    → is_unused (s.tasks i).state ≡ false
    → is_unused ((demote s).tasks i).state ≡ false
unfolding demote is_unused is_running
demote-used s i h = ground arith

promote-IsValid :
    (next : ℕ) (s : Sched)
    → IsValid s
    → next < s.task_count
    → is_unused (s.tasks next).state ≡ false
    → is_running (s.tasks s.current).state ≡ false
    → IsValid (promote next s)
unfolding promote is_unused is_running state_runnable
promote-IsValid next s v lt used quiet =
    put-IsTable next _ (move-IsTable next v lt used quiet) lt (ground (arith, v.each next lt))
      (sym used) (λ _. refl)

-- A switch to a used task keeps the table valid.
pub switch_to-IsValid :
    (next : ℕ) (s : Sched)
    → IsValid s
    → is_unused (s.tasks next).state ≡ false
    → IsValid (switch_to next s)
unfolding switch_to
switch_to-IsValid next s v used =
    if_elim IsValid (s.task_count == 0 || leb s.task_count next) (λ _. v)
      (λ inside.
        if_elim IsValid (next == s.current) (λ _. v)
          (λ other.
            let (count, current, quiet) = demote_lem s in
            promote-IsValid next (demote s) (demote-IsValid s v) (ground arith)
              (demote-used s next used) (rw current quiet)))

pub runnable-used : (t : TaskState) → state_runnable t ≡ true → is_unused t ≡ false
unfolding state_runnable is_unused
runnable-used t h = ground arith

pub account_current_tick-IsValid : (s : Sched) → IsValid s → IsValid (account_current_tick s)
unfolding account_current_tick
account_current_tick-IsValid s v =
    if_elim IsValid (s.task_count == 0) (λ _. v)
      (λ _.
        if_elim IsValid (not (state_runnable (s.tasks s.current).state)) (λ _. v)
          (λ r.
            put-IsTable s.current _ v v.current_in (ground (arith, v.each s.current v.current_in))
              refl (λ z. ground arith)))

pub maybe_reschedule-IsValid : (s : Sched) → IsValid s → IsValid (maybe_reschedule s)
unfolding maybe_reschedule
maybe_reschedule-IsValid s v =
    if_elim IsValid (s.task_count == 0 || not s.reschedule_requested) (λ _. v)
      (λ _.
        switch_to-IsValid (next_runnable_task s.current (record s { reschedule_requested = false }))
          _
          (put-IsTable s.current _ v v.current_in (ground (arith, v.each s.current v.current_in))
            refl (λ z. subst (λ k. state_runnable (s.tasks k).state ≡ true) (sym z) v.idle))
          (ground (arith, picked_used)))
  where
    picked_used :
        is_unused
          (s.tasks (next_runnable_task s.current (record s { reschedule_requested = false }))).state
        ≡ false
    picked_used =
        runnable-used
          (s.tasks (next_runnable_task s.current (record s { reschedule_requested = false }))).state
          (next_runnable_task-runnable s.current (record s { reschedule_requested = false }) v)

-- The timer tick keeps a valid table valid.
pub on_timer_tick-IsValid : (tick : ℕ) (s : Sched) → IsValid s → IsValid (on_timer_tick tick s)
unfolding on_timer_tick
on_timer_tick-IsValid tick s v =
    let w : IsValid (wake_sleepers tick (record s { total_timer_ticks = tick })) =
      wake_sleepers-IsValid tick (record s { total_timer_ticks = tick }) v in
    if_elim IsValid (s.task_count == 0) (λ _. v)
      (λ _.
        if_elim IsValid (wake_sleepers tick (record s { total_timer_ticks = tick })).dispatch_active
          (λ _. w) (λ _. maybe_reschedule-IsValid _ (account_current_tick-IsValid _ w)))
