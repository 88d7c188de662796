-- ===== src/Sched/Picking.antt =====
-- Which tasks kernel/core/scheduler.c wakes, and which one it picks.
use clks.Base.{
  ◌⊎◌, inl, inr, Option, none, some, ℕ, zero, suc, ◌+◌, ◌%◌, ◌^◌, ◌≤◌, ◌<◌, ◌≡◌, ◌≢◌, refl, arith,
  true, false, ◌&&◌, ltb, leb, ◌==◌, if◌then◌else◌, ℕ_discrete, dec_lt, subst, sym, ap, ◌∙◌,
  if_elim, find_index-first, find_index_absent,
}
use clks.Sched.{
  TaskState, unused, ready, running, blocked, sleeping, waiting_child, blocked_io, stopped, zombie,
  Task, Sched, is_sleeping, state_runnable, task_runnable, put_task,
}
use clks.Sched.Switch.{wake_sleeper, wake_from, wake_sleepers, nth_after, next_runnable_task}

-- A task after the tick `tick`: a sleeper whose time has come is ready, with a full slice.
abbrev pub woken_from : TaskState → ℕ → Task → Task
woken_from sleeping tick task =
    if leb task.wake_tick tick
    then record task { wake_tick = 0; state = ready; remaining_ticks = task.time_slice_ticks }
    else task
woken_from _ tick task = task

abbrev pub woken : ℕ → Task → Task
woken tick task = woken_from task.state tick task

wakes : ℕ → Task → Task
unfolding is_sleeping
wakes tick task =
    if is_sleeping task.state && leb task.wake_tick tick
    then record task { wake_tick = 0; state = ready; remaining_ticks = task.time_slice_ticks }
    else task

wakes-woken :
    (state : TaskState) (tick : ℕ) (task : Task)
    → task.state ≡ state
    → wakes tick task ≡ woken_from state tick task
unfolding wakes is_sleeping
wakes-woken sleeping tick task e = ground (arith, e)
wakes-woken unused tick task e = ground (arith, e)
wakes-woken ready tick task e = ground (arith, e)
wakes-woken running tick task e = ground (arith, e)
wakes-woken blocked tick task e = ground (arith, e)
wakes-woken waiting_child tick task e = ground (arith, e)
wakes-woken blocked_io tick task e = ground (arith, e)
wakes-woken stopped tick task e = ground (arith, e)
wakes-woken zombie tick task e = ground (arith, e)

wake_sleeper_lem :
    (tick i : ℕ) (s : Sched)
    → ((wake_sleeper tick i s).tasks i ≡ woken tick (s.tasks i))
      × ((j : ℕ) → j ≢ i → (wake_sleeper tick i s).tasks j ≡ s.tasks j)
unfolding wake_sleeper wakes is_sleeping put_task
wake_sleeper_lem tick i s =
    let tested : (wake_sleeper tick i s).tasks i ≡ wakes tick (s.tasks i) = ground arith in
    (tested ∙ wakes-woken (s.tasks i).state tick (s.tasks i) refl, λ j ne. ground arith)

-- The loop of `clks_sched_wake_sleepers` from index `i` on.
wake_from_lem :
    (rounds i tick : ℕ) (s : Sched) (j : ℕ)
    → (i ≤ j → j < i + rounds → (wake_from rounds i tick s).tasks j ≡ woken tick (s.tasks j))
      × (j < i → (wake_from rounds i tick s).tasks j ≡ s.tasks j)
      × (i + rounds ≤ j → (wake_from rounds i tick s).tasks j ≡ s.tasks j)
unfolding wake_from
wake_from_lem zero i tick s j = (λ a b. absurd (omega arith), λ a. refl, λ a. refl)
wake_from_lem (suc rounds) i tick s j =
    let (inside, before, after) = wake_from_lem rounds (i + 1) tick (wake_sleeper tick i s) j in
    let (at, other) = wake_sleeper_lem tick i s in
    (
      λ a b. elim (ℕ_discrete j i) [
        | yes same ↦
            before (omega arith)
            ∙ subst (λ k. (wake_sleeper tick i s).tasks k ≡ woken tick (s.tasks k)) (sym same) at
        | no ne ↦ inside (omega arith) (omega arith) ∙ ap (woken tick) (other j ne)
      ],
      λ a. before (omega arith) ∙ other j (omega arith),
      λ a. after (omega arith) ∙ other j (omega arith),
    )

-- `clks_sched_wake_sleepers` wakes the sleepers of the table whose time has come, and changes no other task.
pub wake_sleepers_lem :
    (tick : ℕ) (s : Sched) (j : ℕ)
    → (wake_sleepers tick s).tasks j
      ≡ (if ltb j s.task_count then woken tick (s.tasks j) else s.tasks j)
unfolding wake_sleepers
wake_sleepers_lem tick s j =
    let (inside, before, after) = wake_from_lem s.task_count 0 tick s j in
    elim (dec_lt j s.task_count) [
      | yes lt ↦ inside (omega arith) (omega arith) ∙ ground arith
      | no above ↦ after (omega arith) ∙ ground arith
    ]

-- A task that can be picked: it has an entry point, and is ready or running.
abbrev pub Runs : Task → Type 0
Runs t = (e : ℕ) × (t.entry ≡ some e) × ((t.state ≡ ready) ⊎ (t.state ≡ running))

task_runnable-Runs : (t : Task) → Runs t → task_runnable t ≡ true
unfolding task_runnable state_runnable
task_runnable-Runs t (e, has, inl a) = ground (arith, has, a)
task_runnable-Runs t (e, has, inr b) = ground (arith, has, b)

Runs-task_runnable : (t : Task) → ¬ Runs t → task_runnable t ≡ false
unfolding task_runnable state_runnable
Runs-task_runnable t idle = cases t.entry refl
  where
    state : (e : ℕ) (x : TaskState) → t.entry ≡ some e → t.state ≡ x → state_runnable x ≡ false
    state e ready has is = absurd (idle (e, has, inl is))
    state e running has is = absurd (idle (e, has, inr is))
    state e unused has is = refl
    state e blocked has is = refl
    state e sleeping has is = refl
    state e waiting_child has is = refl
    state e blocked_io has is = refl
    state e stopped has is = refl
    state e zombie has is = refl

    cases :
        (o : Option ℕ)
        → t.entry ≡ o
        → elim o [ none ↦ false | some _ ↦ state_runnable t.state ] ≡ false
    cases none e = refl
    cases (some e) has = state e t.state has refl

-- The scheduler is round robin, where `from` and the length of the table do not add up to 2 ^ 32 or more: if
-- the `j`-th task after `from`, going round the table, is the first that has an entry point and is ready or
-- running, it is the one that is picked.
pub next_runnable_task-first :
    (from j : ℕ) (s : Sched)
    → from + s.task_count < 2 ^ 32
    → 1 ≤ j
    → j ≤ s.task_count
    → Runs (s.tasks ((from + j) % s.task_count))
    → ((k : ℕ) → 1 ≤ k → k < j → ¬ Runs (s.tasks ((from + k) % s.task_count)))
    → next_runnable_task from s ≡ (from + j) % s.task_count
unfolding next_runnable_task
next_runnable_task-first from j s small l h runs first =
    if_elim (λ k. k ≡ (from + j) % s.task_count) (s.task_count == 0) (λ z. absurd (ground arith))
      (λ _.
        rw
          (find_index-first (λ i. task_runnable (s.tasks (nth_after from i s))) s.task_count 1 j
            (subst (λ i. task_runnable (s.tasks i) ≡ true) (sym (place j h))
              (task_runnable-Runs (s.tasks ((from + j) % s.task_count)) runs))
            l (omega arith)
            (λ k a b.
              subst (λ i. task_runnable (s.tasks i) ≡ false) (sym (place k (omega arith)))
                (Runs-task_runnable (s.tasks ((from + k) % s.task_count)) (first k a b))))
          (place j h))
  where
    place : (k : ℕ) → k ≤ s.task_count → nth_after from k s ≡ (from + k) % s.task_count
    place k le = unfold nth_after in ap (λ n. n % s.task_count) (omega arith)

-- If no task of the table is runnable with an entry point, and `from` is in the table, the idle
-- task is picked.
pub next_runnable_task-idle :
    (from : ℕ) (s : Sched)
    → from < s.task_count
    → ((k : ℕ) → k < s.task_count → task_runnable (s.tasks k) ≡ false)
    → next_runnable_task from s ≡ 0
unfolding next_runnable_task
next_runnable_task-idle from s lt quiet =
    if_elim (λ (k : ℕ). k ≡ 0) (s.task_count == 0) (λ _. refl)
      (λ _.
        rw
          (
            find_index_absent (λ i. task_runnable (s.tasks (nth_after from i s))) s.task_count 1
                (λ k a b. quiet (nth_after from k s) (unfold nth_after in omega arith)),
            quiet from lt,
          )
          refl)
