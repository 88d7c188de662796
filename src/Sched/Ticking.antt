-- ===== src/Sched/Ticking.antt =====
-- What the timer tick of kernel/core/scheduler.c does to the tasks that it does not switch.
use clks.Base.{ℕ, ◌≡◌, ◌≢◌}
use clks.Sched.{Sched}

-- A step that changes no task but the current one and the one that becomes it.
record Spares (s t : Sched) : Type 0 where
  others : (j : ℕ) → j ≢ s.current → j ≢ t.current → t.tasks j ≡ s.tasks j
