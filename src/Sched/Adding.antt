-- ===== src/Sched/Adding.antt =====
-- Adding a task in kernel/core/scheduler.c keeps the table valid.
use clks.Base.{
  ◌⊎◌, inl, inr, ◌≢◌, false, ◌∙◌, sym, dec_lt, ℕ, suc, ◌+◌, ◌-◌, ◌≤◌, ◌<◌, ◌≡◌, refl, arith, Bool,
  true, ◌&&◌, not, Option, none, some, ◌==◌, add32, u32_mod, Array, update, update_self, update_ne,
  ℕ_discrete, subst, if_elim, find_index, find_index-some,
}
use clks.Strings.Texts.{EndsAt, copy_text-inside}
use clks.Sched.{
  TaskState, unused, ready, running, blocked, sleeping, waiting_child, blocked_io, stopped, zombie,
  Task, Sched, is_running, is_unused, state_runnable, put_task,
}
use clks.Sched.Table.{
  Allocator, u32_max, reserve_tasks, append_slot, find_free_task_slot, copy_name, new_task,
  add_task_internal,
}
use clks.Sched.Invariant.{
  IsTask, IsTable, IsValid, used_count, used_count-update, used_count-update_above, used_count-le,
}
use clks.Sched.Growth.{reserve_tasks_lem}

-- A descriptor that is ready and has a slice can stand in any slot.
new_task-IsTask :
    (current i slice : ℕ) (name : Array ℕ) (entry : Option ℕ)
    → IsTask current i (new_task i name slice entry)
unfolding new_task is_running
new_task-IsTask current i slice name entry = record {
  id = refl;
  slice = λ _. ground arith;
  left = omega arith;
  alone = λ e. cc;
}

new_task-runnable :
    (i slice : ℕ) (name : Array ℕ) (entry : Option ℕ)
    → state_runnable (new_task i name slice entry).state ≡ true
unfolding new_task state_runnable
new_task-runnable i slice name entry = refl

-- Filling a slot that was unused.
reused-IsTable :
    (i : ℕ) (t : Task) (s : Sched)
    → IsValid s
    → i < s.task_count
    → is_unused (s.tasks i).state ≡ true
    → IsTask s.current i t
    → state_runnable t.state ≡ true
    → IsTable s.table (update s.tasks i t) s.task_count (add32 s.live_count 1) s.capacity s.current
unfolding is_unused state_runnable
reused-IsTable i t s v lt free task runs = record {
  allocated = v.allocated;
  fits = v.fits;
  current_in = v.current_in;
  current_used = ground (arith, v.current_used);
  idle = ground (arith, v.idle);
  each = λ j lt'. elim (ℕ_discrete j i) [
    | yes e ↦ rw (e, update_self s.tasks i t) task
    | no ne ↦ rw (update_ne s.tasks i j t ne) (v.each j lt')
  ];
  counted = ground (
    arith,
    v.counted,
    v.fits,
    used_count-update s.task_count i s.tasks t lt,
    used_count-le s.task_count (update s.tasks i t),
  );
}

-- Filling the slot after the last one, when there is room.
appended-IsTable :
    (t : Task) (s : Sched)
    → IsValid s
    → s.task_count + 1 ≤ s.capacity
    → IsTask s.current s.task_count t
    → state_runnable t.state ≡ true
    → IsTable s.table
        (update s.tasks s.task_count t)
        (add32 s.task_count 1)
        (add32 s.live_count 1)
        s.capacity
        s.current
unfolding is_unused state_runnable
appended-IsTable t s v le task runs =
    subst
      (λ n.
        IsTable s.table (update s.tasks s.task_count t) n (add32 s.live_count 1) s.capacity
          s.current)
      (omega (arith, v.fits))
      (record {
        allocated = v.allocated;
        fits = omega (arith, v.fits);
        current_in = omega (arith, v.current_in);
        current_used = ground (arith, v.current_used, v.current_in);
        idle = ground (arith, v.idle);
        each = λ j lt'. elim (ℕ_discrete j s.task_count) [
          | yes e ↦ rw (e, update_self s.tasks s.task_count t) task
          | no ne ↦ rw (update_ne s.tasks s.task_count j t ne) (v.each j (omega arith))
        ];
        counted = counts;
      })
  where
    counts : add32 s.live_count 1 ≡ used_count (suc s.task_count) (update s.tasks s.task_count t)
    counts =
        unfold used_count in
        ground (
          arith,
          v.counted,
          v.fits,
          used_count-update_above s.task_count s.task_count s.tasks t (omega arith),
          used_count-le s.task_count s.tasks,
        )

-- The name of a new task is the text it is given, if that fits.
new_task-name :
    (i slice n k : ℕ) (name : Array ℕ) (entry : Option ℕ)
    → EndsAt name n
    → n < 32
    → k ≤ n
    → (new_task i name slice entry).name k ≡ name k
unfolding new_task copy_name
new_task-name i slice n k name entry t lt le =
    (copy_text-inside 31 0 n name (λ _. 0) t (omega arith) (omega arith) k).0 (omega arith) le

-- What a new task is: it stands at the slot that is its number, is ready, has a full slice of at least one
-- tick, the entry point and the name it is given, and nothing is counted yet.
pub record IsNew (i slice : ℕ) (name : Array ℕ) (entry : Option ℕ) (t : Task) : Type 0 where
  pub id : t.id ≡ i
  pub state : t.state ≡ ready
  pub slice_given : 0 < slice → t.time_slice_ticks ≡ slice
  pub slice_least : slice ≡ 0 → t.time_slice_ticks ≡ 1
  pub left : t.remaining_ticks ≡ t.time_slice_ticks
  pub entry_given : t.entry ≡ entry
  pub named : (n : ℕ) → EndsAt name n → n < 32 → (k : ℕ) → k ≤ n → t.name k ≡ name k
  pub fresh : (t.total_ticks ≡ 0) × (t.switch_count ≡ 0) × (t.run_count ≡ 0) × (t.wake_tick ≡ 0)

new_task-IsNew :
    (i slice : ℕ) (name : Array ℕ) (entry : Option ℕ)
    → IsNew i slice name entry (new_task i name slice entry)
new_task-IsNew i slice name entry = record {
  id = unfold new_task in refl;
  state = unfold new_task in refl;
  slice_given = λ h. unfold new_task in ground arith;
  slice_least = λ h. unfold new_task in ground arith;
  left = unfold new_task in refl;
  entry_given = unfold new_task in refl;
  named = λ n t lt k le. new_task-name i slice n k name entry t lt le;
  fresh = unfold new_task in (refl, refl, refl, refl);
}

unused_state : (x : TaskState) → is_unused x ≡ true → x ≡ unused
unfolding is_unused
unused_state unused e = refl
unused_state ready e = absurd (cc e)
unused_state running e = absurd (cc e)
unused_state blocked e = absurd (cc e)
unused_state sleeping e = absurd (cc e)
unused_state waiting_child e = absurd (cc e)
unused_state blocked_io e = absurd (cc e)
unused_state stopped e = absurd (cc e)
unused_state zombie e = absurd (cc e)

module _ (mem : Allocator) where
  open mem use {Store}

  -- A slot can be filled with any descriptor that is fit for it.
  abbrev Fillable : ℕ → Sched → Type 0
  Fillable i s =
      (t : Task)
      → IsTask s.current i t
      → state_runnable t.state ≡ true
      → IsTable s.table (update s.tasks i t) s.task_count (add32 s.live_count 1) s.capacity
          s.current

  -- A slot that no task stands in: it is unused, or behind the last one.
  abbrev pub Free : ℕ → Sched → Type 0
  Free i s = (s.task_count ≤ i) ⊎ ((s.tasks i).state ≡ unused)

  -- What `find_free_task_slot` gives: a slot that can be filled, or a valid table. It gives a slot if the table
  -- has room.
  abbrev Slot : Sched → Option ℕ × Sched × Store → Type 0
  Slot s r =
      (r.1.live_count ≡ s.live_count)
      × ((j : ℕ) → j < s.task_count → r.1.tasks j ≡ s.tasks j)
      × (s.task_count < s.capacity → r.0 ≢ none)
      × elim r.0 [
        | none ↦ IsValid r.1
        | some i ↦ Fillable i r.1 × (s.live_count + 1 < u32_mod) × Free i s
      ]

  append_slot_lem : (s : Sched) (h : Store) → IsValid s → Slot s (append_slot mem s h)
  unfolding append_slot
  append_slot_lem s h v =
      if_elim (Slot s) (s.task_count == u32_max)
        (λ full. (refl, λ j a. refl, λ c. absurd (ground (arith, v.fits)), v))
        (λ low.
          let (valid, count, live, room, kept, grows) =
            reserve_tasks_lem mem (add32 s.task_count 1) s h v (ground (arith, v.fits))
              (omega arith) in
          if_elim (Slot s) (reserve_tasks mem (add32 s.task_count 1) s h).0
            (λ grown. (
              live,
              kept,
              λ c e. cc e,
              (
                λ t task runs.
                    appended-IsTable t (reserve_tasks mem (add32 s.task_count 1) s h).1 valid
                      (ground (arith, room grown, v.fits)) task runs,
                ground (arith, v.fits, v.counted, used_count-le s.task_count s.tasks),
                inl (omega (arith, count)),
              ),
            ))
            (λ refused. (live, kept, λ c. absurd (cc (refused, grows (omega arith))), valid)))

  find_free_task_slot_lem :
      (s : Sched) (h : Store) → IsValid s → Slot s (find_free_task_slot mem s h)
  unfolding find_free_task_slot
  find_free_task_slot_lem s h v =
      found (find_index (λ i. is_unused (s.tasks i).state) (s.task_count - 1) 1) refl
    where
      has_room :
          (i : ℕ)
          → is_unused (s.tasks i).state ≡ true
          → i < s.task_count
          → s.live_count + 1 < u32_mod
      has_room i free lt =
          unfold is_unused state_runnable in
          ground (
            arith,
            v.counted,
            v.fits,
            used_count-update s.task_count i s.tasks (new_task i (λ _. 0) 1 none) lt,
            used_count-le s.task_count (update s.tasks i (new_task i (λ _. 0) 1 none)),
            new_task-runnable i 1 (λ _. 0) none,
          )

      found :
          (o : Option ℕ)
          → find_index (λ i. is_unused (s.tasks i).state) (s.task_count - 1) 1 ≡ o
          → Slot s (elim o [ some i ↦ (some i, s, h) | none ↦ append_slot mem s h ])
      found none e = append_slot_lem s h v
      found (some i) e =
          let (free, above, below, first) =
            find_index-some (λ i. is_unused (s.tasks i).state) (s.task_count - 1) 1 i e in
          (
            refl,
            λ j a. refl,
            λ c e. cc e,
            (
              λ t task runs. reused-IsTable i t s v (omega arith) free task runs,
              has_room i free (omega arith),
              inr (unused_state (s.tasks i).state free),
            ),
          )

  -- What adding a task to a table promises. If it fails, the number of live tasks is as before, and that
  -- happens only without a name, before the scheduler is online, or if the table is full. Otherwise the task
  -- stands as a new one at a slot where none stood, and one more slot is in use. The other tasks stay as they
  -- are.
  abbrev pub Added :
      Option (Array ℕ) → ℕ → Option ℕ → Bool → Sched → Option ℕ × Sched × Store → Type 0
  Added name slice entry early s r = IsValid r.1 × elim r.0 [
    | none ↦
        (r.1.live_count ≡ s.live_count)
        × ((j : ℕ) → j < s.task_count → r.1.tasks j ≡ s.tasks j)
        × ((name ≡ none) ⊎ ((early ≡ false) × (s.online ≡ false)) ⊎ (s.capacity ≤ s.task_count))
    | some i ↦
        (r.1.live_count ≡ s.live_count + 1)
        × Free i s
        × ((text : Array ℕ) × (name ≡ some text) × IsNew i slice text entry (r.1.tasks i))
        × ((j : ℕ) → j < s.task_count → j ≢ i → r.1.tasks j ≡ s.tasks j)
  ]

  pub add_task_internal_lem :
      (name : Option (Array ℕ)) (slice : ℕ) (entry : Option ℕ) (early : Bool) (s : Sched)
      (h : Store)
      → IsValid s
      → Added name slice entry early s (add_task_internal mem name slice entry early s h)
  unfolding add_task_internal
  add_task_internal_lem none slice entry early s h v = (v, (refl, λ j a. refl, inl refl))
  add_task_internal_lem (some name) slice entry early s h v =
      if_elim (Added (some name) slice entry early s) (not early && not s.online)
        (λ off. (v, (refl, λ j a. refl, inr (inl (off_line early s.online off)))))
        (λ _. placed (find_free_task_slot mem s h) (find_free_task_slot_lem s h v))
    where
      off_line : (a b : Bool) → not a && not b ≡ true → (a ≡ false) × (b ≡ false)
      off_line a b e = (ground arith, ground arith)

      full :
          (c : Option ℕ)
          → (s.task_count < s.capacity → c ≢ none)
          → c ≡ none
          → s.capacity ≤ s.task_count
      full c works e = elim (dec_lt s.task_count s.capacity) [
        | yes lt ↦ absurd (works lt e)
        | no ge ↦ omega arith
      ]

      placed :
          (r : Option ℕ × Sched × Store)
          → Slot s r
          → Added (some name) slice entry early s (elim r.0 [
            | none ↦ (none, r.1, r.2)
            | some i ↦ (
              some i,
              put_task i
                  (new_task i name slice entry)
                  (record r.1 { live_count = add32 r.1.live_count 1 }),
              r.2,
            )
          ])
      placed (none, s', h') (live, kept, found, valid) =
          (valid, (live, kept, inr (inr (full none found refl))))
      placed (some i, s', h') (live, kept, found, (fill, room, free)) = (
        fill (new_task i name slice entry) (new_task-IsTask s'.current i slice name entry)
            (new_task-runnable i slice name entry),
        (
          omega (arith, room),
          free,
          (
            name,
            refl,
            subst (IsNew i slice name entry)
                (sym (update_self s'.tasks i (new_task i name slice entry)))
                (new_task-IsNew i slice name entry),
          ),
          λ j a ne. update_ne s'.tasks i j (new_task i name slice entry) ne ∙ kept j a,
        ),
      )
