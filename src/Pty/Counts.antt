-- ===== src/Pty/Counts.antt =====
-- Allocation and reference counts in kernel/runtime/pty.c.
use clks.Base.{
  ℕ, ◌+◌, ◌<◌, ◌≡◌, ◌≢◌, arith, true, false, none, some, [], ◌⊎◌, inl, inr, ap, subst, not,
  ℕ_discrete, update, update_self, update_ne, u64_mod, Option-cases, find_index, find_index-some,
  find_index-none,
}
use clks.Pty.{Slot, Pty, pty_max, zero_slot, find_slot, alloc, next_ids}
use clks.Pty.Ring.{contents}
use clks.Pty.Slots.{IsTable, find_slot-some, find_slot_used}

-- The slot that `clks_pty_alloc` hands out.
abbrev new_slot : ℕ → Slot
new_slot id = record zero_slot { used = true; id = id; ref_count = 1 }

-- The two cases of `clks_pty_alloc` before its counter wraps.
alloc-full : (p : Pty) → find_index (λ i. not (p.slots i).used) pty_max 0 ≡ none → alloc p ≡ (0, p)
unfolding alloc
alloc-full p e = ground arith

alloc-some :
    (p : Pty) (i : ℕ)
    → find_index (λ i. not (p.slots i).used) pty_max 0 ≡ some i
    → 0 < p.next_id
    → p.next_id + 1 < u64_mod
    → alloc p ≡ (
      p.next_id,
      record { slots = update p.slots i (new_slot p.next_id); next_id = p.next_id + 1 },
    )
unfolding alloc next_ids
alloc-some p i e h k = ground arith

-- Filling an unused slot with a fresh identifier keeps the table.
filled-IsTable :
    {p : Pty} (i : ℕ)
    → IsTable p
    → i < pty_max
    → (p.slots i).used ≡ false
    → p.next_id + 1 < u64_mod
    → IsTable (record { slots = update p.slots i (new_slot p.next_id); next_id = p.next_id + 1 })
filled-IsTable {p} i t lt free room = record {
  counter = omega (arith, t.counter);
  rings = λ j lt'. elim (ℕ_discrete j i) [
    | yes e ↦ rw (e, update_self p.slots i (new_slot p.next_id)) (omega arith)
    | no ne ↦ rw (update_ne p.slots i j (new_slot p.next_id) ne) (t.rings j lt')
  ];
  live = λ j lt' u'. ground (arith, t.live j lt', t.counter);
  distinct = λ j k lt' lt'' u' u'' e. ground (arith, t.distinct j k, t.live j lt', t.live k lt'');
}

-- `clks_pty_alloc`, before its counter wraps: with no unused slot it returns 0 and changes nothing;
-- otherwise it returns an identifier that no used slot has, which is found afterwards, at a slot
-- that was unused, holding no byte and one reference, and leaves the other slots as they were.
pub alloc_lem :
    {p : Pty}
    → IsTable p
    → p.next_id + 1 < u64_mod
    → (((i : ℕ) → i < pty_max → (p.slots i).used ≡ true) × (alloc p ≡ (0, p)))
      ⊎ ((i : ℕ) × (i < pty_max)
          × ((p.slots i).used ≡ false)
          × (find_slot (alloc p).0 p ≡ none)
          × (find_slot (alloc p).0 (alloc p).1 ≡ some i)
          × (contents ((alloc p).1.slots i) ≡ [])
          × (((alloc p).1.slots i).ref_count ≡ 1)
          × ((j : ℕ) → j ≢ i → (alloc p).1.slots j ≡ p.slots j)
          × IsTable (alloc p).1)
unfolding contents
alloc_lem {p} t room = elim (Option-cases (find_index (λ i. not (p.slots i).used) pty_max 0)) [
  | inl e ↦ inl (
    λ i lt. ground (
      arith,
      find_index-none (λ i. not (p.slots i).used) pty_max 0 e i (omega arith) (omega arith),
    ),
    alloc-full p e,
  )
  | inr (i, e) ↦
      let hit = find_index-some (λ i. not (p.slots i).used) pty_max 0 i e in
      let free : (p.slots i).used ≡ false = ground arith in
      let t' = filled-IsTable i t (omega arith) free room in
      rw (alloc-some p i e t.counter.0 room) (
        inr (
          i,
          omega arith,
          free,
          fresh,
          subst
              (λ k.
                find_slot k (record {
                  slots = update p.slots i (new_slot p.next_id);
                  next_id = p.next_id + 1;
                })
                ≡ some i)
              (ap (λ s. Slot.id s) (update_self p.slots i (new_slot p.next_id)))
              (find_slot_used i t' (omega arith)
                (ap (λ s. s.used) (update_self p.slots i (new_slot p.next_id)))),
          rw (update_self p.slots i (new_slot p.next_id)),
          rw (update_self p.slots i (new_slot p.next_id)),
          λ j ne. update_ne p.slots i j (new_slot p.next_id) ne,
          t',
        ))
]
  where
    fresh : find_slot p.next_id p ≡ none
    fresh = elim (Option-cases (find_slot p.next_id p)) [
      | inl e ↦ e
      | inr (i, e) ↦
          let hit = find_slot-some p.next_id i p e in absurd (omega (arith, t.live i hit.0 hit.1))
    ]
