-- ===== src/Pty/Slots.antt =====
-- The table of kernel/runtime/pty.c: its identifiers, reference counts and lookups.
use clks.Base.{
  ℕ, ◌<◌, ◌≡◌, ◌≢◌, arith, true, none, some, ◌==◌, if◌then◌else◌, ap, fun_ext, ◌&&◌, ℕ_discrete,
  update_self, update_ne, u64_mod, find_index, find_index-some, find_index-none, find_index_unique,
}
use clks.Pty.{Slot, Pty, pty_max, find_slot, init, next_ids, set_slot}
use clks.Pty.Ring
use clks.Pty.Ring.{contents}

pub record IsUsed (next : ℕ) (s : Slot) : Type 0 where
  pub non_zero : 0 < s.id
  pub issued : s.id < next
  pub counted : (0 < s.ref_count) × (s.ref_count < u64_mod)

pub record IsTable (p : Pty) : Type 0 where
  pub counter : (0 < p.next_id) × (p.next_id < u64_mod)
  pub rings : (i : ℕ) → i < pty_max → Ring.IsValid (p.slots i)
  pub live : (i : ℕ) → i < pty_max → (p.slots i).used ≡ true → IsUsed p.next_id (p.slots i)
  pub distinct :
      (i j : ℕ)
      → i < pty_max
      → j < pty_max
      → (p.slots i).used ≡ true
      → (p.slots j).used ≡ true
      → (p.slots i).id ≡ (p.slots j).id
      → i ≡ j

-- `clks_pty_init` sets up such a table.
pub init-IsTable : IsTable init
unfolding init
init-IsTable = record {
  counter = omega arith;
  rings = λ i lt. omega arith;
  live = λ i lt u. cc;
  distinct = λ i j lt lt' u u' e. cc;
}

-- What `clks_pty_find_slot` finds.
pub find_slot-some :
    (id i : ℕ) (p : Pty)
    → find_slot id p ≡ some i
    → (i < pty_max) × ((p.slots i).used ≡ true) × ((p.slots i).id ≡ id)
unfolding find_slot
find_slot-some id i p e = elim (ℕ_discrete id 0) [
  | yes z ↦ ground arith
  | no ne ↦
      let hit =
        find_index-some (λ k. (p.slots k).used && (p.slots k).id == id) pty_max 0 i
          (ground arith) in
      ground (arith, hit)
]

pub find_slot-none :
    (id : ℕ) (p : Pty)
    → find_slot id p ≡ none
    → id ≢ 0
    → (i : ℕ) → i < pty_max
    → (p.slots i).used ≡ true
    → (p.slots i).id ≢ id
unfolding find_slot
find_slot-none id p e ne i lt u same =
    let miss =
      find_index-none (λ k. (p.slots k).used && (p.slots k).id == id) pty_max 0 (ground arith) i
        (omega arith) (omega arith) in
    ground arith

pub find_slot_used :
    {p : Pty} (i : ℕ)
    → IsTable p
    → i < pty_max
    → (p.slots i).used ≡ true
    → find_slot (p.slots i).id p ≡ some i
unfolding find_slot
find_slot_used {p} i t lt u = ground (arith, found, t.live i lt u)
  where
    found :
        find_index (λ k. (p.slots k).used && (p.slots k).id == (p.slots i).id) pty_max 0 ≡ some i
    found =
        find_index_unique (λ k. (p.slots k).used && (p.slots k).id == (p.slots i).id) pty_max 0 i
          (ground arith) (omega arith) (omega arith)
          (λ k l h hit. t.distinct k i (omega arith) lt (ground arith) u (ground arith))

-- Replacing a used slot by one with the same identifier keeps the table.
pub set_slot-IsTable :
    {p : Pty} (i : ℕ) (slot : Slot)
    → IsTable p
    → i < pty_max
    → (p.slots i).used ≡ true
    → slot.id ≡ (p.slots i).id
    → (0 < slot.ref_count) × (slot.ref_count < u64_mod)
    → Ring.IsValid slot
    → IsTable (set_slot i slot p)
unfolding set_slot
set_slot-IsTable {p} i slot t lt u same refs ring = record {
  counter = t.counter;
  rings = λ j lt'. elim (ℕ_discrete j i) [
    | yes e ↦ rw (e, update_self p.slots i slot) ring
    | no ne ↦ rw (update_ne p.slots i j slot ne) (t.rings j lt')
  ];
  live = λ j lt' u'. ground (arith, t.live i lt u, t.live j lt');
  distinct =
      λ j k lt' lt'' u' u'' e. ground (arith, t.distinct j k, t.distinct i k, t.distinct j i);
}

find_slot_ext :
    (id : ℕ) (p q : Pty)
    → ((i : ℕ)
        → ((p.slots i).used && (p.slots i).id == id) ≡ ((q.slots i).used && (q.slots i).id == id))
    → find_slot id p ≡ find_slot id q
unfolding find_slot
find_slot_ext id p q h = ap (λ f. if id == 0 then none else find_index f pty_max 0) (fun_ext h)

-- Lookups stay as they were when the new slot is used as before and keeps its identifier.
pub find_slot-set_slot :
    (id i : ℕ) (slot : Slot) (p : Pty)
    → slot.used ≡ (p.slots i).used
    → slot.id ≡ (p.slots i).id
    → find_slot id (set_slot i slot p) ≡ find_slot id p
unfolding set_slot
find_slot-set_slot id i slot p u e = find_slot_ext id (set_slot i slot p) p (λ j. ground arith)

-- The counter never hands out 0.
pub next_ids_pos : (n : ℕ) → n < u64_mod → (0 < (next_ids n).0) × (0 < (next_ids n).1)
unfolding next_ids
next_ids_pos n h = ground arith
