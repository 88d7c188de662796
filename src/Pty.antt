-- ===== src/Pty.antt =====
-- kernel/runtime/pty.c: sixteen reference-counted byte pipes, each a ring of 8192 bytes that drops
-- its oldest byte when it is full. A function that changes the static table returns the new one.
pub mod Ring
pub mod Slots
pub mod Counts
pub mod Lifetime
pub mod Transfer
mod Tests
use clks.Base.{
  ℕ, zero, suc, ◌+◌, ◌-◌, ◌%◌, Bool, true, false, not, ◌&&◌, Option, none, some, List, [], ◌∷◌, ltb,
  ◌==◌, if◌then◌else◌, add64, sub64, u64_mod, Array, update, find_index, length,
}

-- CLKS_PTY_MAX
abbrev pub pty_max : ℕ
pty_max = 16

-- CLKS_PTY_BUFFER_SIZE
abbrev pub buffer_size : ℕ
buffer_size = 8192

-- `struct clks_pty_slot`
pub record Slot : Type 0 where
  pub used : Bool
  pub id : ℕ
  pub ref_count : ℕ
  pub buffer : Array ℕ
  pub read_pos : ℕ
  pub write_pos : ℕ
  pub count : ℕ

-- The file's static state.
pub record Pty : Type 0 where
  pub slots : Array Slot
  pub next_id : ℕ

-- A slot after `clks_memset(..., 0, ...)`.
abbrev pub zero_slot : Slot
zero_slot = record {
  used = false;
  id = 0;
  ref_count = 0;
  buffer = λ _. 0;
  read_pos = 0;
  write_pos = 0;
  count = 0;
}

-- `(u64)-1`
abbrev pub failed : ℕ
failed = u64_mod - 1

-- The index -1 is `none`.
pub find_slot : ℕ → Pty → Option ℕ
find_slot pty_id p =
    if pty_id == 0
    then none
    else find_index (λ i. (p.slots i).used && (p.slots i).id == pty_id) pty_max 0

pub init : Pty
init = record { slots = λ _. zero_slot; next_id = 1 }

-- The identifier that the next slot gets, and the counter after it.
pub next_ids : ℕ → ℕ × ℕ
next_ids id =
    let next = add64 id 1 in
    let next' : ℕ = if next == 0 then 1 else next in
    if id == 0 then (next', add64 next' 1) else (id, next')

pub alloc : Pty → ℕ × Pty
alloc p = elim (find_index (λ i. not (p.slots i).used) pty_max 0) [
  | none ↦ (0, p)
  | some i ↦
      let (id, next) = next_ids p.next_id in
      (
        id,
        record {
          slots = update p.slots i (record zero_slot { used = true; id = id; ref_count = 1 });
          next_id = next;
        },
      )
]

pub set_slot : ℕ → Slot → Pty → Pty
set_slot i slot p = record p { slots = update p.slots i slot }

pub retain : ℕ → Pty → Bool × Pty
retain pty_id p = elim (find_slot pty_id p) [
  | none ↦ (false, p)
  | some i ↦
      let slot = p.slots i in
      if slot.ref_count == u64_mod - 1
      then (false, p)
      else (true, set_slot i (record slot { ref_count = add64 slot.ref_count 1 }) p)
]

pub release : ℕ → Pty → Pty
release pty_id p = elim (find_slot pty_id p) [
  | none ↦ p
  | some i ↦
      let slot = p.slots i in
      if ltb 1 slot.ref_count
      then set_slot i (record slot { ref_count = sub64 slot.ref_count 1 }) p
      else set_slot i zero_slot p
]

-- One round of the loop of `clks_pty_read` after the byte is copied.
pub drop_oldest : Slot → Slot
drop_oldest slot = record slot {
  read_pos = (slot.read_pos + 1) % buffer_size;
  count = sub64 slot.count 1;
}

-- The loop of `clks_pty_read` with `size - read_count` rounds left; the list is what it copies out.
pub read_loop : ℕ → Slot → List ℕ × Slot
unfolding drop_oldest
read_loop zero slot = ([], slot)
read_loop (suc rounds) slot =
    let (rest, slot') = read_loop rounds (drop_oldest slot) in
    if ltb 0 slot.count then (slot.buffer slot.read_pos ∷ rest, slot') else ([], slot)

-- One round of the loop of `clks_pty_write`.
pub write_byte : ℕ → Slot → Slot
unfolding drop_oldest
write_byte byte slot =
    let s : Slot = if slot.count == buffer_size then drop_oldest slot else slot in
    record s {
      buffer = update s.buffer s.write_pos byte;
      write_pos = (s.write_pos + 1) % buffer_size;
      count = add64 s.count 1;
    }

-- The loop of `clks_pty_write` over `src[i..)` with `rounds` bytes left.
pub write_loop : Array ℕ → ℕ → ℕ → Slot → Slot
write_loop src zero i slot = slot
write_loop src (suc rounds) i slot = write_loop src rounds (i + 1) (write_byte (src i) slot)

-- The result and the bytes stored through `out_buffer`; the first argument says if it is null.
pub read : Bool → ℕ → ℕ → Pty → ℕ × List ℕ × Pty
read null pty_id size p =
    if null && not (size == 0)
    then (failed, [], p)
    else if size == 0
    then (0, [], p)
    else elim (find_slot pty_id p) [
      | none ↦ (failed, [], p)
      | some i ↦
          let (bytes, slot) = read_loop size (p.slots i) in (length bytes, bytes, set_slot i slot p)
    ]

pub write : Option (Array ℕ) → ℕ → ℕ → Pty → ℕ × Pty
write none pty_id size p = if size == 0 then (0, p) else (failed, p)
write (some src) pty_id size p = if size == 0 then (0, p) else elim (find_slot pty_id p) [
  | none ↦ (failed, p)
  | some i ↦ (size, set_slot i (write_loop src size 0 (p.slots i)) p)
]
