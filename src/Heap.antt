-- ===== src/Heap.antt =====
-- kernel/memory/heap.c: the kernel heap, a doubly linked list of blocks that tile a static arena,
-- with first-fit allocation, splitting, and merging of free neighbours. A pointer into the arena is
-- its offset from the arena's start; the null pointer is `none`. Memory is modelled by the block
-- headers alone: `mem a` is the `struct clks_heap_block` read at offset `a`. What clients store in
-- their payloads is not modelled.
pub mod Cells
pub mod Chain
mod Split
mod Walk
mod Acting
mod Merge
mod Sizes
pub mod Alloc
pub mod Free
mod Tests
use clks.Base.{
  ℕ, zero, suc, ◌+◌, ◌-◌, ◌*◌, ◌/◌, ◌%◌, ◌^◌, Bool, true, false, not, ◌&&◌, Option, none, some,
  List, [], ◌∷◌, ltb, leb, ◌==◌, if◌then◌else◌, add64, sub64, Array, update,
}

-- CLKS_HEAP_ARENA_SIZE
abbrev pub arena_size : ℕ
arena_size = 256 * 1024 * 1024

-- CLKS_HEAP_ALIGN
abbrev pub heap_align : ℕ
heap_align = 16

-- CLKS_HEAP_MAGIC
abbrev pub heap_magic : ℕ
heap_magic = 0x434C454F4E4F534F

-- `sizeof(struct clks_heap_block)` on a 64-bit target: 8 + 4 + 4 (padding) + 8 + 8 + 8
abbrev pub header_size : ℕ
header_size = 40

-- `struct clks_heap_block`
pub record Block : Type 0 where
  pub size : ℕ
  pub is_free : Bool
  pub next : Option ℕ
  pub prev : Option ℕ
  pub magic : ℕ

-- The arena's headers and the file's static state.
pub record Heap : Type 0 where
  pub mem : Array Block
  pub head : Option ℕ
  pub ready : Bool
  pub used_bytes : ℕ
  pub alloc_count : ℕ
  pub free_count : ℕ

-- `struct clks_heap_stats`
pub record Stats : Type 0 where
  pub total_bytes : ℕ
  pub used_bytes : ℕ
  pub free_bytes : ℕ
  pub alloc_count : ℕ
  pub free_count : ℕ

unfoldable pub align_up : ℕ → ℕ
align_up value = add64 value (heap_align - 1) / heap_align * heap_align

-- `p->prev = q` at a pointer that may be null, under the guard `p != CLKS_NULL`.
pub set_prev : Option ℕ → ℕ → Array Block → Array Block
set_prev none q m = m
set_prev (some p) q m = update m p (record (m p) { prev = some q })

pub split_block : ℕ → ℕ → Array Block → Array Block
unfolding set_prev
split_block block need_size m =
    let new_block = add64 (add64 block header_size) need_size in
    let m₁ = update m new_block (record {
      size = sub64 (sub64 (m block).size need_size) header_size;
      is_free = true;
      next = (m block).next;
      prev = some block;
      magic = heap_magic;
    }) in
    let m₂ = set_prev (m₁ block).next new_block m₁ in
    if ltb (m block).size (add64 need_size (header_size + heap_align))
    then m
    else update m₂ block (record (m₂ block) { next = some new_block; size = need_size })

-- `clks_heap_merge_next` behind its first guard, with `next` not null.
pub merge_with : ℕ → ℕ → Array Block → Array Block
merge_with block next m =
    let m₁ = update m block (record (m block) {
      size = add64 (m block).size (add64 header_size (m next).size);
      next = (m next).next;
    }) in
    if not (m next).is_free
    then m
    else if not ((m next).magic == heap_magic)
    then m
    else set_prev (m₁ next).next block m₁

pub merge_next : ℕ → Array Block → Array Block
unfolding merge_with
merge_next block m = elim (m block).next [ none ↦ m | some next ↦ merge_with block next m ]

-- The first header of the arena, and the state after `clks_heap_init`; what the arena held before is
-- cleared.
abbrev pub zero_block : Block
zero_block = record { size = 0; is_free = false; next = none; prev = none; magic = 0 }

pub init : Heap
init = record {
  mem =
      update (λ _. zero_block) 0
        (record {
          size = arena_size - header_size;
          is_free = true;
          next = none;
          prev = none;
          magic = heap_magic;
        });
  head = some 0;
  ready = true;
  used_bytes = 0;
  alloc_count = 0;
  free_count = 0;
}

-- The loop of `clks_kmalloc`, on fuel: the block to hand out, if there is one.
pub find_fit : ℕ → Array Block → ℕ → Option ℕ → Option (Option ℕ)
find_fit zero m aligned_size current = none
find_fit (suc fuel) m aligned_size none = some none
find_fit (suc fuel) m aligned_size (some current) =
    let rest = find_fit fuel m aligned_size (m current).next in
    if not ((m current).magic == heap_magic)
    then some none
    else if (m current).is_free && leb aligned_size (m current).size
    then some (some current)
    else rest

-- The body of the loop of `clks_kmalloc` at the block that fits.
pub take_block : ℕ → ℕ → Heap → Option ℕ × Heap
unfolding split_block
take_block current aligned_size h =
    let m = split_block current aligned_size h.mem in
    (
      some (add64 current header_size),
      record h {
        mem = update m current (record (m current) { is_free = false });
        used_bytes = add64 h.used_bytes (m current).size;
        alloc_count = add64 h.alloc_count 1;
      },
    )

-- More rounds than the arena has room for headers.
abbrev pub walk_fuel : ℕ
walk_fuel = arena_size

pub kmalloc : ℕ → Heap → Option (Option ℕ × Heap)
kmalloc size h =
    if not h.ready
    then some (none, h)
    else if size == 0
    then some (none, h)
    else elim (find_fit walk_fuel h.mem (align_up size) h.head) [
      | none ↦ none
      | some none ↦ some (none, h)
      | some (some current) ↦ some (take_block current (align_up size) h)
    ]

-- The last two steps of `clks_kfree`.
pub merge_neighbours : ℕ → Array Block → Array Block
unfolding merge_next
merge_neighbours block m =
    let m₁ = merge_next block m in
    elim (m₁ block).prev [
      | none ↦ m₁
      | some prev ↦ if (m₁ prev).is_free then merge_next prev m₁ else m₁
    ]

pub kfree : Option ℕ → Heap → Heap
kfree none h = h
kfree (some ptr) h =
    let block = sub64 ptr header_size in
    let b = h.mem block in
    if not h.ready
    then h
    else if not (b.magic == heap_magic)
    then h
    else if b.is_free
    then h
    else record h {
      mem = merge_neighbours block (update h.mem block (record b { is_free = true }));
      used_bytes = if leb b.size h.used_bytes then sub64 h.used_bytes b.size else 0;
      free_count = add64 h.free_count 1;
    }

pub get_stats : Heap → Stats
get_stats h =
    let total_bytes : ℕ = arena_size - header_size in
    record {
      total_bytes = total_bytes;
      used_bytes = h.used_bytes;
      free_bytes = sub64 total_bytes h.used_bytes;
      alloc_count = h.alloc_count;
      free_count = h.free_count;
    }
