-- ===== src/Pmm.antt =====
-- kernel/memory/pmm.c: the physical page allocator, a stack of free page frames that is filled from
-- the boot loader's memory map. Addresses are `u64` values; `x & ~(a - 1)` and `x & (a - 1)` are
-- taken at the one alignment the code uses, the page size, a power of two.
pub mod Stack
mod Range
pub mod Init
pub mod Ownership
pub mod Boot
mod Tests
use clks.Base.{
  ℕ, zero, suc, ◌+◌, ◌-◌, ◌*◌, ◌/◌, ◌%◌, Bool, not, Option, none, some, List, [], ◌∷◌, ltb, leb,
  ◌==◌, if◌then◌else◌, add64, sub64, Array, update,
}

-- CLKS_PAGE_SIZE
abbrev pub page_size : ℕ
page_size = 4096

-- CLKS_PMM_MAX_TRACKED_PAGES
abbrev pub max_tracked_pages : ℕ
max_tracked_pages = 262144

-- CLKS_PMM_MIN_USABLE_ADDR
abbrev pub min_usable_addr : ℕ
min_usable_addr = 0x100000

-- LIMINE_MEMMAP_USABLE
abbrev pub memmap_usable : ℕ
memmap_usable = 0

-- The file's static state.
pub record Pmm : Type 0 where
  pub free_stack : Array ℕ
  pub free_top : ℕ
  pub managed_pages : ℕ
  pub dropped_pages : ℕ

-- `struct limine_memmap_entry`
pub record MemmapEntry : Type 0 where
  pub base : ℕ
  pub len : ℕ
  pub kind : ℕ

-- `struct clks_pmm_stats`
pub record Stats : Type 0 where
  pub managed_pages : ℕ
  pub free_pages : ℕ
  pub used_pages : ℕ
  pub dropped_pages : ℕ

pub align_down : ℕ → ℕ
align_down value = value / page_size * page_size

pub align_up : ℕ → ℕ
unfolding align_down
align_up value = align_down (sub64 (add64 value page_size) 1)

-- The body of the inner loop of `clks_pmm_init`.
pub track_page : ℕ → Pmm → Pmm
track_page addr s =
    if ltb addr min_usable_addr
    then s
    else if ltb s.free_top max_tracked_pages
    then record s {
      free_stack = update s.free_stack s.free_top addr;
      free_top = add64 s.free_top 1;
      managed_pages = add64 s.managed_pages 1;
    }
    else record s { dropped_pages = add64 s.dropped_pages 1 }

-- The inner loop, `for (addr = start; addr < end; addr += CLKS_PAGE_SIZE)`, on fuel.
pub track_range : ℕ → ℕ → ℕ → Pmm → Option Pmm
track_range zero addr end s = none
track_range (suc fuel) addr end s =
    let rest = track_range fuel (add64 addr page_size) end (track_page addr s) in
    if ltb addr end then rest else some s

-- The body of the outer loop; a null entry is `none`.
pub track_entry : Option MemmapEntry → Pmm → Option Pmm
unfolding track_range
track_entry none s = some s
track_entry (some entry) s =
    let start = align_up entry.base in
    let end = align_down (add64 entry.base entry.len) in
    if not (entry.kind == memmap_usable)
    then some s
    else if leb end start
    then some s
    else track_range ((end - start) / page_size + 1) start end s

pub track_entries : List (Option MemmapEntry) → Pmm → Option Pmm
track_entries [] s = some s
track_entries (entry ∷ rest) s = elim (track_entry entry s) [
  | none ↦ none
  | some s' ↦ track_entries rest s'
]

-- What `clks_pmm_init` resets.
abbrev pub cleared : Pmm
cleared = record { free_stack = λ _. 0; free_top = 0; managed_pages = 0; dropped_pages = 0 }

-- The memory map is null or an array of `entry_count` pointers.
pub init : Option (List (Option MemmapEntry)) → Option Pmm
init none = some cleared
init (some entries) = track_entries entries cleared

-- The address 0 says that no page is left.
pub alloc_page : Pmm → ℕ × Pmm
alloc_page s =
    let top = sub64 s.free_top 1 in
    if s.free_top == 0 then (0, s) else (s.free_stack top, record s { free_top = top })

pub free_page : ℕ → Pmm → Pmm
free_page phys_addr s =
    if phys_addr == 0
    then s
    else if not (phys_addr % page_size == 0)
    then s
    else if leb max_tracked_pages s.free_top
    then s
    else record s {
      free_stack = update s.free_stack s.free_top phys_addr;
      free_top = add64 s.free_top 1;
    }

pub get_stats : Pmm → Stats
get_stats s = record {
  managed_pages = s.managed_pages;
  free_pages = s.free_top;
  used_pages = sub64 s.managed_pages s.free_top;
  dropped_pages = s.dropped_pages;
}
