-- ===== src/Disk/Init.antt =====
-- kernel/storage/disk/public_api.inc: `clks_disk_init`, as far as the state of Disk goes, and the calls
-- that report on it. What the probe finds, what the heap says to be free, and which request of memory
-- it grants are arguments.
pub mod Buffer
pub mod Sound
use clks.Base.{
  ℕ, zero, suc, ◌+◌, ◌-◌, ◌*◌, ◌/◌, ◌%◌, min, Bool, true, false, ◌||◌, not, Option, none, some, ltb,
  leb, ◌==◌, if◌then◌else◌, Array,
}
use clks.Disk.{Disk, Drive, sector_size, partition_lba, mul64}
use clks.Disk.Cache.{loaded_bitmap_required_bytes, ensure_loaded_range}
use clks.Disk.Layout.{no_layout, parse_fat32_layout}

-- CLKS_DISK_MIN_BYTES, CLKS_DISK_CACHE_MAX_BYTES, CLKS_DISK_ALLOC_RETRY_STEP_BYTES, a multiple of the
-- size of a sector, and CLKS_DISK_HEAP_RESERVE_BYTES
abbrev pub min_bytes : ℕ
min_bytes = (66581 + partition_lba) * 512

abbrev pub cache_max_bytes : ℕ
cache_max_bytes = 256 * 1024 * 1024

abbrev pub retry_step : ℕ
retry_step = 8 * 1024 * 1024

abbrev pub heap_reserve_bytes : ℕ
heap_reserve_bytes = 48 * 1024 * 1024

-- Whole sectors
abbrev pub whole_sectors : ℕ → ℕ
whole_sectors n = n - n % sector_size

-- The loop that asks for less memory each time, on fuel; `grants n size` is the answer to the request
-- `n` of `size` bytes, and `none` that no request was granted.
unfoldable pub alloc_buffer : ℕ → ℕ → (ℕ → ℕ → Bool) → ℕ → Option ℕ
alloc_buffer zero n grants bytes = none
alloc_buffer (suc fuel) n grants bytes =
    let less = if ltb (min_bytes + retry_step) bytes then bytes - retry_step else min_bytes in
    let rest = alloc_buffer fuel (n + 1) grants (whole_sectors less) in
    if ltb bytes min_bytes
    then none
    else if grants n bytes
    then some bytes
    else if bytes == min_bytes
    then none
    else rest

-- The state after the resets at the head of the routine, on its first call
abbrev pub absent : Drive → Disk
absent v = record {
  bytes = λ _. 0;
  has_bytes = false;
  bytes_len = 0;
  sector_total = 0;
  bitmap = λ _. 0;
  has_bitmap = false;
  bitmap_bytes = 0;
  ready = false;
  hw_backed = false;
  fat32 = no_layout;
  alloc_hint = 2;
  drive = v;
}

-- The state with the buffer and the bitmap, both cleared
abbrev pub online : ℕ → Drive → Disk
online cache_bytes v = record {
  bytes = λ _. 0;
  has_bytes = true;
  bytes_len = cache_bytes;
  sector_total = cache_bytes / sector_size;
  bitmap = λ _. 0;
  has_bitmap = true;
  bitmap_bytes = loaded_bitmap_required_bytes (cache_bytes / sector_size);
  ready = true;
  hw_backed = true;
  fat32 = no_layout;
  alloc_hint = 2;
  drive = v;
}

-- From the first read of the boot sector on.
unfoldable pub start : Disk → Disk
start d =
    let (ok, d') = ensure_loaded_range 0 sector_size d in
    if ok then (parse_fat32_layout d').1 else absent d'.drive

-- The part behind the loop. `grants_bitmap` is the answer to the request for the bitmap.
unfoldable pub set_up : Option ℕ → Bool → Drive → Disk
set_up none grants_bitmap v = absent v
set_up (some cache_bytes) grants_bitmap v =
    let bitmap_bytes = loaded_bitmap_required_bytes (cache_bytes / sector_size) in
    if bitmap_bytes == 0
    then absent v
    else if grants_bitmap
    then start (online cache_bytes v)
    else record (absent v) { bitmap_bytes = bitmap_bytes }

-- The bytes that are asked for first
abbrev pub budget : ℕ → ℕ → ℕ
budget detected heap_free =
    whole_sectors
      (min (min (mul64 detected sector_size) cache_max_bytes) (heap_free - heap_reserve_bytes))

-- The tests before the memory is asked for
abbrev pub hopeless : ℕ → ℕ → Bool
hopeless detected heap_free =
    let cache_bytes = mul64 detected sector_size in
    detected == 0
    || not (cache_bytes / sector_size == detected)
    || ltb cache_bytes min_bytes
    || ltb (heap_free - heap_reserve_bytes) min_bytes
    || ltb (budget detected heap_free) min_bytes

unfoldable pub init : Option ℕ → ℕ → (ℕ → ℕ → Bool) → Bool → Drive → Disk
init none heap_free grants grants_bitmap v = absent v
init (some detected) heap_free grants grants_bitmap v =
    let bytes = budget detected heap_free in
    if hopeless detected heap_free
    then absent v
    else set_up (alloc_buffer (suc bytes) 0 grants bytes) grants_bitmap v

present : Disk → Bool
present d = d.ready

size_bytes : Disk → ℕ
size_bytes d = if d.ready then d.bytes_len else 0

sector_count : Disk → ℕ
sector_count d = if d.ready then d.sector_total else 0
