-- ===== src/Disk/Cache.antt =====
-- kernel/storage/disk/cache_io.inc: the sectors of the drive that the buffer holds, loading them on
-- demand and writing them back. A loop over batches runs on fuel, one round for each sector at most;
-- out of fuel it answers whether it had reached its end, which Disk/Cache/Presence proves it has.
pub mod Batches
mod Bits
mod Marks
pub mod Loading
pub mod Presence
pub mod Writing
pub mod Storing
pub mod Coherence
use clks.Base.{
  ℕ, zero, suc, ◌+◌, ◌-◌, ◌*◌, ◌/◌, ◌%◌, min, Bool, true, false, ◌&&◌, ◌||◌, not, ltb, leb, ◌==◌,
  if◌then◌else◌, Array, update, add64,
}
use clks.Disk.{
  Disk, sector_size, batch_sectors, ata_read_sectors_hw, ata_write_sectors_hw, ata_cache_flush_hw,
}

-- `(byte & (1 << k)) != 0` and `byte | (1 << k)`
unfoldable pub test_bit : ℕ → ℕ → Bool
test_bit zero byte = byte % 2 == 1
test_bit (suc k) byte = test_bit k (byte / 2)

unfoldable pub set_bit : ℕ → ℕ → ℕ
set_bit zero byte = if byte % 2 == 1 then byte else byte + 1
set_bit (suc k) byte = byte % 2 + 2 * set_bit k (byte / 2)

unfoldable pub bytes_range_valid : ℕ → ℕ → Disk → Bool
bytes_range_valid offset size d =
    if not d.has_bytes || d.bytes_len == 0
    then false
    else if ltb d.bytes_len offset
    then false
    else leb size (d.bytes_len - offset)

unfoldable pub loaded_bitmap_required_bytes : ℕ → ℕ
loaded_bitmap_required_bytes sector_count = add64 sector_count 7 / 8

unfoldable pub loaded_test : ℕ → Disk → Bool
loaded_test lba d =
    if not d.has_bitmap || d.bitmap_bytes == 0
    then false
    else if leb d.bitmap_bytes (lba / 8)
    then false
    else test_bit (lba % 8) (d.bitmap (lba / 8))

-- The loop of `clks_disk_loaded_mark_range`.
unfoldable pub mark_from : ℕ → ℕ → ℕ → Array ℕ → Array ℕ
mark_from zero lba bitmap_bytes bitmap = bitmap
mark_from (suc rounds) lba bitmap_bytes bitmap =
    let marked = update bitmap (lba / 8) (set_bit (lba % 8) (bitmap (lba / 8))) in
    let rest = mark_from rounds (lba + 1) bitmap_bytes marked in
    if leb bitmap_bytes (lba / 8) then bitmap else rest

unfoldable pub loaded_mark_range : ℕ → ℕ → Disk → Disk
loaded_mark_range start_lba sector_count d =
    let skips = not d.has_bitmap || d.bitmap_bytes == 0 || sector_count == 0 in
    let marked = mark_from sector_count start_lba d.bitmap_bytes d.bitmap in
    record d { bitmap = if skips then d.bitmap else marked }

-- The inner loop of `clks_disk_ensure_loaded_range`: the sectors from `lba` on that are not loaded,
-- at most `rounds`.
unfoldable pub batch_from : ℕ → ℕ → Disk → ℕ
batch_from zero lba d = 0
batch_from (suc rounds) lba d =
    let rest = batch_from rounds (lba + 1) d in if loaded_test lba d then 0 else suc rest

-- A batch that the drive was asked for: on success its sectors are marked.
unfoldable pub load_batch : ℕ → ℕ → Disk → Bool × Disk
load_batch lba count d =
    let (ok, bytes, drive) = ata_read_sectors_hw lba count (lba * sector_size) d.bytes d.drive in
    let filled = record d { bytes = bytes; drive = drive } in
    if ok then (true, loaded_mark_range lba count filled) else (false, filled)

-- The outer loop.
unfoldable pub load_from : ℕ → ℕ → ℕ → Disk → Bool × Disk
load_from zero lba end_lba d = (leb end_lba lba, d)
load_from (suc fuel) lba end_lba d =
    let skip = load_from fuel (lba + 1) end_lba d in
    let count = batch_from (min batch_sectors (end_lba - lba)) lba d in
    let (ok, d') = load_batch lba count d in
    let rest = load_from fuel (lba + count) end_lba d' in
    if leb end_lba lba
    then (true, d)
    else if loaded_test lba d
    then skip
    else if ok
    then rest
    else (false, d')

-- The first sector behind a range.
abbrev pub end_sector : ℕ → ℕ → ℕ
end_sector offset size = add64 (add64 offset size) 511 / sector_size

unfoldable pub ensure_loaded_range : ℕ → ℕ → Disk → Bool × Disk
ensure_loaded_range offset size d =
    let start_lba = offset / sector_size in
    let end_lba = end_sector offset size in
    if size == 0
    then (true, d)
    else if not (bytes_range_valid offset size d)
    then (false, d)
    else if not d.hw_backed
    then (true, d)
    else if not d.has_bitmap || d.bitmap_bytes == 0
    then (false, d)
    else load_from (end_lba - start_lba) start_lba end_lba d

-- A batch that the drive was given: on success its sectors are marked.
unfoldable pub write_batch : ℕ → ℕ → Disk → Bool × Disk
write_batch lba count d =
    let (ok, drive) = ata_write_sectors_hw lba count (lba * sector_size) d.bytes d.drive in
    let sent = record d { drive = drive } in
    if ok then (true, loaded_mark_range lba count sent) else (false, sent)

-- The loop that the two sync routines and `clks_disk_sync_bytes_to_hw` share.
unfoldable pub write_from : ℕ → ℕ → ℕ → Disk → Bool × Disk
write_from zero remaining lba d = (remaining == 0, d)
write_from (suc fuel) remaining lba d =
    let batch = min batch_sectors remaining in
    let (ok, d') = write_batch lba batch d in
    let rest = write_from fuel (remaining - batch) (lba + batch) d' in
    if remaining == 0 then (true, d) else if ok then rest else (false, d')

unfoldable pub sync_sector_range_no_flush : ℕ → ℕ → Disk → Bool × Disk
sync_sector_range_no_flush start_lba sector_count d =
    if sector_count == 0
    then (true, d)
    else if not d.hw_backed
    then (true, d)
    else if leb d.sector_total start_lba
    then (false, d)
    else if ltb (d.sector_total - start_lba) sector_count
    then (false, d)
    else write_from sector_count sector_count start_lba d

unfoldable pub flush_hw : Disk → Bool × Disk
flush_hw d =
    let (ok, drive) = ata_cache_flush_hw d.drive in
    if not d.hw_backed then (true, d) else (ok, record d { drive = drive })

-- A flush follows the last batch only.
unfoldable pub sync_sector_range : ℕ → ℕ → Disk → Bool × Disk
sync_sector_range start_lba sector_count d =
    let (ok, d') = write_from sector_count sector_count start_lba d in
    if sector_count == 0
    then (true, d)
    else if not d.hw_backed
    then (true, d)
    else if leb d.sector_total start_lba
    then (false, d)
    else if ltb (d.sector_total - start_lba) sector_count
    then (false, d)
    else if ok
    then flush_hw d'
    else (false, d')

sync_bytes_to_hw : ℕ → Disk → Bool × Disk
sync_bytes_to_hw used_bytes d =
    let used = min used_bytes d.bytes_len in
    let sectors = min (add64 used 511 / sector_size) d.sector_total in
    let (ok, d') = write_from sectors sectors 0 d in
    if not d.hw_backed
    then (true, d)
    else if not d.has_bytes || d.sector_total == 0
    then (false, d)
    else if used_bytes == 0
    then (true, d)
    else if ok
    then flush_hw d'
    else (false, d')
