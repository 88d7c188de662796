-- ===== src/Disk/Fat.antt =====
-- kernel/storage/disk/fat_layout.inc: the entries of the file allocation table. Each copy of the table
-- has an entry of four bytes for each cluster, whose highest four bits are kept.
pub mod Place
pub mod Entries
pub mod Updates
pub mod Copies
pub mod Table
pub mod Working
use clks.Base.{
  ℕ, zero, suc, ◌+◌, ◌*◌, ◌/◌, ◌%◌, ◌^◌, Bool, true, false, ◌||◌, not, Option, none, some, ltb, leb,
  ◌==◌, if◌then◌else◌, add64, add32,
}
use clks.Disk.{Disk, Fat32Layout, sector_size, mul64, read_u32, write_u32}
use clks.Disk.Cache.{bytes_range_valid, ensure_loaded_range, sync_sector_range}
use clks.Disk.Layout.{fat_is_eoc}

-- The tests on the cluster that a read and a write of its entry begin with.
abbrev pub has_entry : Fat32Layout → ℕ → Bool
has_entry l cluster =
    if not l.valid
    then false
    else if leb (add32 l.cluster_count 2) cluster
    then false
    else ltb (cluster * 4 / sector_size) l.sectors_per_fat

-- The sector and the byte of an entry in the copy `index` of the table.
abbrev pub entry_lba : Fat32Layout → ℕ → ℕ → ℕ
entry_lba l index cluster =
    add64 (add64 l.fat_lba (mul64 index l.sectors_per_fat)) (cluster * 4 / sector_size)

abbrev pub entry_offset : Fat32Layout → ℕ → ℕ → ℕ
entry_offset l index cluster =
    add64 (mul64 (entry_lba l index cluster) sector_size) (cluster * 4 % sector_size)

unfoldable pub fat_read_entry : ℕ → Disk → Option ℕ × Disk
fat_read_entry cluster d =
    let at = entry_offset d.fat32 0 cluster in
    let (ok, d') = ensure_loaded_range at 4 d in
    if not (has_entry d.fat32 cluster)
    then (none, d)
    else if not (bytes_range_valid at 4 d)
    then (none, d)
    else if ok
    then (some (read_u32 d'.bytes at % 2 ^ 28), d')
    else (none, d')

-- The new entry from the old one: `(old & 0xF0000000) | (value & 0x0FFFFFFF)`
abbrev pub merged : ℕ → ℕ → ℕ
merged old value = old / 2 ^ 28 % 16 * 2 ^ 28 + value % 2 ^ 28

-- One round of the loop of `clks_disk_fat_write_entry`.
unfoldable pub write_copy : ℕ → ℕ → ℕ → Disk → Bool × Disk
write_copy index cluster value d =
    let at = entry_offset d.fat32 index cluster in
    let (ok, d') = ensure_loaded_range at 4 d in
    let stored = write_u32 d'.bytes at (merged (read_u32 d'.bytes at) value) in
    if not (bytes_range_valid at 4 d)
    then (false, d)
    else if ok
    then sync_sector_range (entry_lba d.fat32 index cluster) 1 (record d' { bytes = stored })
    else (false, d')

unfoldable pub write_copies : ℕ → ℕ → ℕ → ℕ → Disk → Bool × Disk
write_copies zero index cluster value d = (true, d)
write_copies (suc rounds) index cluster value d =
    let (ok, d') = write_copy index cluster value d in
    let rest = write_copies rounds (index + 1) cluster value d' in if ok then rest else (false, d')

unfoldable pub fat_write_entry : ℕ → ℕ → Disk → Bool × Disk
fat_write_entry cluster value d =
    if has_entry d.fat32 cluster
    then write_copies d.fat32.fat_count 0 cluster value d
    else (false, d)

-- The next cluster, and whether the entry ends the chain.
unfoldable pub fat_next_cluster : ℕ → Disk → Option (ℕ × Bool) × Disk
fat_next_cluster cluster d =
    let (entry, d') = fat_read_entry cluster d in
    elim entry [ none ↦ (none, d') | some value ↦ (some (value % 2 ^ 28, fat_is_eoc value), d') ]
