-- ===== src/Disk.antt =====
-- kernel/storage/disk.c with its parts under kernel/storage/disk/: the constants, the static state, the
-- stored integers of byteorder.inc and the sector commands of ata.inc. Buffers are arrays of bytes,
-- numbers below 256. The drive behind the I/O ports is its content and what each command will come to.
pub mod Stored
pub mod Cache
pub mod Layout
pub mod Fat
pub mod Clusters
pub mod Chain
pub mod Init
mod Tests
use clks.Base.{
  ℕ, zero, suc, ◌+◌, ◌-◌, ◌*◌, ◌/◌, ◌%◌, ◌^◌, min, Bool, true, false, ◌&&◌, ◌||◌, Option, none,
  some, ltb, leb, ◌==◌, if◌then◌else◌, Array, update, u64_mod,
}

-- CLKS_DISK_SECTOR_SIZE, CLKS_DISK_FAT32_PARTITION_LBA and CLKS_DISK_ATA_BATCH_SECTORS
abbrev pub sector_size : ℕ
sector_size = 512

abbrev pub partition_lba : ℕ
partition_lba = 2048

abbrev pub batch_sectors : ℕ
batch_sectors = 128

-- CLKS_DISK_FAT32_MIN_CLUSTER_COUNT, and the most clusters that a FAT32 volume has
abbrev pub min_cluster_count : ℕ
min_cluster_count = 65525

abbrev pub max_cluster_count : ℕ
max_cluster_count = 0x0FFFFFF5

-- CLKS_DISK_FAT32_EOC_MIN, CLKS_DISK_FAT32_EOC, CLKS_DISK_FAT32_FREE_CLUSTER and
-- CLKS_DISK_INVALID_CLUSTER
abbrev pub eoc_min : ℕ
eoc_min = 0x0FFFFFF8

abbrev pub eoc : ℕ
eoc = 0x0FFFFFFF

abbrev pub free_cluster : ℕ
free_cluster = 0

abbrev pub invalid_cluster : ℕ
invalid_cluster = 0

-- CLKS_DISK_FAT32_BOOT_SIG_OFFSET, CLKS_DISK_FAT32_TYPE_OFFSET and CLKS_DISK_DIRENT_SIZE
abbrev pub boot_sig_offset : ℕ
boot_sig_offset = 510

abbrev pub type_offset : ℕ
type_offset = 82

abbrev pub dirent_size : ℕ
dirent_size = 32

abbrev pub mul64 : ℕ → ℕ → ℕ
mul64 a b = a * b % u64_mod

-- The drive: its bytes, and for each command in turn that it completes (`none`) or that it ends in an
-- error after so many sectors. `flushes` counts the completed cache flushes.
pub record Drive : Type 0 where
  pub media : Array ℕ
  pub stops : ℕ → Option ℕ
  pub commands : ℕ
  pub flushes : ℕ

-- `struct clks_disk_fat32_layout`
pub record Fat32Layout : Type 0 where
  pub valid : Bool
  pub bytes_per_sector : ℕ
  pub sectors_per_cluster : ℕ
  pub reserved_sectors : ℕ
  pub fat_count : ℕ
  pub sectors_per_fat : ℕ
  pub total_sectors : ℕ
  pub root_cluster : ℕ
  pub cluster_count : ℕ
  pub cluster_size_bytes : ℕ
  pub entries_per_cluster : ℕ
  pub volume_lba : ℕ
  pub fat_lba : ℕ
  pub data_lba : ℕ

-- The static state that these parts read and write, and the drive. `has_bytes` and `has_bitmap` say
-- that `clks_disk_bytes` and `clks_disk_loaded_bitmap` are not null.
pub record Disk : Type 0 where
  pub bytes : Array ℕ
  pub has_bytes : Bool
  pub bytes_len : ℕ
  pub sector_total : ℕ
  pub bitmap : Array ℕ
  pub has_bitmap : Bool
  pub bitmap_bytes : ℕ
  pub ready : Bool
  pub hw_backed : Bool
  pub fat32 : Fat32Layout
  pub alloc_hint : ℕ
  pub drive : Drive

pub read_u16 : Array ℕ → ℕ → ℕ
read_u16 b at = b at + b (at + 1) * 2 ^ 8

unfoldable pub read_u32 : Array ℕ → ℕ → ℕ
read_u32 b at = b at + b (at + 1) * 2 ^ 8 + b (at + 2) * 2 ^ 16 + b (at + 3) * 2 ^ 24

write_u16 : Array ℕ → ℕ → ℕ → Array ℕ
write_u16 b at value = update (update b at (value % 256)) (at + 1) (value / 2 ^ 8 % 256)

unfoldable pub write_u32 : Array ℕ → ℕ → ℕ → Array ℕ
write_u32 b at value =
    let b1 = update b at (value % 256) in
    let b2 = update b1 (at + 1) (value / 2 ^ 8 % 256) in
    let b3 = update b2 (at + 2) (value / 2 ^ 16 % 256) in update b3 (at + 3) (value / 2 ^ 24 % 256)

-- `count` bytes of `src` from `from` on, put into `dst` from `to` on: what `clks_memcpy` and the
-- transfers of the drive do between two buffers.
abbrev pub put : ℕ → ℕ → ℕ → Array ℕ → Array ℕ → Array ℕ
put to from count src dst j =
    if leb to j && ltb j (to + count) then src (from + (j - to)) else dst j

-- `clks_memset` of a part of a buffer with 0.
abbrev pub clear : ℕ → ℕ → Array ℕ → Array ℕ
clear to count dst j = if leb to j && ltb j (to + count) then 0 else dst j

-- The tests before the first port access of a read and of a write.
abbrev pub ata_rejects : ℕ → ℕ → Bool
ata_rejects lba count =
    count == 0 || ltb 255 count || ltb 0x0FFFFFFF lba || ltb 0x0FFFFFFF (lba + count - 1)

-- The sectors that the drive transfers before the command ends.
abbrev pub transferred : Option ℕ → ℕ → ℕ
transferred none count = count
transferred (some k) count = min k count

abbrev pub completes : Option ℕ → Bool
completes none = true
completes (some k) = false

abbrev pub issued : Drive → Drive
issued v = record v { commands = v.commands + 1 }

-- The sectors go to `out` from index `at` on.
unfoldable pub ata_read_sectors_hw : ℕ → ℕ → ℕ → Array ℕ → Drive → Bool × Array ℕ × Drive
ata_read_sectors_hw lba count at out v =
    let outcome = v.stops v.commands in
    let n = transferred outcome count in
    if ata_rejects lba count
    then (false, out, v)
    else (completes outcome, put at (lba * sector_size) (n * sector_size) v.media out, issued v)

-- The sectors come from `buffer` from index `at` on.
unfoldable pub ata_write_sectors_hw : ℕ → ℕ → ℕ → Array ℕ → Drive → Bool × Drive
ata_write_sectors_hw lba count at buffer v =
    let outcome = v.stops v.commands in
    let n = transferred outcome count in
    if ata_rejects lba count then (false, v) else (
      completes outcome,
      record (issued v) { media = put (lba * sector_size) at (n * sector_size) buffer v.media },
    )

unfoldable pub ata_cache_flush_hw : Drive → Bool × Drive
ata_cache_flush_hw v =
    let done = completes (v.stops v.commands) in
    (done, record (issued v) { flushes = if done then v.flushes + 1 else v.flushes })
