-- ===== src/Disk/Layout.antt =====
-- kernel/storage/disk/fat_layout.inc: the geometry in the boot sector of a FAT32 volume, and where the
-- clusters lie.
pub mod Bounds
pub mod Regions
use clks.Base.{
  ℕ, ◌+◌, ◌-◌, ◌*◌, ◌/◌, ◌%◌, ◌^◌, Bool, true, false, ◌&&◌, ◌||◌, not, Option, none, some, ltb, leb,
  ◌==◌, if◌then◌else◌, Array, add64, sub64, add32, u32_mod,
}
use clks.Disk.{
  Disk, Fat32Layout, sector_size, partition_lba, min_cluster_count, max_cluster_count, eoc_min,
  boot_sig_offset, type_offset, dirent_size, mul64, read_u16, read_u32,
}
use clks.Disk.Cache.{ensure_loaded_range}

-- `clks_memset` of the layout
abbrev pub no_layout : Fat32Layout
no_layout = record {
  valid = false;
  bytes_per_sector = 0;
  sectors_per_cluster = 0;
  reserved_sectors = 0;
  fat_count = 0;
  sectors_per_fat = 0;
  total_sectors = 0;
  root_cluster = 0;
  cluster_count = 0;
  cluster_size_bytes = 0;
  entries_per_cluster = 0;
  volume_lba = 0;
  fat_lba = 0;
  data_lba = 0;
}

-- The two bytes that end a boot sector
abbrev pub is_signed : Array ℕ → ℕ → Bool
is_signed b at = (b (at + boot_sig_offset) == 0x55) && (b (at + boot_sig_offset + 1) == 0xAA)

-- `clks_disk_bytes_equal` with the name FAT32
abbrev pub is_fat32 : Array ℕ → ℕ → Bool
is_fat32 b at =
    (b (at + type_offset) == 70)
    && (b (at + type_offset + 1) == 65)
    && (b (at + type_offset + 2) == 84)
    && (b (at + type_offset + 3) == 51)
    && (b (at + type_offset + 4) == 50)

-- `x & (x - 1)` is 0 for the powers of two of a byte only.
abbrev pub is_power : ℕ → Bool
is_power x = x == 1 || x == 2 || x == 4 || x == 8 || x == 16 || x == 32 || x == 64 || x == 128

-- The sectors in front of the data
abbrev pub head_sectors : Fat32Layout → ℕ
head_sectors l = l.reserved_sectors + l.fat_count * l.sectors_per_fat

-- The fields of the layout from the boot sector at `at`, on a volume that starts at `volume_lba`
abbrev pub layout_at : Array ℕ → ℕ → ℕ → Fat32Layout
layout_at b at volume_lba =
    let spc = b (at + 13) in
    let reserved = read_u16 b (at + 14) in
    let fat_count = b (at + 16) in
    let spf = read_u32 b (at + 36) in
    let total_16 = read_u16 b (at + 19) in
    let total = if total_16 == 0 then read_u32 b (at + 32) else total_16 in
    let head = reserved + fat_count * spf in
    let cluster_size = spc * sector_size % u32_mod in
    record {
      valid = true;
      bytes_per_sector = read_u16 b (at + 11);
      sectors_per_cluster = spc;
      reserved_sectors = reserved;
      fat_count = fat_count;
      sectors_per_fat = spf;
      total_sectors = total;
      root_cluster = read_u32 b (at + 44);
      cluster_count = (total - head) / spc % u32_mod;
      cluster_size_bytes = cluster_size;
      entries_per_cluster = cluster_size / dirent_size;
      volume_lba = volume_lba;
      fat_lba = add64 volume_lba reserved;
      data_lba = add64 (add64 volume_lba reserved) (fat_count * spf);
    }

-- The tests between reading the fields and storing them, in their order; `clusters` is the count
-- before it is cut to 32 bits.
unfoldable pub accepts : Array ℕ → ℕ → ℕ → Fat32Layout → Bool
accepts b at sector_total l =
    let clusters = (l.total_sectors - head_sectors l) / l.sectors_per_cluster in
    if not (l.bytes_per_sector == sector_size)
    then false
    else if not (is_power l.sectors_per_cluster)
    then false
    else if l.reserved_sectors == 0
        || ltb l.fat_count 1
        || l.sectors_per_fat == 0
        || l.total_sectors == 0
    then false
    else if ltb l.root_cluster 2
    then false
    else if not (is_fat32 b at)
    then false
    else if ltb (sub64 sector_total l.volume_lba) l.total_sectors
    then false
    else if leb l.total_sectors (head_sectors l)
    then false
    else if ltb clusters min_cluster_count || ltb max_cluster_count clusters
    then false
    else not (leb (add32 l.cluster_count 2) l.root_cluster)

-- From the boot sector at `at`: the second test of its signature, then the fields.
unfoldable pub parse_at : ℕ → ℕ → Disk → Bool × Disk
parse_at at volume_lba d =
    let l = layout_at d.bytes at volume_lba in
    if not (is_signed d.bytes at)
    then (false, d)
    else if accepts d.bytes at d.sector_total l
    then (true, record d { fat32 = l })
    else (false, d)

-- The volume that starts behind the gap of the partition table.
unfoldable pub parse_shifted : Disk → Bool × Disk
parse_shifted d =
    let shifted = partition_lba * sector_size in
    let (ok, d') = ensure_loaded_range shifted sector_size d in
    if ltb d.bytes_len shifted || ltb (d.bytes_len - shifted) sector_size
    then (false, d)
    else if ok
    then parse_at shifted partition_lba d'
    else (false, d')

unfoldable pub parse_fat32_layout : Disk → Bool × Disk
parse_fat32_layout d =
    let cleared = record d { fat32 = no_layout; alloc_hint = 2 } in
    let (ok, d') = ensure_loaded_range 0 sector_size cleared in
    if not d.ready || not d.has_bytes || ltb d.bytes_len sector_size
    then (false, cleared)
    else if not ok
    then (false, d')
    else if not (is_signed d'.bytes 0) || not (is_fat32 d'.bytes 0)
    then parse_shifted d'
    else parse_at 0 0 d'

unfoldable pub cluster_valid : Fat32Layout → ℕ → Bool
cluster_valid l cluster =
    if not l.valid then false else leb 2 cluster && ltb cluster (add32 l.cluster_count 2)

unfoldable pub cluster_lba : ℕ → Disk → Option ℕ
cluster_lba cluster d =
    let lba = add64 d.fat32.data_lba (mul64 (cluster - 2) d.fat32.sectors_per_cluster) in
    if not (cluster_valid d.fat32 cluster)
    then none
    else if leb d.sector_total lba
    then none
    else if ltb (d.sector_total - lba) d.fat32.sectors_per_cluster
    then none
    else some lba

-- fat_alloc.inc
cluster_first_byte_offset : ℕ → Disk → Option ℕ
cluster_first_byte_offset cluster d = elim (cluster_lba cluster d) [
  | none ↦ none
  | some lba ↦ some (mul64 lba sector_size)
]

unfoldable pub fat_is_eoc : ℕ → Bool
fat_is_eoc value = leb eoc_min (value % 2 ^ 28)
