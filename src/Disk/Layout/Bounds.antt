-- ===== src/Disk/Layout/Bounds.antt =====
-- kernel/storage/disk/fat_layout.inc: a volume that is accepted lies within the disk.
use native.Mathlib.Nat.{div-mul-le_self}
use clks.Base.{
  ℕ, ◌+◌, ◌-◌, ◌*◌, ◌/◌, ◌^◌, ◌≤◌, ◌<◌, ◌≡◌, arith, refl, Bool, true, ◌||◌, not, Array, ltb, sub64,
  add32, if_elim, ap, sym, subst,
}
use clks.Disk.{Disk, Fat32Layout, sector_size, partition_lba, min_cluster_count, max_cluster_count}
use clks.Disk.Cache.{ensure_loaded_range}
use clks.Disk.Cache.Loading.{IsBacked-with, IsBacked, ensure_loaded_range-Loads, Loads-IsBacked}
use clks.Disk.Layout.{
  no_layout, is_signed, is_fat32, head_sectors, layout_at, accepts, parse_at, parse_shifted,
  parse_fat32_layout,
}

-- The geometry of a volume on a disk of `sector_total` sectors: behind at least one reserved sector
-- stand the copies of the table, then the clusters, all of them within the disk.
pub record IsVolume (l : Fat32Layout) (sector_total : ℕ) : Type 0 where
  pub valid : l.valid ≡ true
  pub cluster_pos : 0 < l.sectors_per_cluster
  pub cluster_small : l.sectors_per_cluster ≤ 128
  pub cluster_size : l.cluster_size_bytes ≡ l.sectors_per_cluster * sector_size
  pub copies : 0 < l.fat_count
  pub table : 0 < l.sectors_per_fat
  pub enough : min_cluster_count ≤ l.cluster_count
  pub few : l.cluster_count ≤ max_cluster_count
  pub root : (2 ≤ l.root_cluster) × (l.root_cluster < l.cluster_count + 2)
  pub reserved : l.volume_lba < l.fat_lba
  pub tables : l.fat_lba + l.fat_count * l.sectors_per_fat ≡ l.data_lba
  pub fits : l.data_lba + l.cluster_count * l.sectors_per_cluster ≤ sector_total

-- What the tests of the parser leave.
accepts_lem :
    (b : Array ℕ) (at total : ℕ) (l : Fat32Layout)
    → accepts b at total l ≡ true
    → (0 < l.sectors_per_cluster)
      × (l.sectors_per_cluster ≤ 128)
      × (0 < l.reserved_sectors)
      × (0 < l.fat_count)
      × (0 < l.sectors_per_fat)
      × (2 ≤ l.root_cluster)
      × (l.total_sectors ≤ sub64 total l.volume_lba)
      × (head_sectors l < l.total_sectors)
      × (min_cluster_count ≤ (l.total_sectors - head_sectors l) / l.sectors_per_cluster)
      × ((l.total_sectors - head_sectors l) / l.sectors_per_cluster ≤ max_cluster_count)
      × (l.root_cluster < add32 l.cluster_count 2)
unfolding accepts
accepts_lem b at total l h = (
  ground arith,
  ground arith,
  ground arith,
  ground arith,
  ground arith,
  ground arith,
  ground arith,
  ground arith,
  ground arith,
  ground arith,
  ground arith,
)

layout_at-IsVolume :
    (b : Array ℕ) (at vol total : ℕ)
    → vol ≤ total
    → total ≤ 2 ^ 28
    → accepts b at total (layout_at b at vol) ≡ true
    → IsVolume (layout_at b at vol) total
layout_at-IsVolume b at vol total le small h =
    let l = layout_at b at vol in
    let (pos, most, reserved, copies, table, root, inside, head, enough, few, below) =
      accepts_lem b at total l h in
    let spc = l.sectors_per_cluster in
    let clusters = (l.total_sectors - head_sectors l) / spc in
    let taken = div-mul-le_self (l.total_sectors - head_sectors l) spc in
    let counted : l.cluster_count ≡ clusters = omega arith in
    record {
      valid = refl;
      cluster_pos = pos;
      cluster_small = most;
      cluster_size = omega arith;
      copies = copies;
      table = table;
      enough = rw counted enough;
      few = rw counted few;
      root = (root, omega arith);
      reserved = omega arith;
      tables = omega arith;
      fits = subst (λ c. l.data_lba + c * spc ≤ total) (sym counted) (omega arith);
    }

-- If it went well there is a volume on the disk.
abbrev Mounts : Bool × Disk → Type 0
Mounts r = r.0 ≡ true → IsVolume r.1.fat32 r.1.sector_total

parse_at-Mounts :
    (at vol : ℕ) (d : Disk)
    → vol ≤ d.sector_total
    → d.sector_total ≤ 2 ^ 28
    → Mounts (parse_at at vol d)
unfolding parse_at
parse_at-Mounts at vol d le small =
    let l = layout_at d.bytes at vol in
    if_elim Mounts (not (is_signed d.bytes at)) (λ _ e. absurd (ground arith))
      (λ _.
        if_elim Mounts (accepts d.bytes at d.sector_total l)
          (λ h _. layout_at-IsVolume d.bytes at vol d.sector_total le small h)
          (λ _ e. absurd (ground arith)))

parse_shifted-Mounts : (d : Disk) → IsBacked d → Mounts (parse_shifted d)
unfolding parse_shifted
parse_shifted-Mounts d b =
    let shifted = partition_lba * sector_size in
    let r = ensure_loaded_range shifted sector_size d in
    let b' = Loads-IsBacked (ensure_loaded_range-Loads shifted sector_size d) b in
    let same : r.1.sector_total ≡ d.sector_total =
      ap (λ (x : Disk). x.sector_total) (ensure_loaded_range-Loads shifted sector_size d).frame in
    let e1 = b.len in
    if_elim Mounts (ltb d.bytes_len shifted || ltb (d.bytes_len - shifted) sector_size)
      (λ _ e. absurd (ground arith))
      (λ room.
        if_elim Mounts r.0
          (λ _.
            let long : 2048 * 512 + 512 ≤ d.bytes_len = ground arith in
            parse_at-Mounts shifted partition_lba r.1 (omega arith) b'.small)
          (λ _ e. absurd (ground arith)))

-- On a disk as `clks_disk_init` sets it up: a boot sector that the parser accepts, at the start of the
-- disk or behind the gap of the partition table, describes a volume whose tables and clusters lie
-- within the disk one behind the other, without any overflow.
pub parse_fat32_layout-IsVolume :
    (d : Disk)
    → IsBacked d
    → (parse_fat32_layout d).0 ≡ true
    → IsVolume (parse_fat32_layout d).1.fat32 (parse_fat32_layout d).1.sector_total
unfolding parse_fat32_layout
parse_fat32_layout-IsVolume d b =
    let cleared : Disk = record d { fat32 = no_layout; alloc_hint = 2 } in
    let r = ensure_loaded_range 0 sector_size cleared in
    let b0 : IsBacked cleared = IsBacked-with b in
    let b' = Loads-IsBacked (ensure_loaded_range-Loads 0 sector_size cleared) b0 in
    if_elim Mounts (not d.ready || not d.has_bytes || ltb d.bytes_len sector_size)
      (λ _ e. absurd (ground arith))
      (λ _.
        if_elim Mounts (not r.0) (λ _ e. absurd (ground arith))
          (λ _.
            if_elim Mounts (not (is_signed r.1.bytes 0) || not (is_fat32 r.1.bytes 0))
              (λ _. parse_shifted-Mounts r.1 b')
              (λ _. parse_at-Mounts 0 0 r.1 (omega arith) b'.small)))
