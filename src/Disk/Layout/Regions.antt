-- ===== src/Disk/Layout/Regions.antt =====
-- kernel/storage/disk/fat_layout.inc: where the clusters of a volume lie.
use native.Mathlib.Nat.{mul-le-mul_right}
use clks.Base.{
  ℕ, ◌+◌, ◌-◌, ◌*◌, ◌^◌, ◌≤◌, ◌<◌, ◌≡◌, ◌≢◌, ◌⊎◌, inl, inr, arith, true, some, add64, dec_lt,
}
use clks.Disk.{Disk, Fat32Layout, mul64}
use clks.Disk.Layout.{cluster_valid, cluster_lba}
use clks.Disk.Layout.Bounds.{IsVolume}

-- The first sector of a cluster
abbrev pub region : Fat32Layout → ℕ → ℕ
region l cluster = l.data_lba + (cluster - 2) * l.sectors_per_cluster

-- A cluster that the code takes for one of the volume's.
abbrev pub InVolume : Fat32Layout → ℕ → Type 0
InVolume l cluster = (2 ≤ cluster) × (cluster < l.cluster_count + 2)

pub cluster_valid-InVolume :
    (l : Fat32Layout) (total c : ℕ) → IsVolume l total → cluster_valid l c ≡ true → InVolume l c
unfolding cluster_valid
cluster_valid-InVolume l total c v h = let e1 = v.few in (ground arith, ground arith)

pub InVolume-cluster_valid :
    (l : Fat32Layout) (total c : ℕ) → IsVolume l total → InVolume l c → cluster_valid l c ≡ true
unfolding cluster_valid
InVolume-cluster_valid l total c v (a, b) = let e1 = v.few in let e2 = v.valid in ground arith

pub step_mul : (a b s : ℕ) → a < b → a * s + s ≤ b * s
step_mul a b s h = let e : (a + 1) * s ≤ b * s = mul-le-mul_right s (omega arith) in omega arith

pub region_fits :
    (l : Fat32Layout) (total c : ℕ)
    → IsVolume l total
    → InVolume l c
    → region l c + l.sectors_per_cluster ≤ total
region_fits l total c v (a, b) =
    let e1 = v.fits in
    let e2 = step_mul (c - 2) l.cluster_count l.sectors_per_cluster (omega arith) in omega arith

-- The sectors of a cluster of the volume, which are within the disk.
pub cluster_lba-some :
    (d : Disk) (c : ℕ)
    → IsVolume d.fat32 d.sector_total
    → d.sector_total ≤ 2 ^ 28
    → cluster_valid d.fat32 c ≡ true
    → cluster_lba c d ≡ some (region d.fat32 c)
unfolding cluster_lba
cluster_lba-some d c v small h =
    let e1 =
      region_fits d.fat32 d.sector_total c v
        (cluster_valid-InVolume d.fat32 d.sector_total c v h) in
    let e2 = v.cluster_pos in
    let e3 : add64 d.fat32.data_lba (mul64 (c - 2) d.fat32.sectors_per_cluster) ≡ region d.fat32 c =
      omega arith in
    ground arith

-- On a volume the parser accepts: the code finds the sectors of each cluster that it takes for valid,
-- within the disk and behind the copies of the table, and two different clusters share no sector.
pub cluster_lba_apart :
    (d : Disk) (c c' : ℕ)
    → IsVolume d.fat32 d.sector_total
    → d.sector_total ≤ 2 ^ 28
    → cluster_valid d.fat32 c ≡ true
    → cluster_valid d.fat32 c' ≡ true
    → c ≢ c'
    → (a : ℕ) × (a' : ℕ) × (cluster_lba c d ≡ some a)
      × (cluster_lba c' d ≡ some a')
      × (d.fat32.fat_lba + d.fat32.fat_count * d.fat32.sectors_per_fat ≤ a)
      × (a + d.fat32.sectors_per_cluster ≤ d.sector_total)
      × ((a + d.fat32.sectors_per_cluster ≤ a') ⊎ (a' + d.fat32.sectors_per_cluster ≤ a))
cluster_lba_apart d c c' v small h h' apart =
    let l = d.fat32 in
    let (lo, hi) = cluster_valid-InVolume l d.sector_total c v h in
    let (lo', hi') = cluster_valid-InVolume l d.sector_total c' v h' in
    let e1 = v.tables in
    (
      region l c,
      region l c',
      cluster_lba-some d c v small h,
      cluster_lba-some d c' v small h',
      omega arith,
      region_fits l d.sector_total c v (lo, hi),
      elim (dec_lt c c') [
        | yes below ↦
            let e2 = step_mul (c - 2) (c' - 2) l.sectors_per_cluster (omega arith) in
            inl (omega arith)
        | no above ↦
            let e2 = step_mul (c' - 2) (c - 2) l.sectors_per_cluster (omega arith) in
            inr (omega arith)
      ],
    )
