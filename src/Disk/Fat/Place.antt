-- ===== src/Disk/Fat/Place.antt =====
-- kernel/storage/disk/fat_layout.inc: where the entries of the table lie on a volume.
use clks.Base.{ℕ, ◌+◌, ◌*◌, ◌/◌, ◌^◌, ◌≤◌, ◌<◌, ◌≡◌, ◌≢◌, ◌⊎◌, inl, inr, arith, true, dec_lt, ap}
use clks.Disk.{Fat32Layout, sector_size}
use clks.Disk.Layout.Bounds.{IsVolume}
use clks.Disk.Layout.Regions.{step_mul}
use clks.Disk.Fat.{has_entry, entry_lba, entry_offset}

-- The first byte of the entry of a cluster in the copy `index` of the table.
abbrev pub position : Fat32Layout → ℕ → ℕ → ℕ
position l index cluster = (l.fat_lba + index * l.sectors_per_fat) * sector_size + cluster * 4

-- A volume on a disk whose sectors can be counted by 28 bits.
pub record Sized (l : Fat32Layout) (total : ℕ) : Type 0 where
  pub volume : IsVolume l total
  pub small : total ≤ 2 ^ 28

has_entry-lt :
    (l : Fat32Layout) (c : ℕ) → has_entry l c ≡ true → c * 4 + 4 ≤ l.sectors_per_fat * 512
has_entry-lt l c h = ground arith

-- The copy lies in front of the clusters.
copy_fits :
    (l : Fat32Layout) (total index : ℕ)
    → Sized l total
    → index < l.fat_count
    → l.fat_lba + index * l.sectors_per_fat + l.sectors_per_fat ≤ l.data_lba
copy_fits l total index s h =
    let e1 = s.volume.tables in
    let e2 = step_mul index l.fat_count l.sectors_per_fat h in omega arith

pub data_lba_small : (l : Fat32Layout) (total : ℕ) → Sized l total → l.data_lba ≤ 2 ^ 28
data_lba_small l total s = let e1 = s.volume.fits in let e2 = s.small in omega arith

pub entry_lba_lem :
    (l : Fat32Layout) (total index c : ℕ)
    → Sized l total
    → index < l.fat_count
    → has_entry l c ≡ true
    → entry_lba l index c ≡ position l index c / sector_size
entry_lba_lem l total index c s h has =
    let e1 = copy_fits l total index s h in
    let e2 = has_entry-lt l c has in let e3 = data_lba_small l total s in omega arith

pub entry_offset_lem :
    (l : Fat32Layout) (total index c : ℕ)
    → Sized l total
    → index < l.fat_count
    → has_entry l c ≡ true
    → entry_offset l index c ≡ position l index c
entry_offset_lem l total index c s h has =
    let e1 = copy_fits l total index s h in
    let e2 = has_entry-lt l c has in let e3 = data_lba_small l total s in omega arith

pub position_fits :
    (l : Fat32Layout) (total index c : ℕ)
    → Sized l total
    → index < l.fat_count
    → has_entry l c ≡ true
    → position l index c + 4 ≤ l.data_lba * sector_size
position_fits l total index c s h has =
    let e1 = copy_fits l total index s h in let e2 = has_entry-lt l c has in omega arith

-- The bytes from `p` on and those from `q` on, four each, are not the same ones.
abbrev pub Apart : ℕ → ℕ → Type 0
Apart p q = (p + 4 ≤ q) ⊎ (q + 4 ≤ p)

-- Entries of different clusters, and of different copies, do not overlap.
pub position-Apart :
    (l : Fat32Layout) (index index' c c' : ℕ)
    → has_entry l c ≡ true
    → has_entry l c' ≡ true
    → (index ≢ index') ⊎ (c ≢ c')
    → Apart (position l index c) (position l index' c')
position-Apart l i i' c c' has has' differ =
    let e1 = has_entry-lt l c has in
    let e2 = has_entry-lt l c' has' in
    elim (dec_lt i i') [
      | yes below ↦ let e3 = step_mul i i' l.sectors_per_fat below in inl (omega arith)
      | no above ↦ elim (dec_lt i' i) [
        | yes over ↦ let e3 = step_mul i' i l.sectors_per_fat over in inr (omega arith)
        | no level ↦
            let same : i ≡ i' = omega arith in
            let e3 : i * l.sectors_per_fat ≡ i' * l.sectors_per_fat =
              ap (λ n. n * l.sectors_per_fat) same in
            elim (dec_lt c c') [ yes before ↦ inl (omega arith) | no behind ↦ inr (ground arith) ]
      ]
    ]
