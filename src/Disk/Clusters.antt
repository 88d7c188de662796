-- ===== src/Disk/Clusters.antt =====
-- kernel/storage/disk/fat_alloc.inc: taking clusters and giving them back. The pointers through which
-- the results go are not null.
pub mod Keeping
pub mod Search
pub mod Reaching
pub mod Chains
pub mod Rollback
pub mod Allocation
use clks.Base.{
  ℕ, zero, suc, ◌+◌, ◌-◌, ◌*◌, Bool, true, false, ◌&&◌, ◌||◌, not, Option, none, some, ltb, leb,
  ◌==◌, if◌then◌else◌, add32,
}
use clks.Disk.{Disk, sector_size, eoc, free_cluster, invalid_cluster, mul64, clear}
use clks.Disk.Cache.{bytes_range_valid, sync_sector_range}
use clks.Disk.Layout.{cluster_valid, cluster_lba}
use clks.Disk.Fat.{fat_read_entry, fat_write_entry, fat_next_cluster}

unfoldable pub zero_cluster : ℕ → Disk → Bool × Disk
zero_cluster cluster d = elim (cluster_lba cluster d) [
  | none ↦ (false, d)
  | some lba ↦
      let offset = mul64 lba sector_size in
      let count = d.fat32.sectors_per_cluster * sector_size in
      if not (bytes_range_valid offset count d)
      then (false, d)
      else sync_sector_range lba d.fat32.sectors_per_cluster
          (record d { bytes = clear offset count d.bytes })
]

-- What a loop over the table comes to.
pub data Scan : Type 0 where
  unreadable : Scan
  found : ℕ → Scan
  exhausted : Scan

-- The hint after a cluster was found.
abbrev pub next_hint : Disk → ℕ → ℕ
next_hint d cluster =
    let next = add32 cluster 1 in if leb (add32 d.fat32.cluster_count 2) next then 2 else next

-- `for (cluster = ...; rounds left; cluster++)`, the body of both loops.
unfoldable pub scan : ℕ → ℕ → Disk → Scan × Disk
scan zero cluster d = (exhausted, d)
scan (suc rounds) cluster d =
    let (entry, d') = fat_read_entry cluster d in
    let rest = scan rounds (cluster + 1) d' in
    elim entry [
      | none ↦ (unreadable, d')
      | some value ↦
          if value == free_cluster
          then (found cluster, record d' { alloc_hint = next_hint d' cluster })
          else rest
    ]

-- Where the search starts
abbrev pub search_start : Disk → ℕ
search_start d =
    if ltb d.alloc_hint 2 || leb (add32 d.fat32.cluster_count 2) d.alloc_hint
    then 2
    else d.alloc_hint

unfoldable pub find_free_cluster : Disk → Option ℕ × Disk
find_free_cluster d =
    let start = search_start d in
    let (first, d1) = scan (add32 d.fat32.cluster_count 2 - start) start d in
    let (second, d2) = scan (start - 2) 2 d1 in
    if not d.fat32.valid then (none, d) else elim first [
      | unreadable ↦ (none, d1)
      | found cluster ↦ (some cluster, d1)
      | exhausted ↦ elim second [
        | unreadable ↦ (none, d2)
        | found cluster ↦ (some cluster, d2)
        | exhausted ↦ (none, d2)
      ]
    ]

-- The loop of `clks_disk_free_chain`, `cluster_count - guard` rounds at most.
unfoldable pub free_from : ℕ → ℕ → Disk → Disk
free_from zero current d = d
free_from (suc rounds) current d =
    let (link, d1) = fat_next_cluster current d in
    let d2 = (fat_write_entry current free_cluster d1).1 in
    if not (cluster_valid d.fat32 current) then d else elim link [
      | none ↦ d1
      | some (next, is_eoc) ↦
          let rest = free_from rounds next d2 in
          if is_eoc then d2 else if cluster_valid d2.fat32 next then rest else d2
    ]

unfoldable pub free_chain : ℕ → Disk → Disk
free_chain first_cluster d =
    if cluster_valid d.fat32 first_cluster
    then free_from d.fat32.cluster_count first_cluster d
    else d

unfoldable pub alloc_cluster_no_zero : Disk → Option ℕ × Disk
alloc_cluster_no_zero d =
    let (free, d1) = find_free_cluster d in
    elim free [
      | none ↦ (none, d1)
      | some cluster ↦
          let (ok, d2) = fat_write_entry cluster eoc d1 in
          if ok then (some cluster, d2) else (none, d2)
    ]

-- A cluster that cannot be cleared is given back.
alloc_cluster : Disk → Option ℕ × Disk
alloc_cluster d =
    let (taken, d1) = alloc_cluster_no_zero d in
    elim taken [
      | none ↦ (none, d1)
      | some cluster ↦
          let (ok, d2) = zero_cluster cluster d1 in
          if ok then (some cluster, d2) else (none, (fat_write_entry cluster free_cluster d2).1)
    ]

-- The failure of a round: what was linked so far is given back.
abbrev pub abandon : ℕ → Disk → Option ℕ × Disk
abandon first d = (none, if first == invalid_cluster then d else free_chain first d)

-- The loop of `clks_disk_alloc_chain` with `rounds` clusters still needed.
unfoldable pub alloc_from : ℕ → ℕ → ℕ → Disk → Option ℕ × Disk
alloc_from zero first prev d = (some first, d)
alloc_from (suc rounds) first prev d =
    let (taken, d1) = alloc_cluster_no_zero d in
    elim taken [
      | none ↦ abandon first d1
      | some current ↦
          let (linked, d2) = fat_write_entry prev current d1 in
          let rest =
            alloc_from rounds (if first == invalid_cluster then current else first) current
              (if prev == invalid_cluster then d1 else d2) in
          if not (prev == invalid_cluster) && not linked then (none, free_chain first d2) else rest
    ]

unfoldable pub alloc_chain : ℕ → Disk → Option ℕ × Disk
alloc_chain needed_clusters d =
    if needed_clusters == 0
    then (some invalid_cluster, d)
    else alloc_from needed_clusters invalid_cluster invalid_cluster d
