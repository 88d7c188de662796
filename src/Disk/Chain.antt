-- ===== src/Disk/Chain.antt =====
-- kernel/storage/disk/file_chain.inc: the contents of a file in the clusters of its chain. A null `data`
-- is `none`; the loops make at most one round for each cluster of the volume, as `guard` has it.
pub mod Ends
pub mod Steps
pub mod Rounds
pub mod Reading
pub mod Appending
pub mod Flushing
pub mod Following
pub mod Success
use clks.Base.{
  ℕ, zero, suc, ◌+◌, ◌-◌, ◌*◌, ◌/◌, ◌%◌, min, Bool, true, false, ◌||◌, not, Option, none, some, ltb,
  leb, ◌==◌, if◌then◌else◌, Array, add64,
}
use clks.Disk.{Disk, sector_size, mul64, put, clear}
use clks.Disk.Cache.{bytes_range_valid, ensure_loaded_range, sync_sector_range_no_flush, flush_hw}
use clks.Disk.Layout.{cluster_valid, cluster_lba}
use clks.Disk.Fat.{fat_write_entry, fat_next_cluster}
use clks.Disk.Clusters.{alloc_cluster_no_zero, free_chain, alloc_chain}

-- The next cluster of a chain that must go on.
unfoldable pub follow : ℕ → Disk → Option ℕ × Disk
follow cluster d =
    let (link, d') = fat_next_cluster cluster d in
    elim link [
      | none ↦ (none, d')
      | some (next, is_eoc) ↦
          if is_eoc
          then (none, d')
          else if cluster_valid d'.fat32 next
          then (some next, d')
          else (none, d')
    ]

-- The loop of `clks_disk_read_file_chain`; `out` receives the bytes.
unfoldable pub read_from : ℕ → ℕ → ℕ → ℕ → Array ℕ → Disk → Bool × Array ℕ × Disk
read_from zero cluster copied size out d = (copied == size, out, d)
read_from (suc rounds) cluster copied size out d =
    if not (ltb copied size) || not (cluster_valid d.fat32 cluster)
    then (copied == size, out, d)
    else elim (cluster_lba cluster d) [
      | none ↦ (false, out, d)
      | some lba ↦
          let offset = mul64 lba sector_size in
          let to_copy = min (size - copied) d.fat32.cluster_size_bytes in
          let (ok, d1) = ensure_loaded_range offset to_copy d in
          let out' = put copied offset to_copy d1.bytes out in
          let (link, d2) = follow cluster d1 in
          if not (bytes_range_valid offset to_copy d)
          then (false, out, d)
          else if not ok
          then (false, out, d1)
          else if leb size (copied + to_copy)
          then (true, out', d1)
          else elim link [
            | none ↦ (false, out', d2)
            | some next ↦ read_from rounds next (copied + to_copy) size out' d2
          ]
    ]

unfoldable pub read_file_chain : ℕ → ℕ → Array ℕ → Disk → Bool × Array ℕ × Disk
unfolding read_from
read_file_chain first_cluster size out d =
    if size == 0
    then (true, out, d)
    else if not (cluster_valid d.fat32 first_cluster)
    then (false, out, d)
    else read_from d.fat32.cluster_count first_cluster 0 size out d

-- One cluster of `clks_disk_write_file_chain`: cleared, filled and written back.
unfoldable pub write_cluster : ℕ → Array ℕ → ℕ → ℕ → Disk → Bool × Disk
write_cluster cluster source written to_copy d = elim (cluster_lba cluster d) [
  | none ↦ (false, d)
  | some lba ↦
      let offset = mul64 lba sector_size in
      let size = d.fat32.cluster_size_bytes in
      if not (bytes_range_valid offset size d)
      then (false, d)
      else sync_sector_range_no_flush lba d.fat32.sectors_per_cluster
          (record d { bytes = put offset written to_copy source (clear offset size d.bytes) })
]

-- The loop; the answer `none` is that the loop ended by its own condition.
unfoldable pub write_rounds : ℕ → ℕ → Array ℕ → ℕ → ℕ → Disk → Option Bool × ℕ × Disk
write_rounds zero cluster source written size d = (none, written, d)
write_rounds (suc rounds) cluster source written size d =
    let to_copy = min (size - written) d.fat32.cluster_size_bytes in
    let (ok, d1) = write_cluster cluster source written to_copy d in
    let (link, d2) = follow cluster d1 in
    if not (ltb written size) || not (cluster_valid d.fat32 cluster)
    then (none, written, d)
    else if not ok
    then (some false, written, d1)
    else if leb size (written + to_copy)
    then (some true, written + to_copy, d1)
    else elim link [
      | none ↦ (some false, written + to_copy, d2)
      | some next ↦ write_rounds rounds next source (written + to_copy) size d2
    ]

unfoldable pub write_file_chain : ℕ → Option (Array ℕ) → ℕ → Disk → Bool × Disk
write_file_chain first_cluster given size d = if size == 0 then (true, d) else elim given [
  | none ↦ (false, d)
  | some source ↦
      let (answer, written, d') =
        write_rounds d.fat32.cluster_count first_cluster source 0 size d in
      if not (cluster_valid d.fat32 first_cluster) then (false, d) else elim answer [
        | some result ↦ (result, d')
        | none ↦ if not (written == size) then (false, d') else flush_hw d'
      ]
]

-- The loop of `clks_disk_chain_last_cluster`.
unfoldable pub last_from : ℕ → ℕ → Disk → Option ℕ × Disk
last_from zero cluster d = (none, d)
last_from (suc rounds) cluster d =
    let (link, d1) = fat_next_cluster cluster d in
    if not (cluster_valid d.fat32 cluster) then (none, d) else elim link [
      | none ↦ (none, d1)
      | some (next, is_eoc) ↦
          let rest = last_from rounds next d1 in
          if is_eoc
          then (some cluster, d1)
          else if cluster_valid d1.fat32 next
          then rest
          else (none, d1)
    ]

unfoldable pub chain_last_cluster : ℕ → Disk → Option ℕ × Disk
chain_last_cluster first_cluster d =
    if cluster_valid d.fat32 first_cluster
    then last_from d.fat32.cluster_count first_cluster d
    else (none, d)

-- The part of an append that goes into the last cluster, behind its `within` bytes.
unfoldable pub fill_last : ℕ → ℕ → ℕ → Array ℕ → Disk → Bool × Disk
fill_last last_cluster within to_copy source d = elim (cluster_lba last_cluster d) [
  | none ↦ (false, d)
  | some lba ↦
      let offset = add64 (mul64 lba sector_size) within in
      let first = within / sector_size in
      let count = (within + to_copy + 511) / sector_size - first in
      if not (bytes_range_valid offset to_copy d)
      then (false, d)
      else sync_sector_range_no_flush (add64 lba first) count
          (record d { bytes = put offset 0 to_copy source d.bytes })
]

-- A new cluster of an append, already linked: cleared if it is not filled whole.
append_cluster : ℕ → Array ℕ → ℕ → ℕ → ℕ → Disk → Bool × Disk
append_cluster cluster source appended to_copy size d = elim (cluster_lba cluster d) [
  | none ↦ (false, d)
  | some lba ↦
      let offset = mul64 lba sector_size in
      let ground = if ltb to_copy size then clear offset size d.bytes else d.bytes in
      if not (bytes_range_valid offset size d)
      then (false, d)
      else sync_sector_range_no_flush lba d.fat32.sectors_per_cluster
          (record d { bytes = put offset appended to_copy source ground })
]

-- The last loop of an append, on fuel: a round for each byte at most.
append_from : ℕ → ℕ → Array ℕ → ℕ → ℕ → ℕ → Disk → Bool × Disk
unfolding append_cluster
append_from zero last_cluster source appended size cluster_size d = (leb size appended, d)
append_from (suc fuel) last_cluster source appended size cluster_size d =
    let to_copy = min (size - appended) cluster_size in
    let (taken, d1) = alloc_cluster_no_zero d in
    if leb size appended then flush_hw d else elim taken [
      | none ↦ (false, d1)
      | some new_cluster ↦
          let (linked, d2) = fat_write_entry last_cluster new_cluster d1 in
          let (ok, d3) = append_cluster new_cluster source appended to_copy cluster_size d2 in
          let rest =
            append_from fuel new_cluster source (appended + to_copy) size cluster_size d3 in
          if not linked
          then (false, free_chain new_cluster d2)
          else if ok
          then rest
          else (false, d3)
    ]

-- The first cluster of the file, and whether the append went well. A null `data` is `none`.
append_file_chain : ℕ → ℕ → Option (Array ℕ) → ℕ → Disk → Bool × ℕ × Disk
unfolding append_from
append_file_chain first_cluster old_size given size d =
    let cluster_size = d.fat32.cluster_size_bytes in
    if size == 0 then (true, first_cluster, d) else elim given [
      | none ↦ (false, first_cluster, d)
      | some source ↦
          if cluster_size == 0
          then (false, first_cluster, d)
          else if cluster_valid d.fat32 first_cluster
          then append_old source cluster_size
          else append_new source ((size + cluster_size - 1) / cluster_size)
    ]
  where
    append_old : Array ℕ → ℕ → Bool × ℕ × Disk
    append_old source cluster_size =
        let (last, d1) = chain_last_cluster first_cluster d in
        let within = old_size % cluster_size in
        let to_copy = min size (cluster_size - within) in
        elim last [
          | none ↦ (false, first_cluster, d1)
          | some last_cluster ↦
              let (ok, d2) = fill_last last_cluster within to_copy source d1 in
              let whole = append_from (suc size) last_cluster source 0 size cluster_size d1 in
              let rest = append_from (suc size) last_cluster source to_copy size cluster_size d2 in
              if within == 0
              then (whole.0, first_cluster, whole.1)
              else if not ok
              then (false, first_cluster, d2)
              else if leb size to_copy
              then (let (flushed, d3) = flush_hw d2 in (flushed, first_cluster, d3))
              else (rest.0, first_cluster, rest.1)
        ]

    append_new : Array ℕ → ℕ → Bool × ℕ × Disk
    append_new source need =
        let (chain, d1) = alloc_chain need d in
        if need == 0 || ltb d.fat32.cluster_count need
        then (false, first_cluster, d)
        else elim chain [
          | none ↦ (false, first_cluster, d1)
          | some first ↦
              let (ok, d2) = write_file_chain first (some source) size d1 in (ok, first, d2)
        ]
