-- ===== src/Disk/Tests/Files.antt =====
-- Tests of kernel/storage/disk/fat_alloc.inc and file_chain.inc on the small volume.
use clks.Base.{inl, ℕ, ◌+◌, ◌*◌, ◌≤◌, ◌<◌, ◌≡◌, ◌≢◌, arith, refl, true, some}
use clks.Disk.{
  sector_size, eoc, eoc_min, free_cluster, write_u32, read_u32, ata_read_sectors_hw,
  ata_write_sectors_hw, ata_cache_flush_hw,
}
use clks.Disk.Cache.{
  bytes_range_valid, ensure_loaded_range, load_from, load_batch, batch_from, loaded_test, test_bit,
  set_bit, mark_from, loaded_mark_range, sync_sector_range, sync_sector_range_no_flush, write_batch,
  write_from, flush_hw,
}
use clks.Disk.Layout.{cluster_valid, cluster_lba, fat_is_eoc}
use clks.Disk.Layout.Regions.{InVolume, region}
use clks.Disk.Fat.{fat_read_entry, fat_write_entry, write_copy, write_copies, fat_next_cluster}
use clks.Disk.Fat.Entries.{IsSound, link}
use clks.Disk.Clusters.{find_free_cluster, scan, alloc_cluster_no_zero, alloc_from, alloc_chain}
use clks.Disk.Clusters.Reaching.{Reaches, here, step}
use clks.Disk.Clusters.Allocation.{alloc_chain-Reaches, alloc_chain-spares}
use clks.Disk.Chain.{
  chain_last_cluster, last_from, read_file_chain, read_from, follow, fill_last, write_file_chain,
}
use clks.Disk.Chain.Ends.{chain_last_cluster-Reaches}
use clks.Disk.Chain.Reading.{read_file_chain-walk}
use clks.Disk.Chain.Rounds.{walk}
use clks.Disk.Chain.Success.{read_file_chain-Works}
use clks.Disk.Chain.Appending.{fill_last-drive}
use clks.Disk.Chain.Flushing.{write_file_chain-flushes}
use clks.Disk.Tests.{volume_bytes, layout, mounted, mounted-IsSound, valid_4}

finds_5 : (find_free_cluster mounted).0 ≡ some 5
unfolding find_free_cluster scan fat_read_entry read_u32 ensure_loaded_range bytes_range_valid
    load_from loaded_test test_bit load_batch ata_read_sectors_hw batch_from loaded_mark_range
    mark_from set_bit
finds_5 = refl

allocates : (alloc_chain 2 mounted).0 ≡ some 5
unfolding alloc_chain alloc_from alloc_cluster_no_zero find_free_cluster scan fat_read_entry
    read_u32 ensure_loaded_range bytes_range_valid load_from loaded_test test_bit load_batch
    ata_read_sectors_hw batch_from loaded_mark_range mark_from set_bit fat_write_entry write_copies
    write_copy sync_sector_range write_from write_batch ata_write_sectors_hw flush_hw
    ata_cache_flush_hw write_u32
allocates = refl

alloc_chain-Reaches_example :
    let e = (alloc_chain 2 mounted).1 in
    (last : ℕ) × Reaches layout (link e) 5 last 1
    × (link e last ≡ eoc)
    × InVolume layout 5
    × IsSound e
alloc_chain-Reaches_example = alloc_chain-Reaches 1 5 mounted mounted-IsSound allocates

link_3 : link mounted 3 ≡ 4
unfolding read_u32
link_3 = refl

used_3 : link mounted 3 ≢ free_cluster
used_3 z = let e = link_3 in absurd (omega arith)

-- More clusters than the volume has
alloc_chain-spares_example :
    let e = (alloc_chain 70000 mounted).1 in
    (link e 3 ≡ link mounted 3) × (e.drive.media 631296 ≡ 72)
alloc_chain-spares_example =
    alloc_chain-spares 69999 3 631296 mounted mounted-IsSound (inl (λ n. refl)) refl used_3
      (omega arith)

last_is_4 : (chain_last_cluster 3 mounted).0 ≡ some 4
unfolding chain_last_cluster last_from fat_next_cluster fat_is_eoc cluster_valid fat_read_entry
    read_u32 ensure_loaded_range bytes_range_valid load_from loaded_test test_bit load_batch
    ata_read_sectors_hw batch_from loaded_mark_range mark_from set_bit
last_is_4 = refl

chain_last_cluster-Reaches_example :
    (n : ℕ) × (n < 68768) × Reaches layout (link mounted) 3 4 n × (eoc_min ≤ link mounted 4)
chain_last_cluster-Reaches_example =
    chain_last_cluster-Reaches 3 4 mounted mounted-IsSound last_is_4

reads_file : (read_file_chain 3 513 (λ _. 0) mounted).0 ≡ true
unfolding read_file_chain read_from follow cluster_lba fat_next_cluster fat_is_eoc cluster_valid
    fat_read_entry read_u32 ensure_loaded_range bytes_range_valid load_from loaded_test test_bit
    load_batch ata_read_sectors_hw batch_from loaded_mark_range mark_from set_bit
reads_file = refl

read_file_chain-walk_example :
    (read_file_chain 3 513 (λ _. 0) mounted).1 512
    ≡ volume_bytes (region layout (walk (link mounted) 1 3) * sector_size + 0)
read_file_chain-walk_example =
    read_file_chain-walk 3 513 1 0 (λ _. 0) mounted mounted-IsSound reads_file (omega arith)
      (omega arith)

fills : (fill_last 4 1 2 (λ _. 74) mounted).0 ≡ true
unfolding fill_last cluster_lba cluster_valid sync_sector_range_no_flush write_from write_batch
    ata_write_sectors_hw ensure_loaded_range bytes_range_valid load_from loaded_test test_bit
    load_batch ata_read_sectors_hw batch_from loaded_mark_range mark_from set_bit
fills = refl

-- The byte 73 that the drive has in front of the new ones is lost: the buffer had not loaded it.
fill_last-drive_example :
    let e = (fill_last 4 1 2 (λ _. 74) mounted).1 in
    (e.drive.media 631810 ≡ 74) × (e.drive.media 631808 ≡ 0)
fill_last-drive_example =
    fill_last-drive 4 1 2 1 631808 (λ _. 74) mounted mounted-IsSound valid_4 (omega arith) fills
      (omega arith) (omega arith) (omega arith)

write_file_chain-flushes_example :
    (write_file_chain 3 (some (λ _. 75)) 600 mounted).1.drive.flushes ≡ 0
write_file_chain-flushes_example = write_file_chain-flushes 3 (some (λ _. 75)) 600 mounted

two_clusters : Reaches layout (link mounted) 3 4 1
unfolding read_u32
two_clusters = step refl (omega arith, omega arith) here

read_file_chain-Works_example : (read_file_chain 3 513 (λ _. 0) mounted).0 ≡ true
read_file_chain-Works_example =
    read_file_chain-Works 3 4 1 513 (λ _. 0) mounted mounted-IsSound (λ n. refl)
      (omega arith, omega arith) two_clusters (omega arith) (omega arith)
