-- ===== src/Disk/Tests.antt =====
-- Tests of the model of kernel/storage/disk.c: a small volume, and what the theorems say of it.
mod Files
use clks.Base.{
  ℕ, zero, suc, ◌+◌, ◌*◌, ◌/◌, ◌%◌, ◌^◌, ◌≤◌, ◌<◌, ◌≡◌, ◌≢◌, ◌⊎◌, arith, refl, true, false, none,
  some, List, [], ◌∷◌, ◌==◌, if◌then◌else◌, Array,
}
use clks.Disk.{
  Disk, Drive, Fat32Layout, sector_size, eoc, eoc_min, free_cluster, write_u32, read_u16, read_u32,
  ata_read_sectors_hw, ata_write_sectors_hw, ata_cache_flush_hw,
}
use clks.Disk.Cache.{
  loaded_bitmap_required_bytes, bytes_range_valid, ensure_loaded_range, load_from, load_batch,
  batch_from, loaded_test, test_bit, set_bit, mark_from, loaded_mark_range, sync_sector_range,
  sync_sector_range_no_flush, write_batch, write_from, flush_hw,
}
use clks.Disk.Cache.Loading.{IsBacked-with, IsBacked, IsCoherent, Loads-refl}
use clks.Disk.Cache.Presence.{ensure_loaded_range-Works, ensure_loaded_range_reads}
use clks.Disk.Layout.{
  no_layout, accepts, parse_at, parse_fat32_layout, cluster_valid, cluster_lba, fat_is_eoc,
}
use clks.Disk.Layout.Bounds.{IsVolume, parse_fat32_layout-IsVolume}
use clks.Disk.Layout.Regions.{InVolume, region, cluster_lba_apart}
use clks.Disk.Fat.{
  has_entry, fat_read_entry, fat_write_entry, write_copy, write_copies, fat_next_cluster,
}
use clks.Disk.Fat.Entries.{IsSound, link, fat_read_entry-link}
use clks.Disk.Fat.Table.{Rewritten, fat_write_entry-link, fat_read_entry-fat_write_entry}
use clks.Disk.Clusters.{find_free_cluster, scan, alloc_cluster_no_zero, alloc_from, alloc_chain}
use clks.Disk.Clusters.Search.{find_free_cluster-free}
use clks.Disk.Clusters.Reaching.{Reaches, here, step}
use clks.Disk.Clusters.Allocation.{alloc_chain-Reaches, alloc_chain-spares}
use clks.Disk.Init.{alloc_buffer, set_up, start, init}
use clks.Disk.Init.Sound.{init-IsSound}
use clks.Disk.Chain.{
  chain_last_cluster, last_from, read_file_chain, read_from, follow, fill_last, write_file_chain,
}
use clks.Disk.Chain.Ends.{chain_last_cluster-Reaches}
use clks.Disk.Chain.Reading.{read_file_chain-walk}
use clks.Disk.Chain.Rounds.{walk}
use clks.Disk.Chain.Success.{read_file_chain-Works}
use clks.Disk.Chain.Appending.{fill_last-drive}
use clks.Disk.Chain.Flushing.{write_file_chain-flushes}

-- The bytes that are not 0, by their place
abbrev sparse : List (ℕ × ℕ) → Array ℕ
sparse [] j = 0
sparse ((i, v) ∷ rest) j = if j == i then v else sparse rest j

-- 70000 sectors: 32 reserved ones, two tables of 600, and clusters of one sector. The root directory is
-- in cluster 2; a file is in the clusters 3 and 4.
abbrev pub volume_bytes : Array ℕ
volume_bytes = sparse (
    (12, 2)
    ∷ (13, 1)
    ∷ (14, 32)
    ∷ (16, 2)
    ∷ (32, 0x70)
    ∷ (33, 0x11)
    ∷ (34, 0x01)
    ∷ (36, 0x58)
    ∷ (37, 0x02)
    ∷ (44, 2)
    ∷ (82, 70)
    ∷ (83, 65)
    ∷ (84, 84)
    ∷ (85, 51)
    ∷ (86, 50)
    ∷ (510, 0x55)
    ∷ (511, 0xAA)
    ∷ (16392, 0xFF)
    ∷ (16393, 0xFF)
    ∷ (16394, 0xFF)
    ∷ (16395, 0x0F)
    ∷ (16396, 4)
    ∷ (16400, 0xFF)
    ∷ (16401, 0xFF)
    ∷ (16402, 0xFF)
    ∷ (16403, 0x0F)
    ∷ (631296, 72)
    ∷ (631808, 73)
    ∷ [])

abbrev pub drive : Drive
drive = record { media = volume_bytes; stops = λ _. none; commands = 0; flushes = 0 }

-- The disk as `clks_disk_init` leaves it before it reads the boot sector
abbrev fresh : Disk
fresh = record {
  bytes = λ _. 0;
  has_bytes = true;
  bytes_len = 35840000;
  sector_total = 70000;
  bitmap = λ _. 0;
  has_bitmap = true;
  bitmap_bytes = 8750;
  ready = true;
  hw_backed = true;
  fat32 = no_layout;
  alloc_hint = 2;
  drive = drive;
}

abbrev pub layout : Fat32Layout
layout = record {
  valid = true;
  bytes_per_sector = 512;
  sectors_per_cluster = 1;
  reserved_sectors = 32;
  fat_count = 2;
  sectors_per_fat = 600;
  total_sectors = 70000;
  root_cluster = 2;
  cluster_count = 68768;
  cluster_size_bytes = 512;
  entries_per_cluster = 16;
  volume_lba = 0;
  fat_lba = 32;
  data_lba = 1232;
}

abbrev pub mounted : Disk
mounted = record fresh { fat32 = layout }

parses : (parse_fat32_layout fresh).1.fat32 ≡ layout
unfolding parse_fat32_layout ensure_loaded_range bytes_range_valid load_from loaded_test test_bit
    load_batch ata_read_sectors_hw batch_from loaded_mark_range parse_at accepts read_u16 read_u32
parses = refl

no_bit : (k : ℕ) → test_bit k 0 ≡ false
unfolding test_bit
no_bit zero = refl
no_bit (suc k) = no_bit k

fresh-IsBacked : IsBacked fresh
fresh-IsBacked = record {
  backed = refl;
  buffer = refl;
  allocated = refl;
  room = omega arith;
  len = refl;
  some_sectors = omega arith;
  small = omega arith;
}

mounted-IsBacked : IsBacked mounted
mounted-IsBacked = IsBacked-with fresh-IsBacked

mounted-IsCoherent : IsCoherent mounted
unfolding IsCoherent loaded_test
mounted-IsCoherent j h = let off = no_bit (j / 512 % 8) in absurd (ground arith)

layout-IsVolume : IsVolume layout 70000
layout-IsVolume = record {
  valid = refl;
  cluster_pos = omega arith;
  cluster_small = omega arith;
  cluster_size = refl;
  copies = omega arith;
  table = omega arith;
  enough = omega arith;
  few = omega arith;
  root = (omega arith, omega arith);
  reserved = omega arith;
  tables = refl;
  fits = omega arith;
}

pub mounted-IsSound : IsSound mounted
mounted-IsSound = record {
  backed = mounted-IsBacked;
  coherent = mounted-IsCoherent;
  sized = record { volume = layout-IsVolume; small = omega arith };
}

ensure_loaded_range-Works_example : (ensure_loaded_range 16384 4 mounted).0 ≡ true
ensure_loaded_range-Works_example =
    ensure_loaded_range-Works 16384 4 mounted mounted-IsBacked (λ n. refl) (omega arith)

entry_loads : (ensure_loaded_range 16384 16 mounted).0 ≡ true
unfolding ensure_loaded_range bytes_range_valid load_from loaded_test test_bit load_batch
    ata_read_sectors_hw batch_from loaded_mark_range mark_from set_bit
entry_loads = refl

ensure_loaded_range_reads_example : (ensure_loaded_range 16384 16 mounted).1.bytes 16396 ≡ 4
ensure_loaded_range_reads_example =
    ensure_loaded_range_reads 16384 16 mounted mounted-IsBacked mounted-IsCoherent entry_loads 16396
      (omega arith) (omega arith)

parses_well : (parse_fat32_layout fresh).0 ≡ true
unfolding parse_fat32_layout parse_at accepts read_u16 read_u32 ensure_loaded_range
    bytes_range_valid load_from loaded_test test_bit load_batch ata_read_sectors_hw batch_from
    loaded_mark_range mark_from set_bit
parses_well = refl

parse_fat32_layout-IsVolume_example :
    IsVolume (parse_fat32_layout fresh).1.fat32 (parse_fat32_layout fresh).1.sector_total
parse_fat32_layout-IsVolume_example = parse_fat32_layout-IsVolume fresh fresh-IsBacked parses_well

valid_3 : cluster_valid layout 3 ≡ true
unfolding cluster_valid
valid_3 = refl

pub valid_4 : cluster_valid layout 4 ≡ true
unfolding cluster_valid
valid_4 = refl

cluster_lba_apart_example :
    (a : ℕ) × (a' : ℕ) × (cluster_lba 3 mounted ≡ some a)
    × (cluster_lba 4 mounted ≡ some a')
    × (layout.fat_lba + layout.fat_count * layout.sectors_per_fat ≤ a)
    × (a + layout.sectors_per_cluster ≤ mounted.sector_total)
    × ((a + layout.sectors_per_cluster ≤ a') ⊎ (a' + layout.sectors_per_cluster ≤ a))
cluster_lba_apart_example =
    cluster_lba_apart mounted 3 4 layout-IsVolume (omega arith) valid_3 valid_4 (omega arith)

reads_3 : (fat_read_entry 3 mounted).0 ≡ some 4
unfolding fat_read_entry read_u32 ensure_loaded_range bytes_range_valid load_from loaded_test
    test_bit load_batch ata_read_sectors_hw batch_from loaded_mark_range mark_from set_bit
reads_3 = refl

writes_5 : (fat_write_entry 5 eoc mounted).0 ≡ true
unfolding fat_read_entry read_u32 ensure_loaded_range bytes_range_valid load_from loaded_test
    test_bit load_batch ata_read_sectors_hw batch_from loaded_mark_range mark_from set_bit
    fat_write_entry write_copies write_copy sync_sector_range write_from write_batch
    ata_write_sectors_hw flush_hw ata_cache_flush_hw write_u32
writes_5 = refl

fat_write_entry-link_example : Rewritten 5 eoc mounted (fat_write_entry 5 eoc mounted).1
fat_write_entry-link_example = fat_write_entry-link 5 eoc mounted mounted-IsSound writes_5

reads_5 : (fat_read_entry 5 (fat_write_entry 5 eoc mounted).1).0 ≡ some eoc
unfolding fat_read_entry read_u32 ensure_loaded_range bytes_range_valid load_from loaded_test
    test_bit load_batch ata_read_sectors_hw batch_from loaded_mark_range mark_from set_bit
    fat_write_entry write_copies write_copy sync_sector_range write_from write_batch
    ata_write_sectors_hw flush_hw ata_cache_flush_hw write_u32
reads_5 = refl

starts : (init (some 70000) 0x6000000 (λ n size. true) true drive).ready ≡ true
unfolding init set_up alloc_buffer start loaded_bitmap_required_bytes parse_fat32_layout parse_at
    accepts read_u16 read_u32 ensure_loaded_range bytes_range_valid load_from loaded_test test_bit
    load_batch ata_read_sectors_hw batch_from loaded_mark_range mark_from set_bit
starts = refl

starts_with_volume : (init (some 70000) 0x6000000 (λ n size. true) true drive).fat32.valid ≡ true
unfolding init set_up alloc_buffer start loaded_bitmap_required_bytes parse_fat32_layout parse_at
    accepts read_u16 read_u32 ensure_loaded_range bytes_range_valid load_from loaded_test test_bit
    load_batch ata_read_sectors_hw batch_from loaded_mark_range mark_from set_bit
starts_with_volume = refl

init-IsSound_example : IsSound (init (some 70000) 0x6000000 (λ n size. true) true drive)
init-IsSound_example =
    init-IsSound (some 70000) 0x6000000 (λ n size. true) true drive starts starts_with_volume
