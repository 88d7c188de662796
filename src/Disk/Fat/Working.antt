-- ===== src/Disk/Fat/Working.antt =====
-- kernel/storage/disk/fat_layout.inc: on a drive that completes its commands an entry can be written.
use clks.Base.{
  ℕ, zero, suc, ◌-◌, Option, ◌+◌, ◌≤◌, ◌<◌, ◌≡◌, ◌^◌, arith, refl, Bool, true, not, leb, ltb, ap,
  ◌∙◌, sym, subst, if_elim,
}
use clks.Disk.{Disk, Fat32Layout, ata_write_sectors_hw, ata_cache_flush_hw, read_u32, write_u32}
use clks.Disk.Cache.{
  bytes_range_valid, ensure_loaded_range, write_batch, write_from, flush_hw, sync_sector_range,
}
use clks.Disk.Cache.Loading.{ensure_loaded_range-Loads}
use clks.Disk.Cache.Presence.{Works, ensure_loaded_range-Works}
use clks.Disk.Cache.Writing.{Stores}
use clks.Disk.Cache.Storing.{write_from-Stores}
use clks.Disk.Chain.Following.{Loads-Works, range_valid}
use clks.Disk.Fat.{
  has_entry, entry_lba, entry_offset, merged, write_copy, write_copies, fat_write_entry,
}
use clks.Disk.Fat.Place.{position_fits, entry_lba_lem, entry_offset_lem}
use clks.Disk.Fat.Entries.{IsSound}
use clks.Disk.Fat.Updates.{write_copy-Updated}

write_batch-Works :
    (lba : ℕ) (d : Disk) → Works d → lba + 1 ≤ 2 ^ 28 → (write_batch lba 1 d).0 ≡ true
unfolding write_batch ata_write_sectors_hw
write_batch-Works lba d works room = let goes_on = works d.drive.commands in ground arith

flush_hw-Works : (d : Disk) → Works d → (flush_hw d).0 ≡ true
unfolding flush_hw ata_cache_flush_hw
flush_hw-Works d works = let goes_on = works d.drive.commands in ground arith

sync_sector_range-Works :
    (lba : ℕ) (d : Disk)
    → Works d
    → lba < d.sector_total
    → d.sector_total ≤ 2 ^ 28
    → (sync_sector_range lba 1 d).0 ≡ true
unfolding sync_sector_range write_from
sync_sector_range-Works lba d works lt small =
    if_elim (λ (r : Bool × Disk). r.0 ≡ true) (not d.hw_backed) (λ _. refl)
      (λ _.
        if_elim (λ (r : Bool × Disk). r.0 ≡ true) (leb d.sector_total lba)
          (λ above. absurd (ground arith))
          (λ _.
            if_elim (λ (r : Bool × Disk). r.0 ≡ true) (ltb (d.sector_total - lba) 1)
              (λ above. absurd (ground arith))
              (λ _.
                if_elim (λ (r : Bool × Disk). r.0 ≡ true) (write_from 1 1 lba d).0
                  (λ _. flush_hw-Works (write_from 1 1 lba d).1 later)
                  (λ failed. absurd (cc (sym failed ∙ first))))))
  where
    p : Stores lba 1 d (write_from 1 1 lba d)
    p = write_from-Stores 1 1 lba d

    later : Works (write_from 1 1 lba d).1
    later n = ap (λ (f : ℕ → Option ℕ). f n) p.outcomes ∙ works n

    first : (write_from 1 1 lba d).0 ≡ true
    first =
        if_elim (λ (r : Bool × Disk). r.0 ≡ true) (write_batch lba 1 d).0 (λ _. refl)
          (λ failed. absurd (cc (sym failed ∙ write_batch-Works lba d works (omega arith))))

entry_fits :
    (index c : ℕ) (d : Disk)
    → IsSound d
    → index < d.fat32.fat_count
    → has_entry d.fat32 c ≡ true
    → entry_offset d.fat32 index c + 4 ≤ d.bytes_len
entry_fits index c d s lt has =
    let e1 = entry_offset_lem d.fat32 d.sector_total index c s.sized lt has in
    let e2 = position_fits d.fat32 d.sector_total index c s.sized lt has in
    let e3 = s.sized.volume.fits in let e4 = s.backed.len in omega arith

write_copy-Works :
    (index cluster value : ℕ) (d : Disk)
    → IsSound d
    → Works d
    → index < d.fat32.fat_count
    → has_entry d.fat32 cluster ≡ true
    → (write_copy index cluster value d).0 ≡ true
unfolding write_copy
write_copy-Works index cluster value d s w lt has =
    let at = entry_offset d.fat32 index cluster in
    let fits = entry_fits index cluster d s lt has in
    let valid = range_valid at 4 d s fits in
    let kept = ensure_loaded_range-Loads at 4 d in
    let loads = ensure_loaded_range-Works at 4 d s.backed w fits in
    let x = (ensure_loaded_range at 4 d).1 in
    let total : x.sector_total ≡ d.sector_total = ap (λ (y : Disk). y.sector_total) kept.frame in
    let small = s.backed.small in
    let place = entry_lba_lem d.fat32 d.sector_total index cluster s.sized lt has in
    let inside = position_fits d.fat32 d.sector_total index cluster s.sized lt has in
    let volume = s.sized.volume.fits in
    if_elim Done (not (bytes_range_valid at 4 d)) (λ off. absurd (cc (off, valid)))
      (λ _.
        if_elim Done (ensure_loaded_range at 4 d).0
          (λ _.
            sync_sector_range-Works (entry_lba d.fat32 index cluster)
              (record x { bytes = write_u32 x.bytes at (merged (read_u32 x.bytes at) value) })
              (λ n. Loads-Works d x kept w n) (omega arith) (omega arith))
          (λ failed. absurd (cc (failed, loads))))
  where
    Done : Bool × Disk → Type 0
    Done r = r.0 ≡ true

write_copies-Works :
    (n index cluster value : ℕ) (d : Disk)
    → IsSound d
    → Works d
    → index + n ≤ d.fat32.fat_count
    → has_entry d.fat32 cluster ≡ true
    → (write_copies n index cluster value d).0 ≡ true
unfolding write_copies
write_copies-Works zero index cluster value d s w fits has = refl
write_copies-Works (suc n) index cluster value d s w fits has =
    let r = write_copy index cluster value d in
    let done = write_copy-Works index cluster value d s w (omega arith) has in
    let u = write_copy-Updated index cluster value d s (omega arith) has done in
    let layout : r.1.fat32 ≡ d.fat32 = ap (λ (y : Disk). y.fat32) u.frame in
    if_elim (λ (x : Bool × Disk). x.0 ≡ true) r.0
      (λ _.
        write_copies-Works n (index + 1) cluster value r.1 u.sound
          (λ n. ap (λ (f : ℕ → Option ℕ). f n) u.outcomes ∙ w n)
          (subst (λ (l : Fat32Layout). index + 1 + n ≤ l.fat_count) (sym layout) (omega arith))
          (subst (λ l. has_entry l cluster ≡ true) (sym layout) has))
      (λ failed. absurd (cc (failed, done)))

-- On a sound disk whose drive completes its commands the entry of a cluster of the table can be written.
pub fat_write_entry-Works :
    (cluster value : ℕ) (d : Disk)
    → IsSound d
    → Works d
    → has_entry d.fat32 cluster ≡ true
    → (fat_write_entry cluster value d).0 ≡ true
unfolding fat_write_entry
fat_write_entry-Works cluster value d s w has =
    if_elim (λ (x : Bool × Disk). x.0 ≡ true) (has_entry d.fat32 cluster)
      (λ _. write_copies-Works d.fat32.fat_count 0 cluster value d s w (omega arith) has)
      (λ off. absurd (cc (off, has)))
