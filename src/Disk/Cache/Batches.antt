-- ===== src/Disk/Cache/Batches.antt =====
-- One batch of sectors in kernel/storage/disk/cache_io.inc: what a load and a write come to, by the
-- outcome of the command.
use clks.Base.{
  ℕ, ◌+◌, ◌*◌, ◌≡◌, refl, Bool, true, false, Option, none, some, if◌then◌else◌, min, Array, if_elim,
}
use clks.Disk.{
  Disk, Drive, sector_size, ata_read_sectors_hw, ata_write_sectors_hw, put, transferred, completes,
  ata_rejects,
}
use clks.Disk.Cache.{loaded_mark_range, load_batch, write_batch}

-- The buffer after a transfer of `n` sectors
abbrev pub filled : ℕ → ℕ → Disk → Disk
filled lba n d = record d {
  bytes = put (lba * sector_size) (lba * sector_size) (n * sector_size) d.drive.media d.bytes;
  drive = record d.drive { commands = d.drive.commands + 1 };
}

-- The drive after a transfer of `n` sectors
abbrev pub sent : ℕ → ℕ → Disk → Disk
sent lba n d = record d {
  drive = record d.drive {
    media = put (lba * sector_size) (lba * sector_size) (n * sector_size) d.bytes d.drive.media;
    commands = d.drive.commands + 1;
  };
}

pub load_batch_cases :
    (lba n : ℕ) (d : Disk) (P : Bool × Disk → Type 0)
    → (ata_rejects lba n ≡ true → P (false, d))
    → (d.drive.stops d.drive.commands ≡ none → P (true, loaded_mark_range lba n (filled lba n d)))
    → ((k : ℕ) → d.drive.stops d.drive.commands ≡ some k → P (false, filled lba (min k n) d))
    → P (load_batch lba n d)
unfolding load_batch ata_read_sectors_hw
load_batch_cases lba n d P rejected whole part =
    if_elim (λ r. P (load r)) (ata_rejects lba n) rejected
      (λ _. outcome_cases (d.drive.stops d.drive.commands) refl)
  where
    load : Bool × Array ℕ × Drive → Bool × Disk
    load (ok, bytes, drive) =
        let e = record d { bytes = bytes; drive = drive } in
        if ok then (true, loaded_mark_range lba n e) else (false, e)

    outcome_cases :
        (o : Option ℕ)
        → d.drive.stops d.drive.commands ≡ o
        → P (
            load (
              completes o,
              (filled lba (transferred o n) d).bytes,
              record d.drive { commands = d.drive.commands + 1 },
            ))
    outcome_cases none e = whole e
    outcome_cases (some k) e = part k e

pub write_batch_cases :
    (lba n : ℕ) (d : Disk) (P : Bool × Disk → Type 0)
    → P (false, d)
    → P (true, loaded_mark_range lba n (sent lba n d))
    → ((k : ℕ) → P (false, sent lba (min k n) d))
    → P (write_batch lba n d)
unfolding write_batch ata_write_sectors_hw
write_batch_cases lba n d P rejected whole part =
    if_elim (λ r. P (write r)) (ata_rejects lba n) (λ _. rejected)
      (λ _. outcome_cases (d.drive.stops d.drive.commands))
  where
    write : Bool × Drive → Bool × Disk
    write (ok, drive) =
        let e = record d { drive = drive } in
        if ok then (true, loaded_mark_range lba n e) else (false, e)

    outcome_cases : (o : Option ℕ) → P (write (completes o, (sent lba (transferred o n) d).drive))
    outcome_cases none = whole
    outcome_cases (some k) = part k
