-- ===== src/Disk/Cache/Presence.antt =====
-- Loading on demand in kernel/storage/disk/cache_io.inc: what is loaded afterwards, and that its loop
-- comes to its end.
use clks.Base.{
  ℕ, zero, suc, ◌+◌, ◌-◌, ◌/◌, ◌^◌, ◌≤◌, ◌<◌, ◌≡◌, arith, refl, Bool, true, false, ◌||◌, not,
  Option, none, leb, ◌==◌, ap, ◌∙◌, sym, if_elim, dec_lt, min, subst, Array,
}
use clks.Disk.{Disk, sector_size, batch_sectors}
use clks.Disk.Cache.Batches.{filled, load_batch_cases}
use clks.Disk.Cache.{
  loaded_test, batch_from, load_batch, load_from, ensure_loaded_range, end_sector,
  bytes_range_valid,
}
use clks.Disk.Cache.Marks.{HasBit, loaded_mark_inside}
use clks.Disk.Cache.Loading.{
  IsCoherent, IsBacked, Loads-HasBit, HasBit-below, load_batch-Loads, load_from-Loads,
  ensure_loaded_range-Loads,
}

-- If it went well the sector `l` is loaded.
abbrev Present : ℕ → Bool × Disk → Type 0
Present l r = r.0 ≡ true → loaded_test l r.1 ≡ true

load_batch-Present :
    (lba n : ℕ) (d : Disk) (l : ℕ)
    → lba ≤ l
    → l < lba + n
    → HasBit d l
    → Present l (load_batch lba n d)
load_batch-Present lba n d l le lt has =
    load_batch_cases lba n d (Present l) (λ _ e. absurd (ground arith))
      (λ _ _.
        loaded_mark_inside lba n (filled lba n d) l le lt
          (record { allocated = has.allocated; room = has.room }))
      (λ k _ e. absurd (ground arith))

load_from-Present :
    (fuel lba end_lba : ℕ) (d : Disk) (l : ℕ)
    → lba ≤ l
    → l < end_lba
    → HasBit d l
    → Present l (load_from fuel lba end_lba d)
unfolding load_from
load_from-Present zero lba end_lba d l le lt has = λ e. absurd (ground arith)
load_from-Present (suc fuel) lba end_lba d l le lt has =
    let count = batch_from (min batch_sectors (end_lba - lba)) lba d in
    let batch = load_batch lba count d in
    let kept = load_batch-Loads lba count d in
    if_elim (Present l) (leb end_lba lba) (λ past. absurd (ground arith))
      (λ _.
        if_elim (Present l) (loaded_test lba d)
          (λ present e. elim (dec_lt lba l) [
            | yes later ↦ load_from-Present fuel (lba + 1) end_lba d l (omega arith) lt has e
            | no here ↦
                (load_from-Loads fuel (lba + 1) end_lba d).grows l
                  (subst (λ i. loaded_test i d ≡ true) (omega arith) present)
          ])
          (λ _.
            if_elim (Present l) batch.0
              (λ ok e. elim (dec_lt l (lba + count)) [
                | yes inside ↦
                    (load_from-Loads fuel (lba + count) end_lba batch.1).grows l
                      (load_batch-Present lba count d l le inside has ok)
                | no past ↦
                    load_from-Present fuel (lba + count) end_lba batch.1 l (omega arith) lt
                      (Loads-HasBit kept l has) e
              ])
              (λ _ e. absurd (ground arith))))

pub ensure_loaded_range-Present :
    (offset size : ℕ) (d : Disk)
    → IsBacked d
    → (j : ℕ) → offset ≤ j
    → j < offset + size
    → Present (j / sector_size) (ensure_loaded_range offset size d)
unfolding ensure_loaded_range bytes_range_valid
ensure_loaded_range-Present offset size d b j le lt =
    let start = offset / sector_size in
    let end = end_sector offset size in
    let l = j / sector_size in
    let e1 = b.backed in
    let e2 = b.allocated in
    let e3 = b.room in
    let e4 = b.len in
    let e5 = b.some_sectors in
    let e6 = b.small in
    if_elim (Present l) (size == 0) (λ none. absurd (ground arith))
      (λ _.
        if_elim (Present l) (not (bytes_range_valid offset size d)) (λ _ e. absurd (ground arith))
          (λ valid.
            if_elim (Present l) (not d.hw_backed) (λ off. absurd (ground arith))
              (λ _.
                if_elim (Present l) (not d.has_bitmap || d.bitmap_bytes == 0)
                  (λ _ e. absurd (ground arith))
                  (λ _.
                    let within : offset + size ≤ d.bytes_len = ground arith in
                    load_from-Present (end - start) start end d l (omega arith) (omega arith)
                      (HasBit-below d b l (omega arith))))))

-- On a disk as `clks_disk_init` sets it up and whose buffer agrees with the drive on the loaded
-- sectors: once a range of bytes was made present, the buffer holds there what the drive holds.
pub ensure_loaded_range_reads :
    (offset size : ℕ) (d : Disk)
    → IsBacked d
    → IsCoherent d
    → (ensure_loaded_range offset size d).0 ≡ true
    → (j : ℕ) → offset ≤ j
    → j < offset + size
    → (ensure_loaded_range offset size d).1.bytes j ≡ d.drive.media j
unfolding IsCoherent
ensure_loaded_range_reads offset size d backed same ok j le lt =
    let kept = ensure_loaded_range-Loads offset size d in
    kept.coherent same j (ensure_loaded_range-Present offset size d backed j le lt ok)
    ∙ ap (λ (f : Array ℕ). f j) kept.content

batch_from_le : (rounds lba : ℕ) (d : Disk) → batch_from rounds lba d ≤ rounds
unfolding batch_from
batch_from_le zero lba d = omega arith
batch_from_le (suc rounds) lba d = ground (arith, batch_from_le rounds (lba + 1) d)

batch_from_pos :
    (rounds lba : ℕ) (d : Disk)
    → loaded_test lba d ≡ false
    → 0 < rounds
    → 0 < batch_from rounds lba d
unfolding batch_from
batch_from_pos zero lba d h pos = pos
batch_from_pos (suc rounds) lba d h pos = ground arith

-- No command of the drive ends in an error.
abbrev pub Works : Disk → Type 0
Works d = (n : ℕ) → d.drive.stops n ≡ none

load_batch-Works :
    (lba n : ℕ) (d : Disk)
    → Works d
    → 0 < n
    → n ≤ batch_sectors
    → lba + n ≤ 2 ^ 28
    → (load_batch lba n d).0 ≡ true
load_batch-Works lba n d works pos le room =
    load_batch_cases lba n d (λ r. r.0 ≡ true) (λ rejected. absurd (ground arith)) (λ _. refl)
      (λ k stopped. let goes_on = works d.drive.commands in absurd (ground arith))

load_from-Works :
    (fuel lba end_lba : ℕ) (d : Disk)
    → Works d
    → end_lba ≤ lba + fuel
    → end_lba ≤ 2 ^ 28
    → (load_from fuel lba end_lba d).0 ≡ true
unfolding load_from
load_from-Works zero lba end_lba d works enough room = ground arith
load_from-Works (suc fuel) lba end_lba d works enough room =
    let count = batch_from (min batch_sectors (end_lba - lba)) lba d in
    let batch = load_batch lba count d in
    let kept = load_batch-Loads lba count d in
    let le = batch_from_le (min batch_sectors (end_lba - lba)) lba d in
    if_elim (λ (r : Bool × Disk). r.0 ≡ true) (leb end_lba lba) (λ _. refl)
      (λ more.
        if_elim (λ (r : Bool × Disk). r.0 ≡ true) (loaded_test lba d)
          (λ _. load_from-Works fuel (lba + 1) end_lba d works (omega arith) room)
          (λ absent.
            let more' : lba < end_lba = ground arith in
            let pos : 0 < count = batch_from_pos _ lba d absent (omega arith) in
            if_elim (λ (r : Bool × Disk). r.0 ≡ true) batch.0
              (λ _.
                load_from-Works fuel (lba + count) end_lba batch.1
                  (λ n. ap (λ (f : ℕ → Option ℕ). f n) kept.outcomes ∙ works n) (omega arith) room)
              (λ failed.
                sym failed ∙ load_batch-Works lba count d works pos (omega arith) (omega arith))))

-- On a disk as `clks_disk_init` sets it up, whose drive completes its commands, every range of bytes
-- within the buffer can be made present: the loop over the batches comes to its end within one round
-- for each sector.
pub ensure_loaded_range-Works :
    (offset size : ℕ) (d : Disk)
    → IsBacked d
    → Works d
    → offset + size ≤ d.bytes_len
    → (ensure_loaded_range offset size d).0 ≡ true
unfolding ensure_loaded_range bytes_range_valid
ensure_loaded_range-Works offset size d b works within =
    let start = offset / sector_size in
    let end = end_sector offset size in
    let e1 = b.backed in
    let e2 = b.allocated in
    let e3 = b.room in
    let e4 = b.len in
    let e5 = b.some_sectors in
    let e6 = b.small in
    let e7 = b.buffer in
    let done = load_from-Works (end - start) start end d works (omega arith) (omega arith) in
    ground arith
