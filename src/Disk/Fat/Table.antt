-- ===== src/Disk/Fat/Table.antt =====
-- kernel/storage/disk/fat_layout.inc: writing an entry into all copies of the table on the drive.
use clks.Base.{
  ◌⊎◌, ◌/◌, ℕ, ◌+◌, ◌*◌, ◌%◌, ◌^◌, ◌≤◌, ◌<◌, ◌≡◌, ◌≢◌, inl, inr, arith, Bool, true, false, some,
  ◌==◌, if◌then◌else◌, ap, ◌∙◌, if_elim, ℕ_discrete,
}
use clks.Disk.{Disk, sector_size}
use clks.Disk.Cache.Loading.{Loads}
use clks.Disk.Fat.{has_entry, merged, write_copies, fat_write_entry, fat_read_entry}
use clks.Disk.Fat.Place.{position, position_fits, position-Apart}
use clks.Disk.Fat.Entries.{IsSound, Loads-IsSound, Loads-link, fat_read_entry-link, link, entry}
use clks.Disk.Fat.Updates.{onto}
use clks.Disk.Fat.Copies.{Elsewhere, entry_same, write_copies-Copied}

-- The links on the drive after a write of one of them, and what the write leaves alone: the bytes in
-- front of the tables and behind them, and everything but the buffer and the drive.
pub record Links (cluster value : ℕ) (d e : Disk) : Type 0 where
  pub frame : e ≡ onto e d
  pub outcomes : e.drive.stops ≡ d.drive.stops
  pub sound : IsSound e
  pub copies :
      (k : ℕ) → k < d.fat32.fat_count → entry e k cluster ≡ merged (entry d k cluster) value
  pub rest : (j : ℕ) → Elsewhere d 0 d.fat32.fat_count cluster j → e.drive.media j ≡ d.drive.media j
  pub written : link e cluster ≡ value % 2 ^ 28
  pub others :
      (other : ℕ) → has_entry d.fat32 other ≡ true → other ≢ cluster → link e other ≡ link d other
  pub contents : (j : ℕ) → d.fat32.data_lba * sector_size ≤ j → e.drive.media j ≡ d.drive.media j

-- Outside of the tables no byte is an entry.
Elsewhere-data :
    (d : Disk) (cluster j : ℕ)
    → IsSound d
    → has_entry d.fat32 cluster ≡ true
    → d.fat32.data_lba * sector_size ≤ j
    → Elsewhere d 0 d.fat32.fat_count cluster j
Elsewhere-data d cluster j s has le k _ lt =
    let e1 = position_fits d.fat32 d.sector_total k cluster s.sized (omega arith) has in
    inr (omega arith)

Elsewhere-other :
    (d : Disk) (cluster other i j : ℕ)
    → has_entry d.fat32 cluster ≡ true
    → has_entry d.fat32 other ≡ true
    → other ≢ cluster
    → position d.fat32 i other ≤ j
    → j < position d.fat32 i other + 4
    → Elsewhere d 0 d.fat32.fat_count cluster j
Elsewhere-other d cluster other i j has has' ne a b k _ lt =
    elim (position-Apart d.fat32 i k other cluster has' has (inr ne)) [
      | inl before ↦ inl (omega arith)
      | inr after ↦ inr (omega arith)
    ]

pub fat_write_entry-Links :
    (cluster value : ℕ) (d : Disk)
    → IsSound d
    → (fat_write_entry cluster value d).0 ≡ true
    → (has_entry d.fat32 cluster ≡ true) × Links cluster value d (fat_write_entry cluster value d).1
unfolding fat_write_entry
fat_write_entry-Links cluster value d s =
    if_elim Goal (has_entry d.fat32 cluster)
      (λ has ok.
        let count = d.fat32.fat_count in
        let e = (write_copies count 0 cluster value d).1 in
        let q = write_copies-Copied count 0 cluster value d s (omega arith) has ok in
        let layout : e.fat32 ≡ d.fat32 = ap (λ (y : Disk). y.fat32) q.frame in
        (
          has,
          record {
            frame = q.frame;
            outcomes = q.outcomes;
            sound = q.sound;
            copies = λ k lt. q.copies k (omega arith) (omega arith);
            rest = q.rest;
            written =
                ap (λ n. n % 2 ^ 28)
                  (q.copies 0 (omega arith) (omega (arith, s.sized.volume.copies)))
                ∙ omega arith;
            others = λ other has' ne.
                ap (λ n. n % 2 ^ 28)
                  (entry_same d e 0 other layout
                    (λ j a b. q.rest j (Elsewhere-other d cluster other 0 j has has' ne a b)));
            contents = λ j le. q.rest j (Elsewhere-data d cluster j s has le);
          },
        ))
      (λ _ ok. absurd (cc ok))
  where
    Goal : Bool × Disk → Type 0
    Goal x = x.0 ≡ true → (has_entry d.fat32 cluster ≡ true) × Links cluster value d x.1

-- What a write of an entry does to the drive: in each copy of the table the entry of the cluster has the new
-- value in its low 28 bits and keeps its high four; no other byte of the drive changes, and so no other entry
-- of any copy; the table links the clusters as before but for the one.
pub record Rewritten (cluster value : ℕ) (d e : Disk) : Type 0 where
  pub copies :
      (k : ℕ)
      → k < d.fat32.fat_count
      → entry e k cluster ≡ entry d k cluster / 2 ^ 28 % 16 * 2 ^ 28 + value % 2 ^ 28
  pub rest :
      (j : ℕ)
      → ((k : ℕ)
          → k < d.fat32.fat_count
          → (j < position d.fat32 k cluster) ⊎ (position d.fat32 k cluster + 4 ≤ j))
      → e.drive.media j ≡ d.drive.media j
  pub others :
      (k other : ℕ)
      → k < d.fat32.fat_count
      → has_entry d.fat32 other ≡ true
      → other ≢ cluster
      → entry e k other ≡ entry d k other
  pub links :
      (other : ℕ)
      → has_entry d.fat32 other ≡ true
      → link e other ≡ (if other == cluster then value % 2 ^ 28 else link d other)
  pub contents : (j : ℕ) → d.fat32.data_lba * sector_size ≤ j → e.drive.media j ≡ d.drive.media j
  pub sound : IsSound e

-- On a sound disk: after an entry was written, every copy of the table on the drive has the new value in the
-- low 28 bits of the entry and the old high four bits; no other byte of the drive changed, in particular no
-- other entry of any copy and no byte of the clusters. So the table links each cluster as before and the one
-- cluster as it was told to, and the disk is sound again.
pub fat_write_entry-link :
    (cluster value : ℕ) (d : Disk)
    → IsSound d
    → (fat_write_entry cluster value d).0 ≡ true
    → Rewritten cluster value d (fat_write_entry cluster value d).1
fat_write_entry-link cluster value d s ok =
    let (has, q) = fat_write_entry-Links cluster value d s ok in
    let e = (fat_write_entry cluster value d).1 in
    let layout : e.fat32 ≡ d.fat32 = ap (λ (y : Disk). y.fat32) q.frame in
    record {
      copies = λ k lt. q.copies k lt ∙ omega arith;
      rest = λ j out. q.rest j (λ k _ lt. out k (omega arith));
      others = λ k other lt has' ne.
          entry_same d e k other layout
            (λ j a b. q.rest j (Elsewhere-other d cluster other k j has has' ne a b));
      links = λ other has'. elim (ℕ_discrete other cluster) [
        | yes same ↦
            let test : (other == cluster) ≡ true = ground arith in
            rw test (ap (link e) same ∙ q.written)
        | no ne ↦
            let test : (other == cluster) ≡ false = ground arith in rw test (q.others other has' ne)
      ];
      contents = q.contents;
      sound = q.sound;
    }

-- On a sound disk: what was written as the entry of a cluster is read again, cut to 28 bits, whatever
-- lies between the write and the read as long as it only loads sectors.
pub fat_read_entry-fat_write_entry :
    (cluster value read : ℕ) (d e : Disk)
    → IsSound d
    → (fat_write_entry cluster value d).0 ≡ true
    → Loads (fat_write_entry cluster value d).1 e
    → (fat_read_entry cluster e).0 ≡ some read
    → read ≡ value % 2 ^ 28
fat_read_entry-fat_write_entry cluster value read d e s ok loads h =
    let (_, q) = fat_write_entry-Links cluster value d s ok in
    let e1 = (fat_write_entry cluster value d).1 in
    let (_, is) = fat_read_entry-link cluster read e (Loads-IsSound e1 e loads q.sound) h in
    is ∙ Loads-link e1 e loads cluster ∙ q.written
