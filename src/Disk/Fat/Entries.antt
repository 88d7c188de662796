-- ===== src/Disk/Fat/Entries.antt =====
-- kernel/storage/disk/fat_layout.inc: reading and writing entries of the table on the drive, through
-- the buffer.
use clks.Base.{
  ℕ, ◌%◌, ◌^◌, ◌≡◌, arith, true, not, Option, some, Array, ap, ap₂, ◌∙◌, sym, subst, if_elim,
}
use clks.Disk.{Disk, Fat32Layout, read_u32}
use clks.Disk.Stored.{read_u32_same}
use clks.Disk.Cache.{bytes_range_valid, ensure_loaded_range}
use clks.Disk.Cache.Loading.{
  IsCoherent, IsBacked, Loads, Loads-refl, Loads-IsBacked, ensure_loaded_range-Loads,
}
use clks.Disk.Cache.Presence.{ensure_loaded_range_reads}
use clks.Disk.Fat.{has_entry, entry_offset, fat_read_entry}
use clks.Disk.Fat.Place.{Sized, position, entry_offset_lem}

-- A disk as `clks_disk_init` sets it up, with a volume, whose buffer agrees with the drive.
pub record IsSound (d : Disk) : Type 0 where
  pub backed : IsBacked d
  pub coherent : IsCoherent d
  pub sized : Sized d.fat32 d.sector_total

pub Loads-IsSound : (d e : Disk) → Loads d e → IsSound d → IsSound e
Loads-IsSound d e p s = record {
  backed = Loads-IsBacked p s.backed;
  coherent = p.coherent s.coherent;
  sized = subst (λ (x : Disk). Sized x.fat32 x.sector_total) (sym p.frame) s.sized;
}

-- The entry of a cluster in a copy of the table, as the drive holds it.
abbrev pub entry : Disk → ℕ → ℕ → ℕ
entry d index cluster = read_u32 d.drive.media (position d.fat32 index cluster)

-- The link that the table on the drive has for a cluster.
abbrev pub link : Disk → ℕ → ℕ
link d cluster = entry d 0 cluster % 2 ^ 28

pub Loads-link : (d e : Disk) → Loads d e → (cluster : ℕ) → link e cluster ≡ link d cluster
Loads-link d e p cluster =
    ap₂ (λ (l : Fat32Layout) (m : Array ℕ). read_u32 m (position l 0 cluster) % 2 ^ 28)
      (ap (λ (y : Disk). y.fat32) p.frame) p.content

-- On a sound disk: the entry that is read is the low 28 bits of the one in the drive's first table, and
-- the cluster has an entry there.
pub fat_read_entry-link :
    (cluster value : ℕ) (d : Disk)
    → IsSound d
    → (fat_read_entry cluster d).0 ≡ some value
    → (has_entry d.fat32 cluster ≡ true) × (value ≡ link d cluster)
unfolding fat_read_entry
fat_read_entry-link cluster value d s h =
    let at = entry_offset d.fat32 0 cluster in
    let r = ensure_loaded_range at 4 d in
    if_elim (Reads d) (not (has_entry d.fat32 cluster)) (λ _ e. absurd (cc e))
      (λ has.
        if_elim (Reads d) (not (bytes_range_valid at 4 d)) (λ _ e. absurd (cc e))
          (λ _.
            if_elim (Reads d) r.0
              (λ ok e.
                let has' : has_entry d.fat32 cluster ≡ true = ground arith in
                let place =
                  entry_offset_lem d.fat32 d.sector_total 0 cluster s.sized s.sized.volume.copies
                    has' in
                let bytes =
                  read_u32_same r.1.bytes d.drive.media at
                    (ensure_loaded_range_reads at 4 d s.backed s.coherent ok) in
                let same : read_u32 r.1.bytes at % 2 ^ 28 ≡ value = cc e in
                (has', sym same ∙ ap (λ n. n % 2 ^ 28) (bytes ∙ ap (read_u32 d.drive.media) place)))
              (λ _ e. absurd (cc e))))
      h
  where
    Reads : Disk → Option ℕ × Disk → Type 0
    Reads x o = o.0 ≡ some value → (has_entry d.fat32 cluster ≡ true) × (value ≡ link d cluster)

pub fat_read_entry-Loads : (cluster : ℕ) (d : Disk) → Loads d (fat_read_entry cluster d).1
unfolding fat_read_entry
fat_read_entry-Loads cluster d =
    let at = entry_offset d.fat32 0 cluster in
    let r = ensure_loaded_range at 4 d in
    let kept = ensure_loaded_range-Loads at 4 d in
    if_elim After (not (has_entry d.fat32 cluster)) (λ _. Loads-refl d)
      (λ _.
        if_elim After (not (bytes_range_valid at 4 d)) (λ _. Loads-refl d)
          (λ _. if_elim After r.0 (λ _. kept) (λ _. kept)))
  where
    After : Option ℕ × Disk → Type 0
    After o = Loads d o.1
