-- ===== src/Disk/Chain/Following.antt =====
-- kernel/storage/disk/fat_layout.inc: on a drive that completes its commands the links can be followed.
use clks.Base.{
  ℕ, ◌+◌, ◌%◌, ◌^◌, ◌≤◌, ◌<◌, ◌≡◌, ◌≢◌, inl, inr, arith, Bool, true, false, not, Option, none, some,
  leb, if◌then◌else◌, ap, ◌∙◌, sym, subst, if_elim, Option-cases,
}
use clks.Disk.{Disk, Fat32Layout, eoc_min}
use clks.Disk.Cache.{bytes_range_valid, ensure_loaded_range}
use clks.Disk.Cache.Loading.{Loads}
use clks.Disk.Cache.Presence.{Works, ensure_loaded_range-Works}
use clks.Disk.Layout.{cluster_valid, fat_is_eoc}
use clks.Disk.Layout.Regions.{InVolume, InVolume-cluster_valid}
use clks.Disk.Fat.{has_entry, entry_offset, fat_read_entry, fat_next_cluster}
use clks.Disk.Fat.Place.{position_fits, entry_offset_lem}
use clks.Disk.Fat.Entries.{IsSound, link, fat_read_entry-link, fat_read_entry-Loads}
use clks.Disk.Chain.{follow}

pub Loads-Works : (d e : Disk) → Loads d e → Works d → Works e
Loads-Works d e p w n = ap (λ (f : ℕ → Option ℕ). f n) p.outcomes ∙ w n

-- The range check says no more than that the range is within the buffer.
pub range_valid :
    (offset size : ℕ) (d : Disk)
    → IsSound d
    → offset + size ≤ d.bytes_len
    → bytes_range_valid offset size d ≡ true
unfolding bytes_range_valid
range_valid offset size d s fits =
    let e1 = s.backed.buffer in
    let e2 = s.backed.len in let e3 = s.backed.some_sectors in ground arith

entry_fits :
    (c : ℕ) (d : Disk)
    → IsSound d
    → has_entry d.fat32 c ≡ true
    → entry_offset d.fat32 0 c + 4 ≤ d.bytes_len
entry_fits c d s has =
    let e1 = entry_offset_lem d.fat32 d.sector_total 0 c s.sized s.sized.volume.copies has in
    let e2 = position_fits d.fat32 d.sector_total 0 c s.sized s.sized.volume.copies has in
    let e3 = s.sized.volume.fits in let e4 = s.backed.len in omega arith

fat_read_entry_some :
    (c : ℕ) (d : Disk)
    → IsSound d
    → Works d
    → has_entry d.fat32 c ≡ true
    → (fat_read_entry c d).0 ≢ none
unfolding fat_read_entry
fat_read_entry_some c d s w has =
    let at = entry_offset d.fat32 0 c in
    let fits = entry_fits c d s has in
    let valid = range_valid at 4 d s fits in
    let loads = ensure_loaded_range-Works at 4 d s.backed w fits in
    if_elim Readable (not (has_entry d.fat32 c)) (λ off. absurd (ground arith))
      (λ _.
        if_elim Readable (not (bytes_range_valid at 4 d)) (λ off. absurd (ground arith))
          (λ _.
            if_elim Readable (ensure_loaded_range at 4 d).0 (λ _ h. absurd (cc h))
              (λ failed. absurd (ground arith))))
  where
    Readable : Option ℕ × Disk → Type 0
    Readable o = o.0 ≢ none

fat_read_entry-Works :
    (c : ℕ) (d : Disk)
    → IsSound d
    → Works d
    → has_entry d.fat32 c ≡ true
    → (fat_read_entry c d).0 ≡ some (link d c)
fat_read_entry-Works c d s w has = elim (Option-cases (fat_read_entry c d).0) [
  | inl failed ↦ absurd (fat_read_entry_some c d s w has failed)
  | inr (value, e) ↦ e ∙ ap some (fat_read_entry-link c value d s e).1
]

-- A link to a cluster of the volume can be followed.
pub follow-Works :
    (c : ℕ) (d : Disk)
    → IsSound d
    → Works d
    → has_entry d.fat32 c ≡ true
    → InVolume d.fat32 (link d c)
    → (follow c d).0 ≡ some (link d c)
unfolding follow fat_next_cluster fat_is_eoc
follow-Works c d s w has inside =
    subst (λ o. Follows (after (next o))) (sym (fat_read_entry-Works c d s w has))
      (if_elim Follows (leb eoc_min (link d c % 2 ^ 28))
        (λ ends. let (lo, hi) = bounds in absurd (ground arith))
        (λ _.
          if_elim Follows (cluster_valid r.1.fat32 (link d c % 2 ^ 28)) (λ _. ap some (omega arith))
            (λ invalid. sym_absurd invalid)))
  where
    Follows : Option ℕ × Disk → Type 0
    Follows o = o.0 ≡ some (link d c)

    r : Option ℕ × Disk
    r = fat_read_entry c d

    next : Option ℕ → Option (ℕ × Bool) × Disk
    next o = elim o [
      | none ↦ (none, r.1)
      | some value ↦ (some (value % 2 ^ 28, leb eoc_min (value % 2 ^ 28)), r.1)
    ]

    after : Option (ℕ × Bool) × Disk → Option ℕ × Disk
    after x = elim x.0 [
      | none ↦ (none, x.1)
      | some (n, is_eoc) ↦
          if is_eoc
          then (none, x.1)
          else if cluster_valid x.1.fat32 n
          then (some n, x.1)
          else (none, x.1)
    ]

    bounds : (2 ≤ link d c) × (link d c < eoc_min)
    bounds = let (lo, hi) = inside in let e1 = s.sized.volume.few in (lo, omega arith)

    cut : link d c % 2 ^ 28 ≡ link d c
    cut = let (lo, hi) = bounds in omega arith

    valid : cluster_valid r.1.fat32 (link d c % 2 ^ 28) ≡ true
    valid =
        subst (λ (l : Fat32Layout). cluster_valid l (link d c % 2 ^ 28) ≡ true)
          (sym (ap (λ (y : Disk). y.fat32) (fat_read_entry-Loads c d).frame))
          (InVolume-cluster_valid d.fat32 d.sector_total (link d c % 2 ^ 28) s.sized.volume
            (subst (InVolume d.fat32) (sym cut) inside))

    sym_absurd : cluster_valid r.1.fat32 (link d c % 2 ^ 28) ≡ false → Follows (none, r.1)
    sym_absurd invalid = let e = valid in absurd (ground arith)
