-- ===== src/Disk/Chain/Appending.antt =====
-- kernel/storage/disk/file_chain.inc: what an append leaves of the last cluster of a file.
use clks.Base.{
  ℕ, ◌+◌, ◌-◌, ◌*◌, ◌/◌, ◌≤◌, ◌<◌, ◌≡◌, arith, refl, Bool, true, false, not, ◌&&◌, Option, none,
  some, leb, ltb, if◌then◌else◌, Array, ap, ◌∙◌, sym, if_elim, add64,
}
use clks.Disk.{Disk, sector_size, mul64, put}
use clks.Disk.Cache.{bytes_range_valid, sync_sector_range_no_flush}
use clks.Disk.Cache.Storing.{sync_sector_range_no_flush-Stores}
use clks.Disk.Layout.{cluster_valid, cluster_lba}
use clks.Disk.Layout.Regions.{region, region_fits, cluster_valid-InVolume, cluster_lba-some}
use clks.Disk.Fat.Entries.{IsSound}
use clks.Disk.Chain.{fill_last}

-- On a sound disk, for an append of `to_copy` bytes behind the `within` bytes that the last cluster of a
-- file has: if it goes well the drive has the new bytes in their place, and in front of them, in the
-- sector that the first of them stands in, what the buffer had there. That is what the drive had only
-- if the sector was loaded, which the code does not see to.
pub fill_last-drive :
    (last within to_copy i j : ℕ) (source : Array ℕ) (d : Disk)
    → IsSound d
    → cluster_valid d.fat32 last ≡ true
    → within + to_copy ≤ d.fat32.cluster_size_bytes
    → (fill_last last within to_copy source d).0 ≡ true
    → i < to_copy
    → region d.fat32 last * sector_size + within / sector_size * sector_size ≤ j
    → j < region d.fat32 last * sector_size + within
    → let e = (fill_last last within to_copy source d).1 in
      (e.drive.media (region d.fat32 last * sector_size + within + i) ≡ source i)
      × (e.drive.media j ≡ d.bytes j)
unfolding fill_last
fill_last-drive last within to_copy i j source d s valid room ok lt lo hi =
    cases (cluster_lba last d) refl ok
  where
    base : ℕ
    base = region d.fat32 last * sector_size

    offset : ℕ → ℕ
    offset lba = add64 (mul64 lba sector_size) within

    first : ℕ
    first = within / sector_size

    count : ℕ
    count = (within + to_copy + 511) / sector_size - first

    changed : ℕ → Array ℕ
    changed lba = put (offset lba) 0 to_copy source d.bytes

    writing : ℕ → Bool × Disk
    writing lba =
        sync_sector_range_no_flush (add64 lba first) count (record d { bytes = changed lba })

    after : Option ℕ → Bool × Disk
    after o = elim o [
      | none ↦ (false, d)
      | some lba ↦
          if not (bytes_range_valid (offset lba) to_copy d) then (false, d) else writing lba
    ]

    Goal : Bool × Disk → Type 0
    Goal r =
        r.0 ≡ true
        → (r.1.drive.media (base + within + i) ≡ source i) × (r.1.drive.media j ≡ d.bytes j)

    new : (lba : ℕ) → offset lba ≡ base + within → changed lba (base + within + i) ≡ source i
    new lba place =
        if_elim (λ x. x ≡ source i)
          (leb (offset lba) (base + within + i) && ltb (base + within + i) (offset lba + to_copy))
          (λ _. ap source (omega arith)) (λ outside. absurd (ground arith))

    old : (lba : ℕ) → offset lba ≡ base + within → changed lba j ≡ d.bytes j
    old lba place =
        if_elim (λ x. x ≡ d.bytes j) (leb (offset lba) j && ltb j (offset lba + to_copy))
          (λ inside. absurd (ground arith)) (λ _. refl)

    cases : (o : Option ℕ) → cluster_lba last d ≡ o → Goal (after o)
    cases none e = λ h. absurd (cc h)
    cases (some lba) e =
        let known : some lba ≡ some (region d.fat32 last) =
          sym e ∙ cluster_lba-some d last s.sized.volume s.sized.small valid in
        let found : lba ≡ region d.fat32 last = cc known in
        let fits =
          region_fits d.fat32 d.sector_total last s.sized.volume
            (cluster_valid-InVolume d.fat32 d.sector_total last s.sized.volume valid) in
        let small = s.sized.small in
        let size = s.sized.volume.cluster_size in
        let most = s.sized.volume.cluster_small in
        let place : offset lba ≡ base + within = omega arith in
        let start : add64 lba first ≡ region d.fat32 last + first = omega arith in
        if_elim Goal (not (bytes_range_valid (offset lba) to_copy d)) (λ _ h. absurd (cc h))
          (λ _ h.
            let p =
              sync_sector_range_no_flush-Stores (add64 lba first) count
                (record d { bytes = changed lba }) s.backed.backed in
            (
              p.within h (base + within + i) (omega arith) (omega arith) ∙ new lba place,
              p.within h j (omega arith) (omega arith) ∙ old lba place,
            ))
