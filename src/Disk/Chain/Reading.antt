-- ===== src/Disk/Chain/Reading.antt =====
-- kernel/storage/disk/file_chain.inc: reading a file gives the bytes of its clusters.
use clks.Base.{
  ℕ, zero, suc, ◌+◌, ◌-◌, ◌*◌, ◌≤◌, ◌<◌, ◌≡◌, arith, refl, Bool, true, false, not, ◌||◌, Option,
  none, some, leb, ltb, ◌==◌, if◌then◌else◌, min, Array, ap, ◌∙◌, sym, subst, if_elim,
}
use clks.Disk.{Disk, Fat32Layout, sector_size, mul64, put}
use clks.Disk.Cache.{bytes_range_valid, ensure_loaded_range}
use clks.Disk.Cache.Loading.{Loads, Loads-refl, Loads-trans, ensure_loaded_range-Loads}
use clks.Disk.Cache.Presence.{ensure_loaded_range_reads}
use clks.Disk.Layout.{cluster_valid, cluster_lba}
use clks.Disk.Layout.Regions.{region, region_fits, cluster_valid-InVolume, cluster_lba-some}
use clks.Disk.Fat.Entries.{IsSound, Loads-IsSound, Loads-link, link}
use clks.Disk.Chain.{follow, read_from, read_file_chain}
use clks.Disk.Chain.Steps.{follow-Loads, follow-link}
use clks.Disk.Chain.Rounds.{more_Reads, last_Reads, walk, Reads, Goal, ended}

read_from-Reads :
    (rounds c copied size : ℕ) (out : Array ℕ) (b d : Disk)
    → IsSound b
    → Loads b d
    → Goal b c copied size out (read_from rounds c copied size out d)
unfolding read_from
read_from-Reads zero c copied size out b d s p = ended b d c copied size out
read_from-Reads (suc rounds) c copied size out b d s p =
    if_elim (Goal b c copied size out) (not (ltb copied size) || not (cluster_valid d.fat32 c))
      (λ _. ended b d c copied size out)
      (λ going.
        cases (λ x m o e q. read_from-Reads rounds x m size o b e s q) (ground arith)
          (cluster_lba c d) refl)
  where
    layout : d.fat32 ≡ b.fat32
    layout = ap (λ (y : Disk). y.fat32) p.frame

    sound : IsSound d
    sound = Loads-IsSound b d p s

    offset : ℕ → ℕ
    offset lba = mul64 lba sector_size

    n : ℕ
    n = min (size - copied) d.fat32.cluster_size_bytes

    ensured : ℕ → Bool × Disk
    ensured lba = ensure_loaded_range (offset lba) n d

    out' : ℕ → Array ℕ
    out' lba = put copied (offset lba) n (ensured lba).1.bytes out

    after_link : ℕ → Option ℕ × Disk → Bool × Array ℕ × Disk
    after_link lba l = elim l.0 [
      | none ↦ (false, out' lba, l.1)
      | some next ↦ read_from rounds next (copied + n) size (out' lba) l.1
    ]

    after : Option ℕ → Bool × Array ℕ × Disk
    after o = elim o [
      | none ↦ (false, out, d)
      | some lba ↦
          if not (bytes_range_valid (offset lba) n d)
          then (false, out, d)
          else if not (ensured lba).0
          then (false, out, (ensured lba).1)
          else if leb size (copied + n)
          then (true, out' lba, (ensured lba).1)
          else after_link lba (follow c (ensured lba).1)
    ]

    same :
        (lba : ℕ)
        → (ensured lba).0 ≡ true
        → (j : ℕ) → offset lba ≤ j
        → j < offset lba + n
        → (ensured lba).1.bytes j ≡ b.drive.media j
    same lba ok j le lt =
        ensure_loaded_range_reads (offset lba) n d sound.backed sound.coherent ok j le lt
        ∙ ap (λ (m : Array ℕ). m j) p.content

    links :
        (lba : ℕ)
        → offset lba ≡ region b.fat32 c * sector_size
        → n ≡ min (size - copied) b.fat32.cluster_size_bytes
        → ((j : ℕ)
            → offset lba ≤ j
            → j < offset lba + n
            → (ensured lba).1.bytes j ≡ b.drive.media j)
        → copied + n < size
        → Loads b (ensured lba).1
        → (x : Option ℕ × Disk)
        → ((y m : ℕ) (o : Array ℕ) (e : Disk)
            → Loads b e
            → Goal b y m size o (read_from rounds y m size o e))
        → Loads (ensured lba).1 x.1
        → ((next : ℕ) → x.0 ≡ some next → next ≡ link b c)
        → (o : Option ℕ) → x.0 ≡ o
        → Goal b c copied size out (elim o [
          | none ↦ (false, out' lba, x.1)
          | some next ↦ read_from rounds next (copied + n) size (out' lba) x.1
        ])
    links lba here amount bytes more q x later loads is none e = λ h. absurd (cc h)
    links lba here amount bytes more q x later loads is (some next) e = λ h.
        let rest = later next (copied + n) (out' lba) x.1 (Loads-trans q loads) h in
        more_Reads b c copied size out (ensured lba).1.bytes (offset lba) n here amount bytes
          (read_from rounds next (copied + n) size (out' lba) x.1).1 more
          (subst
            (λ i.
              Reads b i (copied + n) size (out' lba)
                (read_from rounds next (copied + n) size (out' lba) x.1).1)
            (is next e) rest)

    cases :
        ((x m : ℕ) (o : Array ℕ) (e : Disk)
          → Loads b e
          → Goal b x m size o (read_from rounds x m size o e))
        → cluster_valid d.fat32 c ≡ true
        → (o : Option ℕ) → cluster_lba c d ≡ o
        → Goal b c copied size out (after o)
    cases later valid none e = λ h. absurd (cc h)
    cases later valid (some lba) e =
        let known : some lba ≡ some (region d.fat32 c) =
          sym e ∙ cluster_lba-some d c sound.sized.volume sound.sized.small valid in
        let found : lba ≡ region d.fat32 c = cc known in
        let fits =
          region_fits d.fat32 d.sector_total c sound.sized.volume
            (cluster_valid-InVolume d.fat32 d.sector_total c sound.sized.volume valid) in
        let small = sound.sized.small in
        let place : offset lba ≡ region d.fat32 c * sector_size = omega arith in
        let here = place ∙ ap (λ l. region l c * sector_size) layout in
        let amount = ap (λ (l : Fat32Layout). min (size - copied) l.cluster_size_bytes) layout in
        let e1 = (ensured lba).1 in
        let q = Loads-trans p (ensure_loaded_range-Loads (offset lba) n d) in
        let x = follow c e1 in
        if_elim (Goal b c copied size out) (not (bytes_range_valid (offset lba) n d))
          (λ _ h. absurd (cc h))
          (λ _.
            if_elim (Goal b c copied size out) (not (ensured lba).0) (λ _ h. absurd (cc h))
              (λ ok.
                let ok' : (ensured lba).0 ≡ true = ground arith in
                if_elim (Goal b c copied size out) (leb size (copied + n))
                  (λ done _.
                    last_Reads b c copied size out e1.bytes (offset lba) n here amount
                      (same lba ok') (ground arith))
                  (λ more.
                    links lba here amount (same lba ok') (ground arith) q x (later)
                      (follow-Loads c e1)
                      (λ next h.
                        follow-link c next e1 (Loads-IsSound b e1 q s) h ∙ Loads-link b e1 q c)
                      x.0 refl)))

-- On a sound disk: a read of `size` bytes that goes well gives, cluster by cluster along the links of
-- the table on the drive, the bytes that the drive holds in the chain's clusters: byte `i` of the
-- cluster after `k` links stands behind `k` whole clusters.
pub read_file_chain-walk :
    (first size k i : ℕ) (out : Array ℕ) (d : Disk)
    → IsSound d
    → (read_file_chain first size out d).0 ≡ true
    → i < d.fat32.cluster_size_bytes
    → k * d.fat32.cluster_size_bytes + i < size
    → (read_file_chain first size out d).1 (k * d.fat32.cluster_size_bytes + i)
      ≡ d.drive.media (region d.fat32 (walk (link d) k first) * sector_size + i)
unfolding read_file_chain
read_file_chain-walk first size k i out d s ok lt within =
    if_elim Whole (size == 0) (λ nothing. absurd (ground arith))
      (λ _.
        if_elim Whole (not (cluster_valid d.fat32 first)) (λ _ h. absurd (cc h))
          (λ _ h.
            let p = read_from-Reads d.fat32.cluster_count first 0 size out d d s (Loads-refl d) h in
            ap (read_from d.fat32.cluster_count first 0 size out d).1 (omega arith)
            ∙ p.chain k i lt (omega arith)))
      ok
  where
    Whole : Bool × Array ℕ × Disk → Type 0
    Whole r =
        r.0 ≡ true
        → r.1 (k * d.fat32.cluster_size_bytes + i)
          ≡ d.drive.media (region d.fat32 (walk (link d) k first) * sector_size + i)
