-- ===== src/Disk/Chain/Flushing.antt =====
-- kernel/storage/disk/file_chain.inc: the flush at the end of a write is out of reach.
use clks.Base.{
  ℕ, zero, suc, ◌+◌, ◌-◌, ◌<◌, ◌≡◌, arith, refl, Bool, false, not, ◌||◌, Option, none, some, leb,
  ltb, ◌==◌, if◌then◌else◌, min, Array, ◌∙◌, if_elim,
}
use clks.Disk.{Disk, sector_size, batch_sectors, mul64, put, clear}
use clks.Disk.Cache.Batches.{write_batch_cases}
use clks.Disk.Cache.{
  bytes_range_valid, sync_sector_range_no_flush, flush_hw, write_batch, write_from,
  loaded_mark_range,
}
use clks.Disk.Layout.{cluster_valid, cluster_lba}
use clks.Disk.Chain.{follow, write_cluster, write_rounds, write_file_chain}
use clks.Disk.Chain.Steps.{follow-Loads}

-- No flush came between.
abbrev Same : Disk → Bool × Disk → Type 0
Same d r = r.1.drive.flushes ≡ d.drive.flushes

write_batch-Same : (lba n : ℕ) (d : Disk) → Same d (write_batch lba n d)
unfolding loaded_mark_range
write_batch-Same lba n d = write_batch_cases lba n d (Same d) refl refl (λ k. refl)

write_from-Same : (fuel remaining lba : ℕ) (d : Disk) → Same d (write_from fuel remaining lba d)
unfolding write_from
write_from-Same zero remaining lba d = refl
write_from-Same (suc fuel) remaining lba d =
    let n = min batch_sectors remaining in
    let batch = write_batch lba n d in
    let kept = write_batch-Same lba n d in
    if_elim (Same d) (remaining == 0) (λ _. refl)
      (λ _.
        if_elim (Same d) batch.0
          (λ _. write_from-Same fuel (remaining - n) (lba + n) batch.1 ∙ kept) (λ _. kept))

sync_no_flush-Same :
    (start count : ℕ) (d : Disk) → Same d (sync_sector_range_no_flush start count d)
unfolding sync_sector_range_no_flush
sync_no_flush-Same start count d =
    if_elim (Same d) (count == 0) (λ _. refl)
      (λ _.
        if_elim (Same d) (not d.hw_backed) (λ _. refl)
          (λ _.
            if_elim (Same d) (leb d.sector_total start) (λ _. refl)
              (λ _.
                if_elim (Same d) (ltb (d.sector_total - start) count) (λ _. refl)
                  (λ _. write_from-Same count count start d))))

write_cluster-Same :
    (c : ℕ) (source : Array ℕ) (written n : ℕ) (d : Disk)
    → Same d (write_cluster c source written n d)
unfolding write_cluster
write_cluster-Same c source written n d = cases (cluster_lba c d)
  where
    size : ℕ
    size = d.fat32.cluster_size_bytes

    after : Option ℕ → Bool × Disk
    after o = elim o [
      | none ↦ (false, d)
      | some lba ↦
          let offset = mul64 lba sector_size in
          if not (bytes_range_valid offset size d)
          then (false, d)
          else sync_sector_range_no_flush lba d.fat32.sectors_per_cluster
              (record d { bytes = put offset written n source (clear offset size d.bytes) })
    ]

    cases : (o : Option ℕ) → Same d (after o)
    cases none = refl
    cases (some lba) =
        let offset = mul64 lba sector_size in
        if_elim (Same d) (not (bytes_range_valid offset size d)) (λ _. refl)
          (λ _.
            sync_no_flush-Same lba d.fat32.sectors_per_cluster
              (record d { bytes = put offset written n source (clear offset size d.bytes) }))

-- What the rounds come to: no flush, and if the loop ends by its own condition it wrote less than it
-- was to.
record Ran (d : Disk) (size : ℕ) (r : Option Bool × ℕ × Disk) : Type 0 where
  same : r.2.drive.flushes ≡ d.drive.flushes
  short : r.0 ≡ none → r.1 < size

write_rounds-Ran :
    (rounds c : ℕ) (source : Array ℕ) (written size : ℕ) (d : Disk)
    → written < size
    → Ran d size (write_rounds rounds c source written size d)
unfolding write_rounds
write_rounds-Ran zero c source written size d lt = record { same = refl; short = λ _. lt }
write_rounds-Ran (suc rounds) c source written size d lt =
    let kept = write_cluster-Same c source written n d in
    if_elim (Ran d size) (not (ltb written size) || not (cluster_valid d.fat32 c))
      (λ _. record { same = refl; short = λ _. lt })
      (λ _.
        if_elim (Ran d size) (not ok) (λ _. record { same = kept; short = λ h. absurd (cc h) })
          (λ _.
            if_elim (Ran d size) (leb size (written + n))
              (λ _. record { same = kept; short = λ h. absurd (cc h) })
              (λ more.
                cases (λ x e. write_rounds-Ran rounds x source (written + n) size e (ground arith))
                  kept (follow c d1).0)))
  where
    n : ℕ
    n = min (size - written) d.fat32.cluster_size_bytes

    ok : Bool
    ok = (write_cluster c source written n d).0

    d1 : Disk
    d1 = (write_cluster c source written n d).1

    after : Option ℕ → Option Bool × ℕ × Disk
    after o = elim o [
      | none ↦ (some false, written + n, (follow c d1).1)
      | some next ↦ write_rounds rounds next source (written + n) size (follow c d1).1
    ]

    cases :
        ((x : ℕ) (e : Disk) → Ran e size (write_rounds rounds x source (written + n) size e))
        → d1.drive.flushes ≡ d.drive.flushes
        → (o : Option ℕ) → Ran d size (after o)
    cases later kept none = record {
      same = (follow-Loads c d1).flushes ∙ kept;
      short = λ h. absurd (cc h);
    }
    cases later kept (some next) =
        let rest = later next (follow c d1).1 in
        record { same = rest.same ∙ (follow-Loads c d1).flushes ∙ kept; short = rest.short }

-- Writing the contents of a file never sends the flush command that the end of the routine has for it,
-- whether it goes well or not: the loop leaves by a return of its own as soon as all is written.
pub write_file_chain-flushes :
    (first : ℕ) (source : Option (Array ℕ)) (size : ℕ) (d : Disk)
    → (write_file_chain first source size d).1.drive.flushes ≡ d.drive.flushes
unfolding write_file_chain
write_file_chain-flushes first none size d = if_elim (Same d) (size == 0) (λ _. refl) (λ _. refl)
write_file_chain-flushes first (some source) size d =
    if_elim (Same d) (size == 0) (λ _. refl)
      (λ some_left.
        let p = write_rounds-Ran d.fat32.cluster_count first source 0 size d (ground arith) in
        if_elim (Same d) (not (cluster_valid d.fat32 first)) (λ _. refl)
          (λ _. cases p (write_rounds d.fat32.cluster_count first source 0 size d).0 refl))
  where
    r : Option Bool × ℕ × Disk
    r = write_rounds d.fat32.cluster_count first source 0 size d

    after : Option Bool → Bool × Disk
    after o = elim o [
      | some result ↦ (result, r.2)
      | none ↦ if not (r.1 == size) then (false, r.2) else flush_hw r.2
    ]

    cases : Ran d size r → (o : Option Bool) → r.0 ≡ o → Same d (after o)
    cases p (some result) e = p.same
    cases p none e =
        let short = p.short e in
        if_elim (Same d) (not (r.1 == size)) (λ _. p.same) (λ whole. absurd (ground arith))
