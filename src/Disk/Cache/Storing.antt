-- ===== src/Disk/Cache/Storing.antt =====
-- Writing back in kernel/storage/disk/cache_io.inc: what a range of sectors leaves on the drive.
use clks.Base.{
  ℕ, zero, suc, ◌+◌, ◌-◌, ◌*◌, ◌≡◌, arith, refl, Bool, true, false, not, leb, ltb, ◌==◌,
  if◌then◌else◌, ap, ◌∙◌, sym, inl, inr, if_elim, dec_lt, ℕ_discrete, subst, min,
}
use clks.Disk.{Disk, Drive, sector_size, batch_sectors, ata_cache_flush_hw, completes}
use clks.Disk.Cache.{
  loaded_test, write_batch, write_from, flush_hw, sync_sector_range, sync_sector_range_no_flush,
}
use clks.Disk.Cache.Marks.{HasBit}
use clks.Disk.Cache.Writing.{Stores, Stores-nothing, Stores-none, write_batch-Stores}

abbrev onto : Disk → Disk → Disk
onto f x = record x { bitmap = f.bitmap; drive = f.drive }

pub Stores-HasBit :
    {start n : ℕ} {d : Disk} {r : Bool × Disk}
    → Stores start n d r
    → (l : ℕ) → HasBit d l
    → HasBit r.1 l
Stores-HasBit p l h =
    subst (λ x. HasBit x l) (sym p.frame) (record { allocated = h.allocated; room = h.room })

-- One range and the range behind it.
Stores-then :
    (start n m : ℕ) (d e : Disk) (r : Bool × Disk)
    → Stores start n d (true, e)
    → Stores (start + n) m e r
    → Stores start (n + m) d r
Stores-then start n m d e r p q = record {
  frame = q.frame ∙ ap (onto r.1) p.frame;
  outcomes = q.outcomes ∙ p.outcomes;
  beside = λ j out. q.beside j (ground arith) ∙ p.beside j (ground arith);
  within = λ ok j le lt. elim (dec_lt j ((start + n) * sector_size)) [
    | yes first ↦ q.beside j (inl first) ∙ p.within refl j le first
    | no second ↦ q.within ok j (omega arith) (omega arith) ∙ ap (λ (x : Disk). x.bytes j) p.frame
  ];
  grows = λ l h. q.grows l (p.grows l h);
  fresh = λ l h. elim (q.fresh l h) [
    | inl before ↦ elim (p.fresh l before) [
      | inl there ↦ inl there
      | inr (a, b) ↦ inr (a, omega arith)
    ]
    | inr (a, b) ↦ inr (omega arith, omega arith)
  ];
  present = λ ok l le lt has. elim (dec_lt l (start + n)) [
    | yes first ↦ q.grows l (p.present refl l le first has)
    | no second ↦ q.present ok l (omega arith) (omega arith) (Stores-HasBit p l has)
  ];
}

-- A range that was not written whole.
Stores-more :
    (start n m : ℕ) (d e : Disk) → Stores start n d (false, e) → Stores start (n + m) d (false, e)
Stores-more start n m d e p = record {
  frame = p.frame;
  outcomes = p.outcomes;
  beside = λ j out. p.beside j (ground arith);
  within = λ ok. absurd (ground arith);
  grows = p.grows;
  fresh = λ l h. elim (p.fresh l h) [ inl there ↦ inl there | inr (a, b) ↦ inr (a, omega arith) ];
  present = λ ok. absurd (ground arith);
}

Stores-empty : (start count : ℕ) (d : Disk) → count ≡ 0 → Stores start count d (true, d)
Stores-empty start count d h = subst (λ c. Stores start c d (true, d)) (sym h) (Stores-none start d)

pub write_from-Stores :
    (fuel remaining lba : ℕ) (d : Disk) → Stores lba remaining d (write_from fuel remaining lba d)
unfolding write_from
write_from-Stores zero remaining lba d = elim (ℕ_discrete remaining 0) [
  | yes none_left ↦ rw none_left (Stores-none lba d)
  | no left ↦
      subst (λ o. Stores lba remaining d (o, d)) (ground arith) (Stores-nothing lba remaining d)
]
write_from-Stores (suc fuel) remaining lba d =
    let n = min batch_sectors remaining in
    let batch = write_batch lba n d in
    let p = write_batch-Stores lba n d in
    let m = remaining - n in
    let whole : n + m ≡ remaining = omega arith in
    if_elim (Stores lba remaining d) (remaining == 0)
      (λ none_left. Stores-empty lba remaining d (ground arith))
      (λ _.
        subst
          (λ c.
            Stores lba c d
              (if batch.0 then write_from fuel m (lba + n) batch.1 else (false, batch.1)))
          whole
          (if_elim (Stores lba (n + m) d) batch.0
            (λ ok.
              Stores-then lba n m d batch.1 (write_from fuel m (lba + n) batch.1)
                (subst (λ o. Stores lba n d (o, batch.1)) ok p)
                (write_from-Stores fuel m (lba + n) batch.1))
            (λ failed.
              Stores-more lba n m d batch.1 (subst (λ o. Stores lba n d (o, batch.1)) failed p))))

pub sync_sector_range_no_flush-Stores :
    (start count : ℕ) (d : Disk)
    → d.hw_backed ≡ true
    → Stores start count d (sync_sector_range_no_flush start count d)
unfolding sync_sector_range_no_flush
sync_sector_range_no_flush-Stores start count d backed =
    if_elim (Stores start count d) (count == 0)
      (λ none_left. Stores-empty start count d (ground arith))
      (λ _.
        if_elim (Stores start count d) (not d.hw_backed) (λ off. absurd (ground arith))
          (λ _.
            if_elim (Stores start count d) (leb d.sector_total start)
              (λ _. Stores-nothing start count d)
              (λ _.
                if_elim (Stores start count d) (ltb (d.sector_total - start) count)
                  (λ _. Stores-nothing start count d)
                  (λ _. write_from-Stores count count start d))))

flush-Stores :
    (start count : ℕ) (d : Disk) (r : Bool × Disk)
    → Stores start count d r
    → Stores start count d (if r.0 then flush_hw r.1 else (false, r.1))
unfolding flush_hw ata_cache_flush_hw loaded_test
flush-Stores start count d r p =
    if_elim (Stores start count d) r.0
      (λ ok.
        if_elim (Stores start count d) (not r.1.hw_backed)
          (λ off. subst (λ o. Stores start count d (o, r.1)) ok p)
          (λ on. record {
            frame = ap with_flushed p.frame;
            outcomes = p.outcomes;
            beside = p.beside;
            within = λ _. p.within ok;
            grows = p.grows;
            fresh = p.fresh;
            present = λ _. p.present ok;
          }))
      (λ failed. subst (λ o. Stores start count d (o, r.1)) failed p)
  where
    flushed : Drive
    flushed =
        let v = r.1.drive in
        record v {
          commands = v.commands + 1;
          flushes = if completes (v.stops v.commands) then v.flushes + 1 else v.flushes;
        }

    with_flushed : Disk → Disk
    with_flushed x = record x { drive = flushed }

-- Writing `count` sectors from `start` back to the drive of a disk, and the flush after it: no other
-- byte of the drive changes, even if a command fails half way; if it goes well the drive holds there
-- what the buffer holds, and those of the sectors that have a bit are loaded.
pub sync_sector_range-Stores :
    (start count : ℕ) (d : Disk)
    → d.hw_backed ≡ true
    → Stores start count d (sync_sector_range start count d)
unfolding sync_sector_range
sync_sector_range-Stores start count d backed =
    if_elim (Stores start count d) (count == 0)
      (λ none_left. Stores-empty start count d (ground arith))
      (λ _.
        if_elim (Stores start count d) (not d.hw_backed) (λ off. absurd (ground arith))
          (λ _.
            if_elim (Stores start count d) (leb d.sector_total start)
              (λ _. Stores-nothing start count d)
              (λ _.
                if_elim (Stores start count d) (ltb (d.sector_total - start) count)
                  (λ _. Stores-nothing start count d)
                  (λ _.
                    flush-Stores start count d (write_from count count start d)
                      (write_from-Stores count count start d)))))
