-- ===== src/Disk/Fat/Updates.antt =====
-- kernel/storage/disk/fat_layout.inc: writing an entry into one copy of the table on the drive.
use clks.Base.{
  ℕ, ◌+◌, ◌*◌, ◌/◌, ◌%◌, ◌<◌, ◌≡◌, inl, inr, arith, Bool, true, not, Array, ap, ap₂, ◌∙◌, sym,
  subst, if_elim, dec_lt,
}
use clks.Disk.{Disk, sector_size, read_u32, write_u32}
use clks.Disk.Stored.{write_u32_apart, read_u32_same, write_u32_same}
use clks.Disk.Cache.{bytes_range_valid, ensure_loaded_range, sync_sector_range, loaded_test}
use clks.Disk.Cache.Loading.{IsBacked-with, IsCoherent, IsBacked, Loads, ensure_loaded_range-Loads}
use clks.Disk.Cache.Presence.{ensure_loaded_range_reads, ensure_loaded_range-Present}
use clks.Disk.Cache.Writing.{Stores}
use clks.Disk.Cache.Storing.{sync_sector_range-Stores}
use clks.Disk.Cache.Coherence.{Stores-IsCoherent}
use clks.Disk.Fat.{has_entry, entry_lba, entry_offset, merged, write_copy}
use clks.Disk.Fat.Place.{Sized, position, entry_lba_lem, entry_offset_lem}
use clks.Disk.Fat.Entries.{IsSound, Loads-IsSound, entry}

abbrev pub onto : Disk → Disk → Disk
onto f x = record x { bytes = f.bytes; bitmap = f.bitmap; drive = f.drive }

-- The step to `e` changed the drive by storing the four bytes of `x` at `at`, and the buffer with it.
pub record Updated (at x : ℕ) (d e : Disk) : Type 0 where
  pub frame : e ≡ onto e d
  pub outcomes : e.drive.stops ≡ d.drive.stops
  pub media : (j : ℕ) → e.drive.media j ≡ write_u32 d.drive.media at x j
  pub sound : IsSound e

-- A change of four bytes of the buffer within one sector that is loaded, written back.
store_word :
    (at x lba : ℕ) (d : Disk)
    → IsSound d
    → lba ≡ at / sector_size
    → at % 4 ≡ 0
    → loaded_test lba d ≡ true
    → let r = sync_sector_range lba 1 (record d { bytes = write_u32 d.bytes at x }) in
      r.0 ≡ true → Updated at x d r.1
unfolding IsCoherent
store_word at x lba d s place aligned present ok =
    let changed = write_u32 d.bytes at x in
    let r = sync_sector_range lba 1 (record d { bytes = changed }) in
    let p : Stores lba 1 (record d { bytes = changed }) r =
      sync_sector_range-Stores lba 1 (record d { bytes = changed }) s.backed.backed in
    let written : (j : ℕ) → r.1.drive.media j ≡ write_u32 d.drive.media at x j = λ j.
      elim (dec_lt j (lba * sector_size)) [
        | yes below ↦
            p.beside j (inl below) ∙ sym (write_u32_apart d.drive.media at x j (inl (omega arith)))
        | no above ↦ elim (dec_lt j ((lba + 1) * sector_size)) [
          | yes inside ↦
              let here : lba ≡ j / sector_size = omega arith in
              p.within ok j (omega arith) inside
              ∙ write_u32_same d.bytes d.drive.media at x j
                  (s.coherent j (subst (λ l. loaded_test l d ≡ true) here present))
          | no past ↦
              p.beside j (inr (omega arith))
              ∙ sym (write_u32_apart d.drive.media at x j (inr (omega arith)))
        ]
      ] in
    let whole : r.1 ≡ onto r.1 d =
      p.frame ∙ ap (onto_bytes r.1) (ap (λ (y : Disk). y.bytes) (sym p.frame)) in
    record {
      frame = whole;
      outcomes = p.outcomes;
      media = written;
      sound = record {
        backed = subst IsBacked (sym whole) (IsBacked-with (s.backed));
        coherent =
            Stores-IsCoherent lba 1 d changed r s.coherent
              (λ j out. write_u32_apart d.bytes at x j (ground arith)) p ok;
        sized = subst (λ (y : Disk). Sized y.fat32 y.sector_total) (sym whole) s.sized;
      };
    }
  where
    onto_bytes : Disk → Array ℕ → Disk
    onto_bytes f b = record d { bytes = b; bitmap = f.bitmap; drive = f.drive }

Updated-later :
    {d e f : Disk} {at at' x x' : ℕ}
    → Loads d e
    → Updated at x e f
    → at ≡ at'
    → x ≡ x'
    → Updated at' x' d f
Updated-later {d} {e} {f} {at} {at'} {x} {x'} p u place value = record {
  frame = u.frame ∙ ap (onto f) p.frame;
  outcomes = u.outcomes ∙ p.outcomes;
  media = λ j.
      u.media j
      ∙ ap (λ m. write_u32 m at x j) p.content
      ∙ ap₂ (λ a b. write_u32 d.drive.media a b j) place value;
  sound = u.sound;
}

-- One copy of the table.
pub write_copy-Updated :
    (index cluster value : ℕ) (d : Disk)
    → IsSound d
    → index < d.fat32.fat_count
    → has_entry d.fat32 cluster ≡ true
    → (write_copy index cluster value d).0 ≡ true
    → Updated
        (position d.fat32 index cluster)
        (merged (entry d index cluster) value)
        d
        (write_copy index cluster value d).1
unfolding write_copy
write_copy-Updated index cluster value d s lt has =
    let at = entry_offset d.fat32 index cluster in
    let x = ensure_loaded_range at 4 d in
    let kept = ensure_loaded_range-Loads at 4 d in
    let place : at ≡ position d.fat32 index cluster =
      entry_offset_lem d.fat32 d.sector_total index cluster s.sized lt has in
    let sector = entry_lba_lem d.fat32 d.sector_total index cluster s.sized lt has in
    if_elim Goal (not (bytes_range_valid at 4 d)) (λ _ e. absurd (cc e))
      (λ _.
        if_elim Goal x.0
          (λ ok e.
            let old =
              read_u32_same x.1.bytes d.drive.media at
                (ensure_loaded_range_reads at 4 d s.backed s.coherent ok) in
            let present =
              ensure_loaded_range-Present at 4 d s.backed at (omega arith) (omega arith) ok in
            let u =
              store_word at (merged (read_u32 x.1.bytes at) value) (entry_lba d.fat32 index cluster)
                x.1 (Loads-IsSound d x.1 kept s) (sector ∙ ap (λ n. n / sector_size) (sym place))
                (omega arith)
                (subst (λ n. loaded_test n x.1 ≡ true)
                  (ap (λ n. n / sector_size) place ∙ sym sector) present)
                e in
            Updated-later kept u place
              (ap (λ n. merged n value) (old ∙ ap (read_u32 d.drive.media) place)))
          (λ _ e. absurd (cc e)))
  where
    Goal : Bool × Disk → Type 0
    Goal r =
        r.0 ≡ true
        → Updated (position d.fat32 index cluster) (merged (entry d index cluster) value) d r.1
