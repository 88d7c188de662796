-- ===== src/Disk/Cache/Coherence.antt =====
-- A change of the buffer in kernel/storage/disk that is written back to the drive.
use clks.Base.{ℕ, ◌+◌, ◌*◌, ◌/◌, ◌≡◌, inl, inr, arith, Bool, true, Array, ap, ◌∙◌, sym, dec_lt}
use clks.Disk.{Disk, sector_size}
use clks.Disk.Cache.{loaded_test}
use clks.Disk.Cache.Loading.{IsCoherent}
use clks.Disk.Cache.Writing.{Beside, Stores}

-- If the buffer agreed with the drive, was changed in the `count` sectors from `start` on only, and
-- those were written back, then it agrees with the drive again.
pub Stores-IsCoherent :
    (start count : ℕ) (d : Disk) (changed : Array ℕ) (r : Bool × Disk)
    → IsCoherent d
    → ((j : ℕ) → Beside start count j → changed j ≡ d.bytes j)
    → Stores start count (record d { bytes = changed }) r
    → r.0 ≡ true
    → IsCoherent r.1
unfolding IsCoherent loaded_test
Stores-IsCoherent start count d changed r same kept p ok j present =
    let held : r.1.bytes j ≡ changed j = ap (λ (x : Disk). x.bytes j) p.frame in
    elim (dec_lt j (start * sector_size)) [
      | yes below ↦ beside held (inl below)
      | no above ↦ elim (dec_lt j ((start + count) * sector_size)) [
        | yes inside ↦ held ∙ sym (p.within ok j (omega arith) inside)
        | no past ↦ beside held (inr (omega arith))
      ]
    ]
  where
    before : Beside start count j → loaded_test (j / sector_size) d ≡ true
    before out = elim (p.fresh (j / sector_size) present) [
      | inl there ↦ there
      | inr (a, b) ↦ absurd (ground arith)
    ]

    beside : r.1.bytes j ≡ changed j → Beside start count j → r.1.bytes j ≡ r.1.drive.media j
    beside held out = held ∙ kept j out ∙ same j (before out) ∙ sym (p.beside j out)
