-- ===== src/Disk/Cache/Marks.antt =====
-- The bitmap of loaded sectors in kernel/storage/disk/cache_io.inc: marking a range marks its sectors
-- and no others.
use clks.Base.{
  ℕ, zero, suc, ◌+◌, ◌/◌, ◌%◌, ◌≤◌, ◌<◌, ◌≡◌, ◌≢◌, arith, refl, Bool, true, false, ◌||◌, not, leb,
  ◌==◌, if◌then◌else◌, Array, update, update_self, update_ne, ap, ◌∙◌, ◌⊎◌, inl, ℕ_discrete, subst,
  if_elim,
}
use clks.Disk.{Disk}
use clks.Disk.Cache.{test_bit, set_bit, loaded_test, mark_from, loaded_mark_range}
use clks.Disk.Cache.Bits.{test_bit-set_bit, test_bit-set_bit_ne}

-- The bit of a sector
abbrev marked : Array ℕ → ℕ → Bool
marked bitmap l = test_bit (l % 8) (bitmap (l / 8))

abbrev mark : Array ℕ → ℕ → Array ℕ
mark bitmap l = update bitmap (l / 8) (set_bit (l % 8) (bitmap (l / 8)))

marked_self : (bitmap : Array ℕ) (l : ℕ) → marked (mark bitmap l) l ≡ true
marked_self bitmap l =
    ap (test_bit (l % 8)) (update_self bitmap (l / 8) (set_bit (l % 8) (bitmap (l / 8))))
    ∙ test_bit-set_bit (l % 8) (bitmap (l / 8))

marked_ne : (bitmap : Array ℕ) (i l : ℕ) → l ≢ i → marked (mark bitmap i) l ≡ marked bitmap l
marked_ne bitmap i l h = elim (ℕ_discrete (l / 8) (i / 8)) [
  | yes same ↦
      let other : l % 8 ≢ i % 8 = omega arith in
      rw same (
        ap (test_bit (l % 8)) (update_self bitmap (i / 8) (set_bit (i % 8) (bitmap (i / 8))))
        ∙ test_bit-set_bit_ne (i % 8) (l % 8) (bitmap (i / 8)) other)
  | no apart ↦
      ap (test_bit (l % 8))
        (update_ne bitmap (i / 8) (l / 8) (set_bit (i % 8) (bitmap (i / 8))) apart)
]

mark_from_outside :
    (rounds lba bitmap_bytes : ℕ) (bitmap : Array ℕ) (l : ℕ)
    → (l < lba) ⊎ (lba + rounds ≤ l)
    → marked (mark_from rounds lba bitmap_bytes bitmap) l ≡ marked bitmap l
unfolding mark_from
mark_from_outside zero lba bb bitmap l out = refl
mark_from_outside (suc rounds) lba bb bitmap l out =
    if_elim (λ m. marked m l ≡ marked bitmap l) (leb bb (lba / 8)) (λ _. refl)
      (λ _.
        mark_from_outside rounds (lba + 1) bb (mark bitmap lba) l (ground arith)
        ∙ marked_ne bitmap lba l (ground arith))

mark_from_inside :
    (rounds lba bitmap_bytes : ℕ) (bitmap : Array ℕ) (l : ℕ)
    → lba ≤ l
    → l < lba + rounds
    → l / 8 < bitmap_bytes
    → marked (mark_from rounds lba bitmap_bytes bitmap) l ≡ true
unfolding mark_from
mark_from_inside zero lba bb bitmap l le lt room = absurd (omega arith)
mark_from_inside (suc rounds) lba bb bitmap l le lt room =
    if_elim (λ m. marked m l ≡ true) (leb bb (lba / 8)) (λ past. absurd (ground arith))
      (λ _. elim (ℕ_discrete l lba) [
        | yes same ↦
            mark_from_outside rounds (lba + 1) bb (mark bitmap lba) l (inl (omega arith))
            ∙ subst (λ i. marked (mark bitmap i) l ≡ true) same (marked_self bitmap l)
        | no apart ↦
            mark_from_inside rounds (lba + 1) bb (mark bitmap lba) l (omega arith) (omega arith)
              room
      ])

-- The bitmap has a bit for the sector.
pub record HasBit (d : Disk) (l : ℕ) : Type 0 where
  pub allocated : d.has_bitmap ≡ true
  pub room : l / 8 < d.bitmap_bytes

-- What the test of a sector makes of its bit
abbrev shown : Disk → ℕ → Bool → Bool
shown d l b =
    if not d.has_bitmap || d.bitmap_bytes == 0
    then false
    else if leb d.bitmap_bytes (l / 8)
    then false
    else b

pub loaded_mark_outside :
    (start count : ℕ) (d : Disk) (l : ℕ)
    → (l < start) ⊎ (start + count ≤ l)
    → loaded_test l (loaded_mark_range start count d) ≡ loaded_test l d
unfolding loaded_test loaded_mark_range
loaded_mark_outside start count d l out = ap (shown d l) (
    if_elim (λ m. marked m l ≡ marked d.bitmap l)
      (not d.has_bitmap || d.bitmap_bytes == 0 || count == 0) (λ _. refl)
      (λ _. mark_from_outside count start d.bitmap_bytes d.bitmap l out))

pub loaded_mark_inside :
    (start count : ℕ) (d : Disk) (l : ℕ)
    → start ≤ l
    → l < start + count
    → HasBit d l
    → loaded_test l (loaded_mark_range start count d) ≡ true
unfolding loaded_test loaded_mark_range
loaded_mark_inside start count d l le lt has =
    let e1 = has.allocated in
    let e2 = has.room in
    let e3 = mark_from_inside count start d.bitmap_bytes d.bitmap l le lt e2 in ground arith

pub loaded-HasBit : (d : Disk) (l : ℕ) → loaded_test l d ≡ true → HasBit d l
unfolding loaded_test
loaded-HasBit d l h = record { allocated = ground arith; room = ground arith }
