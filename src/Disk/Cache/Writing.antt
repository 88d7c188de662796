-- ===== src/Disk/Cache/Writing.antt =====
-- Writing back in kernel/storage/disk/cache_io.inc: what one batch leaves on the drive.
use clks.Base.{
  ℕ, ◌+◌, ◌*◌, ◌≤◌, ◌<◌, ◌≡◌, arith, refl, Bool, true, false, ◌&&◌, leb, ltb, ap, inl, if_elim, min,
  ◌⊎◌,
}
use clks.Disk.{Disk, sector_size}
use clks.Disk.Cache.Batches.{sent, write_batch_cases}
use clks.Disk.Cache.{loaded_test, loaded_mark_range, write_batch}
use clks.Disk.Cache.Marks.{HasBit, loaded_mark_inside}
use clks.Disk.Cache.Loading.{loaded_mark_new, loaded_mark_grows}

-- A byte is not in the `count` sectors from `start` on.
abbrev pub Beside : ℕ → ℕ → ℕ → Type 0
Beside start count j = (j < start * sector_size) ⊎ ((start + count) * sector_size ≤ j)

-- The buffer's `count` sectors from `start` on were written, on success all of them: the result `r` of a
-- routine that starts in `d`.
pub record Stores (start count : ℕ) (d : Disk) (r : Bool × Disk) : Type 0 where
  pub frame : r.1 ≡ record d { bitmap = r.1.bitmap; drive = r.1.drive }
  pub outcomes : r.1.drive.stops ≡ d.drive.stops
  pub beside : (j : ℕ) → Beside start count j → r.1.drive.media j ≡ d.drive.media j
  pub within :
      r.0 ≡ true
      → (j : ℕ) → start * sector_size ≤ j
      → j < (start + count) * sector_size
      → r.1.drive.media j ≡ d.bytes j
  pub grows : (l : ℕ) → loaded_test l d ≡ true → loaded_test l r.1 ≡ true
  pub fresh :
      (l : ℕ)
      → loaded_test l r.1 ≡ true
      → (loaded_test l d ≡ true) ⊎ ((start ≤ l) × (l < start + count))
  pub present :
      r.0 ≡ true → (l : ℕ) → start ≤ l → l < start + count → HasBit d l → loaded_test l r.1 ≡ true

sent-Beside :
    (lba n : ℕ) (d : Disk) (j : ℕ) → Beside lba n j → (sent lba n d).drive.media j ≡ d.drive.media j
sent-Beside lba n d j out = ground arith

sent_within :
    (lba n : ℕ) (d : Disk) (j : ℕ)
    → lba * sector_size ≤ j
    → j < (lba + n) * sector_size
    → (sent lba n d).drive.media j ≡ d.bytes j
sent_within lba n d j le lt =
    if_elim (λ x. x ≡ d.bytes j)
      (leb (lba * sector_size) j && ltb j (lba * sector_size + n * sector_size))
      (λ _. ap d.bytes (omega arith)) (λ outside. absurd (ground arith))

pub Stores-nothing : (start count : ℕ) (d : Disk) → Stores start count d (false, d)
Stores-nothing start count d = record {
  frame = refl;
  outcomes = refl;
  beside = λ j out. refl;
  within = λ e. absurd (ground arith);
  grows = λ l h. h;
  fresh = λ l h. inl h;
  present = λ e. absurd (ground arith);
}

pub Stores-none : (start : ℕ) (d : Disk) → Stores start 0 d (true, d)
Stores-none start d = record {
  frame = refl;
  outcomes = refl;
  beside = λ j out. refl;
  within = λ e j le lt. absurd (omega arith);
  grows = λ l h. h;
  fresh = λ l h. inl h;
  present = λ e l le lt. absurd (omega arith);
}

sent-failed : (lba n count : ℕ) (d : Disk) → n ≤ count → Stores lba count d (false, sent lba n d)
unfolding loaded_test
sent-failed lba n count d fits = record {
  frame = refl;
  outcomes = refl;
  beside = λ j out. sent-Beside lba n d j (ground arith);
  within = λ e. absurd (ground arith);
  grows = λ l h. h;
  fresh = λ l h. inl h;
  present = λ e. absurd (ground arith);
}

sent-marked : (lba n : ℕ) (d : Disk) → Stores lba n d (true, loaded_mark_range lba n (sent lba n d))
unfolding loaded_mark_range loaded_test
sent-marked lba n d = record {
  frame = refl;
  outcomes = refl;
  beside = sent-Beside lba n d;
  within = λ _. sent_within lba n d;
  grows = loaded_mark_grows lba n (sent lba n d);
  fresh = loaded_mark_new lba n (sent lba n d);
  present = λ _ l le lt has.
      loaded_mark_inside lba n (sent lba n d) l le lt
        (record { allocated = has.allocated; room = has.room });
}

pub write_batch-Stores : (lba n : ℕ) (d : Disk) → Stores lba n d (write_batch lba n d)
write_batch-Stores lba n d =
    write_batch_cases lba n d (Stores lba n d) (Stores-nothing lba n d) (sent-marked lba n d)
      (λ k. sent-failed lba (min k n) n d (omega arith))
