-- ===== src/Disk/Chain/Rounds.antt =====
-- kernel/storage/disk/file_chain.inc: one round of reading a file.
use clks.Base.{
  ℕ, zero, suc, ◌+◌, ◌-◌, ◌*◌, ◌≤◌, ◌<◌, ◌≡◌, arith, refl, Bool, true, ◌&&◌, leb, ltb, ◌==◌, min,
  Array, ap, ◌∙◌, if_elim,
}
use clks.Disk.{Disk, sector_size, put}
use clks.Disk.Layout.Regions.{region}
use clks.Disk.Fat.Entries.{link}

-- The cluster after `k` links
unfoldable pub walk : (ℕ → ℕ) → ℕ → ℕ → ℕ
walk f zero c = c
walk f (suc k) c = walk f k (f c)

-- What a read that starts with `c` and index `copied` leaves: the bytes in front, and behind them those
-- of the chain's clusters on the drive.
pub record Reads (b : Disk) (c copied size : ℕ) (out : Array ℕ) (got : Array ℕ) : Type 0 where
  pub kept : (j : ℕ) → j < copied → got j ≡ out j
  pub chain :
      (k i : ℕ)
      → i < b.fat32.cluster_size_bytes
      → copied + k * b.fat32.cluster_size_bytes + i < size
      → got (copied + k * b.fat32.cluster_size_bytes + i)
        ≡ b.drive.media (region b.fat32 (walk (link b) k c) * sector_size + i)

abbrev pub Goal : Disk → ℕ → ℕ → ℕ → Array ℕ → Bool × Array ℕ × Disk → Type 0
Goal b c copied size out r = r.0 ≡ true → Reads b c copied size out r.1

pub ended :
    (b d : Disk) (c copied size : ℕ) (out : Array ℕ)
    → Goal b c copied size out (copied == size, out, d)
ended b d c copied size out h = record {
  kept = λ j lt. refl;
  chain = λ k i lt within. absurd (ground arith);
}

-- One round: the bytes of a cluster on the drive, `n` of them, are in `source` from `offset` on.
module _ (b : Disk) (c copied size : ℕ) (out source : Array ℕ) (offset n : ℕ)
    (place : offset ≡ region b.fat32 c * sector_size)
    (amount : n ≡ min (size - copied) b.fat32.cluster_size_bytes)
    (same : (j : ℕ) → offset ≤ j → j < offset + n → source j ≡ b.drive.media j) where
  first_bytes :
      (i : ℕ)
      → i < n
      → put copied offset n source out (copied + i)
        ≡ b.drive.media (region b.fat32 c * sector_size + i)
  first_bytes i lt =
      if_elim (λ x. x ≡ b.drive.media (region b.fat32 c * sector_size + i))
        (leb copied (copied + i) && ltb (copied + i) (copied + n))
        (λ _.
          ap source (omega arith)
          ∙ same (offset + i) (omega arith) (omega arith)
          ∙ ap b.drive.media (omega arith))
        (λ outside. absurd (ground arith))

  last_cluster :
      size ≤ copied + n
      → (k i : ℕ) → i < b.fat32.cluster_size_bytes
      → copied + k * b.fat32.cluster_size_bytes + i < size
      → put copied offset n source out (copied + k * b.fat32.cluster_size_bytes + i)
        ≡ b.drive.media (region b.fat32 (walk (link b) k c) * sector_size + i)
  unfolding walk
  last_cluster done zero i lt within =
      ap (put copied offset n source out) (omega arith) ∙ first_bytes i (omega arith)
  last_cluster done (suc k) i lt within = absurd (omega arith)

  -- The last cluster of a read.
  pub last_Reads : size ≤ copied + n → Reads b c copied size out (put copied offset n source out)
  last_Reads done = record { kept = λ j lt. ground arith; chain = last_cluster done }

  later_cluster :
      (got : Array ℕ)
      → copied + n < size
      → Reads b (link b c) (copied + n) size (put copied offset n source out) got
      → (k i : ℕ) → i < b.fat32.cluster_size_bytes
      → copied + k * b.fat32.cluster_size_bytes + i < size
      → got (copied + k * b.fat32.cluster_size_bytes + i)
        ≡ b.drive.media (region b.fat32 (walk (link b) k c) * sector_size + i)
  unfolding walk
  later_cluster got more rest zero i lt within =
      ap got (omega arith) ∙ rest.kept (copied + i) (omega arith) ∙ first_bytes i (omega arith)
  later_cluster got more rest (suc k) i lt within =
      ap got (omega arith) ∙ rest.chain k i lt (omega arith)

  -- One cluster and what is read behind it.
  pub more_Reads :
      (got : Array ℕ)
      → copied + n < size
      → Reads b (link b c) (copied + n) size (put copied offset n source out) got
      → Reads b c copied size out got
  more_Reads got more rest = record {
    kept = λ j lt. rest.kept j (omega arith) ∙ ground arith;
    chain = later_cluster got more rest;
  }
