-- ===== src/Disk/Fat/Copies.antt =====
-- kernel/storage/disk/fat_layout.inc: writing an entry into several copies of the table on the drive.
use clks.Base.{
  ℕ, zero, suc, ◌+◌, ◌%◌, ◌^◌, ◌≤◌, ◌<◌, ◌≡◌, ◌≢◌, ◌⊎◌, inl, inr, arith, refl, Bool, true, ap, ◌∙◌,
  sym, subst, if_elim, ℕ_discrete,
}
use clks.Disk.{Disk, Fat32Layout, read_u32, write_u32}
use clks.Disk.Stored.{read_u32-write_u32, write_u32_apart, read_u32_same}
use clks.Disk.Fat.{has_entry, merged, write_copy, write_copies}
use clks.Disk.Fat.Place.{position, position-Apart}
use clks.Disk.Fat.Entries.{IsSound, entry}
use clks.Disk.Fat.Updates.{onto, Updated, write_copy-Updated}

-- A byte is not of the entry of the cluster in one of the `n` copies from `index` on.
abbrev pub Elsewhere : Disk → ℕ → ℕ → ℕ → ℕ → Type 0
Elsewhere d index n cluster j =
    (k : ℕ)
    → index ≤ k
    → k < index + n
    → (j < position d.fat32 k cluster) ⊎ (position d.fat32 k cluster + 4 ≤ j)

-- The step to `e` wrote `n` copies of an entry from `index` on.
pub record Copied (index n cluster value : ℕ) (d e : Disk) : Type 0 where
  pub frame : e ≡ onto e d
  pub outcomes : e.drive.stops ≡ d.drive.stops
  pub sound : IsSound e
  pub copies :
      (k : ℕ) → index ≤ k → k < index + n → entry e k cluster ≡ merged (entry d k cluster) value
  pub rest : (j : ℕ) → Elsewhere d index n cluster j → e.drive.media j ≡ d.drive.media j

-- The entry at a place of which no byte changed.
pub entry_same :
    (d e : Disk) (k c : ℕ)
    → e.fat32 ≡ d.fat32
    → ((j : ℕ)
        → position d.fat32 k c ≤ j
        → j < position d.fat32 k c + 4
        → e.drive.media j ≡ d.drive.media j)
    → entry e k c ≡ entry d k c
entry_same d e k c layout same =
    ap (λ l. read_u32 e.drive.media (position l k c)) layout
    ∙ read_u32_same e.drive.media d.drive.media (position d.fat32 k c) same

entry_written :
    (d e : Disk) (k c x : ℕ) → Updated (position d.fat32 k c) x d e → entry e k c ≡ x % 2 ^ 32
entry_written d e k c x u =
    let at = position d.fat32 k c in
    ap (λ (l : Fat32Layout). read_u32 e.drive.media (position l k c))
      (ap (λ (y : Disk). y.fat32) u.frame)
    ∙ read_u32_same e.drive.media (write_u32 d.drive.media at x) at (λ j _ _. u.media j)
    ∙ read_u32-write_u32 d.drive.media at x

-- One copy and the copies behind it.
Copied-step :
    (n index cluster value : ℕ) (d e f : Disk)
    → has_entry d.fat32 cluster ≡ true
    → Updated (position d.fat32 index cluster) (merged (entry d index cluster) value) d e
    → Copied (index + 1) n cluster value e f
    → Copied index (suc n) cluster value d f
Copied-step n index cluster value d e f has u q = record {
  frame = q.frame ∙ ap (onto f) u.frame;
  outcomes = q.outcomes ∙ u.outcomes;
  sound = q.sound;
  copies = λ k le lt. elim (ℕ_discrete k index) [
    | yes same ↦
        subst (λ i. entry f i cluster ≡ merged (entry d i cluster) value) (sym same)
          (entry_same e f index cluster later
              (λ j a b. q.rest j (λ i l _. behind j i (omega arith) (at_e j a) (below_e j b)))
            ∙ entry_written d e index cluster (merged (entry d index cluster) value) u
            ∙ omega arith)
    | no other ↦
        q.copies k (omega arith) (omega arith)
        ∙ ap (λ n. merged n value)
            (entry_same d e k cluster layout
              (λ j a b. u.media j ∙ write_u32_apart d.drive.media at x j (apart k j other a b)))
  ];
  rest = λ j out.
      q.rest j (λ k le lt.
        subst (λ (l : Fat32Layout). (j < position l k cluster) ⊎ (position l k cluster + 4 ≤ j))
          (sym layout) (out k (omega arith) (omega arith)))
      ∙ u.media j
      ∙ write_u32_apart d.drive.media at x j (out index (omega arith) (omega arith));
}
  where
    at : ℕ
    at = position d.fat32 index cluster

    x : ℕ
    x = merged (entry d index cluster) value

    layout : e.fat32 ≡ d.fat32
    layout = ap (λ (y : Disk). y.fat32) u.frame

    later : f.fat32 ≡ e.fat32
    later = ap (λ (y : Disk). y.fat32) q.frame

    apart :
        (k j : ℕ)
        → k ≢ index
        → position d.fat32 k cluster ≤ j
        → j < position d.fat32 k cluster + 4
        → (j < at) ⊎ (at + 4 ≤ j)
    apart k j other a b =
        elim (position-Apart d.fat32 k index cluster cluster has has (inl other)) [
          | inl before ↦ inl (omega arith)
          | inr after ↦ inr (omega arith)
        ]

    at_e : (j : ℕ) → position e.fat32 index cluster ≤ j → at ≤ j
    at_e j = subst (λ (l : Fat32Layout). position l index cluster ≤ j) layout

    below_e : (j : ℕ) → j < position e.fat32 index cluster + 4 → j < at + 4
    below_e j = subst (λ (l : Fat32Layout). j < position l index cluster + 4) layout

    behind :
        (j k : ℕ)
        → index < k
        → at ≤ j
        → j < at + 4
        → (j < position e.fat32 k cluster) ⊎ (position e.fat32 k cluster + 4 ≤ j)
    behind j k lt a b =
        subst (λ (l : Fat32Layout). (j < position l k cluster) ⊎ (position l k cluster + 4 ≤ j))
          (sym layout)
          (elim (position-Apart d.fat32 index k cluster cluster has has (inl (omega arith))) [
            | inl before ↦ inl (omega arith)
            | inr after ↦ inr (omega arith)
          ])

pub write_copies-Copied :
    (n index cluster value : ℕ) (d : Disk)
    → IsSound d
    → index + n ≤ d.fat32.fat_count
    → has_entry d.fat32 cluster ≡ true
    → (write_copies n index cluster value d).0 ≡ true
    → Copied index n cluster value d (write_copies n index cluster value d).1
unfolding write_copies
write_copies-Copied zero index cluster value d s fits has = λ ok. record {
  frame = refl;
  outcomes = refl;
  sound = s;
  copies = λ k le lt. absurd (omega arith);
  rest = λ j out. refl;
}
write_copies-Copied (suc n) index cluster value d s fits has =
    let r = write_copy index cluster value d in
    if_elim Goal r.0
      (λ done ok.
        let u = write_copy-Updated index cluster value d s (omega arith) has done in
        let layout : r.1.fat32 ≡ d.fat32 = ap (λ (y : Disk). y.fat32) u.frame in
        Copied-step n index cluster value d r.1 (write_copies n (index + 1) cluster value r.1).1 has
          u
          (write_copies-Copied n (index + 1) cluster value r.1 u.sound
            (subst (λ (l : Fat32Layout). index + 1 + n ≤ l.fat_count) (sym layout) (omega arith))
            (subst (λ l. has_entry l cluster ≡ true) (sym layout) has) ok))
      (λ _ ok. absurd (cc ok))
  where
    Goal : Bool × Disk → Type 0
    Goal x = x.0 ≡ true → Copied index (suc n) cluster value d x.1
