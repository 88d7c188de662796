-- ===== src/Pmm/Init.antt =====
-- `clks_pmm_init` of kernel/memory/pmm.c: which pages of the memory map end up on the free stack.
use clks.Base.{
  ℕ, ◌+◌, ◌-◌, ◌/◌, ◌%◌, ◌≤◌, ◌<◌, ◌≡◌, ◌≢◌, refl, arith, Option, none, some, List, [], ◌∷◌, ◌⊎◌,
  inl, inr, add64, ◌↔◌, u64_mod, dec_lt, ℕ_discrete, ◌∙◌,
}
use clks.Pmm.{
  Pmm, MemmapEntry, page_size, min_usable_addr, memmap_usable, align_up, align_down, track_range,
  track_entry, track_entries, cleared, init,
}
use clks.Pmm.Stack.{IsFrame, IsValid}
use clks.Pmm.Range.{Between, Tracks, Tracks-map, range-Tracks}

-- A page that lies within a usable entry, above the first megabyte.
pub record InEntry (e : MemmapEntry) (a : ℕ) : Type 0 where
  pub usable : e.kind ≡ memmap_usable
  pub from : e.base ≤ a
  pub to : a + page_size ≤ e.base + e.len
  pub high : min_usable_addr ≤ a
  pub aligned : a % page_size ≡ 0

abbrev pub Covered : List (Option MemmapEntry) → ℕ → Type 0
Covered [] a = ⊥
Covered (none ∷ rest) a = Covered rest a
Covered (some e ∷ rest) a = InEntry e a ⊎ Covered rest a

-- The end of an entry, and one more page, fit in 64 bits.
abbrev pub Fits : List (Option MemmapEntry) → Type 0
Fits [] = Unit
Fits (none ∷ rest) = Fits rest
Fits (some e ∷ rest) = (e.base + e.len + page_size ≤ u64_mod) × Fits rest

abbrev pub start_of : MemmapEntry → ℕ
start_of e = align_up e.base

abbrev pub end_of : MemmapEntry → ℕ
end_of e = align_down (add64 e.base e.len)

-- The rounded bounds of an entry.
pub bounds :
    (e : MemmapEntry)
    → e.base + e.len + page_size ≤ u64_mod
    → (e.base ≤ start_of e)
      × (start_of e < e.base + page_size)
      × (start_of e % page_size ≡ 0)
      × (end_of e ≤ e.base + e.len)
      × (e.base + e.len < end_of e + page_size)
      × (end_of e % page_size ≡ 0)
unfolding align_up align_down
bounds e h = omega arith

Between-InEntry :
    (e : MemmapEntry) (x : ℕ)
    → e.base + e.len + page_size ≤ u64_mod
    → e.kind ≡ memmap_usable
    → Between (start_of e) (end_of e) x ↔ InEntry e x
Between-InEntry e x h k = (λ b. omega (arith, bounds e h), λ b. omega (arith, bounds e h))

-- The two cases of an entry: skipped, or walked page by page.
pub entry_skipped :
    (e : MemmapEntry) (s : Pmm)
    → (e.kind ≢ memmap_usable) ⊎ (end_of e ≤ start_of e)
    → track_entry (some e) s ≡ some s
unfolding track_entry
entry_skipped e s h = ground arith

pub entry_walked :
    (e : MemmapEntry) (s : Pmm)
    → e.kind ≡ memmap_usable
    → start_of e < end_of e
    → track_entry (some e) s
      ≡ track_range ((end_of e - start_of e) / page_size + 1) (start_of e) (end_of e) s
unfolding track_entry
entry_walked e s k h = ground arith

-- An entry adds its pages.
track_entry-Tracks :
    (D : ℕ → Type 0) (e : MemmapEntry) (s : Pmm)
    → e.base + e.len + page_size ≤ u64_mod
    → Tracks D s
    → (s' : Pmm) × (track_entry (some e) s ≡ some s') × Tracks (λ x. D x ⊎ InEntry e x) s'
track_entry-Tracks D e s h t = elim (ℕ_discrete e.kind memmap_usable) [
  | no ne ↦ skipped (inl ne) (λ x p. ne p.usable)
  | yes k ↦ elim (dec_lt (start_of e) (end_of e)) [
    | no ge ↦ skipped (inr (omega arith)) (λ x p. omega (arith, bounds e h))
    | yes lt ↦
        let (s', q, t') =
          range-Tracks D (start_of e) (end_of e) s (omega (arith, bounds e h)) (bounds e h).2
            (bounds e h).5 (omega arith) t in
        (
          s',
          entry_walked e s k lt ∙ q,
          Tracks-map (λ x d. elim d [ inl a ↦ inl a | inr b ↦ inr ((Between-InEntry e x h k).0 b) ])
              (λ x d. elim d [ inl a ↦ inl a | inr b ↦ inr ((Between-InEntry e x h k).1 b) ]) t',
        )
  ]
]
  where
    skipped :
        (e.kind ≢ memmap_usable) ⊎ (end_of e ≤ start_of e)
        → ((x : ℕ) → ¬ InEntry e x)
        → (s' : Pmm) × (track_entry (some e) s ≡ some s') × Tracks (λ x. D x ⊎ InEntry e x) s'
    skipped why none_in = (
      s,
      entry_skipped e s why,
      Tracks-map (λ x d. inl d) (λ x d. elim d [ inl a ↦ a | inr b ↦ absurd (none_in x b) ]) t,
    )

pub track_entries-cons :
    (entry : Option MemmapEntry) (rest : List (Option MemmapEntry)) (s s' : Pmm)
    → track_entry entry s ≡ some s'
    → track_entries (entry ∷ rest) s ≡ track_entries rest s'
unfolding track_entries
track_entries-cons entry rest s s' q = ground arith

pub track_entry-none : (s : Pmm) → track_entry none s ≡ some s
unfolding track_entry
track_entry-none s = refl

track_entries-Tracks :
    (D : ℕ → Type 0) (entries : List (Option MemmapEntry)) (s : Pmm)
    → Fits entries
    → Tracks D s
    → (s' : Pmm) × (track_entries entries s ≡ some s') × Tracks (λ x. D x ⊎ Covered entries x) s'
unfolding track_entries
track_entries-Tracks D [] s f t =
    (s, refl, Tracks-map (λ x d. inl d) (λ x d. elim d [ inl a ↦ a | inr b ↦ absurd b ]) t)
track_entries-Tracks D (none ∷ rest) s f t =
    let (s', q, t') = track_entries-Tracks D rest s f t in
    (s', track_entries-cons none rest s s (track_entry-none s) ∙ q, t')
track_entries-Tracks D (some e ∷ rest) s f t =
    let (s₁, q, t₁) = track_entry-Tracks D e s f.0 t in
    let (s₂, q₂, t₂) = track_entries-Tracks (λ x. D x ⊎ InEntry e x) rest s₁ f.1 t₁ in
    (s₂, track_entries-cons (some e) rest s s₁ q ∙ q₂, Tracks-map assoc assoc⁻¹ t₂)
  where
    assoc : (x : ℕ) → (D x ⊎ InEntry e x) ⊎ Covered rest x → D x ⊎ Covered (some e ∷ rest) x
    assoc x (inl (inl d)) = inl d
    assoc x (inl (inr d)) = inr (inl d)
    assoc x (inr d) = inr (inr d)

    assoc⁻¹ : (x : ℕ) → D x ⊎ Covered (some e ∷ rest) x → (D x ⊎ InEntry e x) ⊎ Covered rest x
    assoc⁻¹ x (inl d) = inl (inl d)
    assoc⁻¹ x (inr (inl d)) = inl (inr d)
    assoc⁻¹ x (inr (inr d)) = inr d

Covered-IsFrame : (entries : List (Option MemmapEntry)) (a : ℕ) → Covered entries a → IsFrame a
Covered-IsFrame [] a c = absurd c
Covered-IsFrame (none ∷ rest) a c = Covered-IsFrame rest a c
Covered-IsFrame (some e ∷ rest) a (inl c) = omega arith
Covered-IsFrame (some e ∷ rest) a (inr c) = Covered-IsFrame rest a c

-- If the entries of the memory map fit in 64 bits, `clks_pmm_init` ends in a valid state in which
-- every page on the free stack is aligned and lies within a usable entry above the first megabyte,
-- every such page is on the stack unless the stack is full, and the pages managed are those free.
pub init_lem :
    (entries : List (Option MemmapEntry))
    → Fits entries
    → (s : Pmm) × (init (some entries) ≡ some s) × Tracks (Covered entries) s × IsValid s
unfolding init
init_lem entries f =
    let (s, q, t) = track_entries-Tracks (λ _. ⊥) entries cleared f empty in
    let t' = Tracks-map (λ x d. elim d [ inl a ↦ absurd a | inr b ↦ b ]) (λ x d. inr d) t in
    (
      s,
      q,
      t',
      record { room = t'.room; frames = λ i lt. Covered-IsFrame entries _ (t'.sound i lt) },
    )
  where
    empty : Tracks (λ _. ⊥) cleared
    empty = record {
      room = omega arith;
      counted = refl;
      sound = λ i lt. absurd (omega arith);
      complete = λ a lt d. absurd d;
    }
