-- ===== src/Pty/Lifetime.antt =====
-- The life of a slot of kernel/runtime/pty.c: references taken and given back.
use clks.Base.{
  ℕ, zero, suc, ◌+◌, ◌-◌, ◌≤◌, ◌<◌, ◌≡◌, refl, arith, true, none, some, ltb, if◌then◌else◌, inl,
  inr, Array, ap, fun_ext, ◌∙◌, dec_lt, ℕ_discrete, update_self, update_ne, u64_mod, Option-cases,
  lt→ltb,
}
use clks.Pty.{Slot, Pty, zero_slot, find_slot, retain, release, set_slot}
use clks.Pty.Slots.{IsTable, find_slot-some, set_slot-IsTable, find_slot-set_slot}

retain-some :
    (id i : ℕ) (p : Pty)
    → find_slot id p ≡ some i
    → (p.slots i).ref_count + 1 < u64_mod
    → retain id p
      ≡ (true, set_slot i (record (p.slots i) { ref_count = (p.slots i).ref_count + 1 }) p)
unfolding retain
retain-some id i p e h = ground arith

release_shared :
    (id i : ℕ) (p : Pty)
    → find_slot id p ≡ some i
    → 1 < (p.slots i).ref_count
    → (p.slots i).ref_count < u64_mod
    → release id p ≡ set_slot i (record (p.slots i) { ref_count = (p.slots i).ref_count - 1 }) p
unfolding release
release_shared id i p e h k = ground arith

release_last :
    (id i : ℕ) (p : Pty)
    → find_slot id p ≡ some i
    → (p.slots i).ref_count ≤ 1
    → release id p ≡ set_slot i zero_slot p
unfolding release
release_last id i p e h = ground arith

release-none : (id : ℕ) (p : Pty) → find_slot id p ≡ none → release id p ≡ p
unfolding release
release-none id p e = ground arith

pub set_slot-set_slot : (i : ℕ) (s : Slot) (p : Pty) → set_slot i (p.slots i) (set_slot i s p) ≡ p
unfolding set_slot
set_slot-set_slot i s p =
    ap (λ (f : Array Slot). let q : Pty = record { slots = f; next_id = p.next_id } in q)
      (fun_ext (λ j. ground arith))

pub slots-set_slot : (i : ℕ) (s : Slot) (p : Pty) → (set_slot i s p).slots i ≡ s
unfolding set_slot
slots-set_slot i s p = update_self p.slots i s

count_back :
    (s t : Slot)
    → t ≡ record s { ref_count = s.ref_count + 1 }
    → record t { ref_count = t.ref_count - 1 } ≡ s
count_back s t e = ground arith

-- On a well formed table, taking a reference to an open pipe whose count does not overflow
-- succeeds, and giving it back leaves the whole table as it was.
pub release-retain :
    (id i : ℕ) (p : Pty)
    → IsTable p
    → find_slot id p ≡ some i
    → (p.slots i).ref_count + 1 < u64_mod
    → ((retain id p).0 ≡ true) × (release id (retain id p).1 ≡ p)
release-retain id i p t e room =
    let (lt, u, same) = find_slot-some id i p e in
    let slot' : Slot = record (p.slots i) { ref_count = (p.slots i).ref_count + 1 } in
    let q : Pty = set_slot i slot' p in
    let here : q.slots i ≡ slot' = slots-set_slot i slot' p in
    let counted : (q.slots i).ref_count ≡ (p.slots i).ref_count + 1 = ap (λ s. s.ref_count) here in
    let found : find_slot id q ≡ some i = find_slot-set_slot id i slot' p refl refl ∙ e in
    rw (retain-some id i p e room) (
      refl,
      release_shared id i q found (omega (arith, t.live i lt u)) (omega arith)
          ∙ ap (λ s. set_slot i s q) (count_back (p.slots i) (q.slots i) here)
          ∙ set_slot-set_slot i slot' p,
    )

-- What one release does to the slot of its identifier.
release-found :
    (id i : ℕ) (p : Pty)
    → IsTable p
    → find_slot id p ≡ some i
    → 1 < (p.slots i).ref_count
    → (find_slot id (release id p) ≡ some i)
      × (((release id p).slots i).ref_count ≡ (p.slots i).ref_count - 1)
      × IsTable (release id p)
release-found id i p t e h =
    let (lt, u, same) = find_slot-some id i p e in
    let slot' : Slot = record (p.slots i) { ref_count = (p.slots i).ref_count - 1 } in
    rw (release_shared id i p e h (omega (arith, t.live i lt u))) (
      find_slot-set_slot id i slot' p refl refl ∙ e,
      ap (λ s. s.ref_count) (slots-set_slot i slot' p),
      set_slot-IsTable i slot' t lt u refl (omega (arith, t.live i lt u))
          (omega (arith, t.rings i lt)),
    )

zeroed-IsTable : {p : Pty} (i : ℕ) → IsTable p → IsTable (set_slot i zero_slot p)
unfolding set_slot
zeroed-IsTable {p} i t = record {
  counter = t.counter;
  rings = λ j lt'. elim (ℕ_discrete j i) [
    | yes e ↦ rw (e, update_self p.slots i zero_slot) (omega arith)
    | no ne ↦ rw (update_ne p.slots i j zero_slot ne) (t.rings j lt')
  ];
  live = λ j lt' u'. ground (arith, t.live j lt');
  distinct = λ j k lt' lt'' u' u'' e. ground (arith, t.distinct j k);
}

release-gone :
    (id i : ℕ) (p : Pty)
    → IsTable p
    → find_slot id p ≡ some i
    → (p.slots i).ref_count ≤ 1
    → (find_slot id (release id p) ≡ none) × IsTable (release id p)
release-gone id i p t e h = rw (release_last id i p e h) (gone, zeroed-IsTable i t)
  where
    q : Pty
    q = set_slot i zero_slot p

    gone : find_slot id q ≡ none
    gone = elim (Option-cases (find_slot id q)) [
      | inl none_left ↦ none_left
      | inr (j, e') ↦
          let (lt, u, same) = find_slot-some id i p e in
          let (lt', u', same') = find_slot-some id j q e' in
          unfold set_slot in ground (arith, t.distinct j i lt' lt)
    ]

-- `n` calls of `clks_pty_release`.
pub releases : ℕ → ℕ → Pty → Pty
releases zero id p = p
releases (suc n) id p = releases n id (release id p)

releases-none : (n id : ℕ) (p : Pty) → find_slot id p ≡ none → releases n id p ≡ p
unfolding releases
releases-none zero id p e = refl
releases-none (suc n) id p e = rw (release-none id p e) (releases-none n id p e)

-- On a well formed table, after `n` releases an open pipe is still found, at the same slot,
-- exactly if it had more than `n` references.
pub find_slot-releases :
    (n id i : ℕ) (p : Pty)
    → IsTable p
    → find_slot id p ≡ some i
    → find_slot id (releases n id p) ≡ (if ltb n (p.slots i).ref_count then some i else none)
unfolding releases
find_slot-releases zero id i p t e =
    let (lt, u, _) = find_slot-some id i p e in
    rw (lt→ltb 0 (p.slots i).ref_count (omega (arith, t.live i lt u))) e
find_slot-releases (suc n) id i p t e = elim (dec_lt 1 (p.slots i).ref_count) [
  | yes shared ↦
      let (found, refs, t') = release-found id i p t e shared in
      ground (arith, find_slot-releases n id i (release id p) t' found)
  | no last ↦
      let (gone, _) = release-gone id i p t e (omega arith) in
      ground (arith, releases-none n id (release id p) gone)
]
