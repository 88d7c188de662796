-- ===== src/Ramdisk/Paths.antt =====
-- kernel/storage/ramdisk.c: the paths that are made from a header.
use clks.Base.{
  ℕ, zero, suc, ◌+◌, ◌-◌, ◌≤◌, ◌<◌, ◌≡◌, ◌≢◌, arith, refl, Bool, ◌&&◌, not, Option, none, some, leb,
  ◌==◌, if◌then◌else◌, ◌⊎◌, Array, update, update_self, update_ne, if_elim, ap, ◌∙◌, sym, subst,
  inl, inr,
}
use clks.Ramdisk.{
  path_max, name_at, name_len, prefix_at, prefix_len, field_len, paste, raw_path, skip_head,
  copy_rest, trim_tail, finish_path, build_path,
}

-- A text of `len` bytes in a buffer of `size`, that neither begins nor ends with a slash.
pub record IsPath (size : ℕ) (p : Array ℕ) : Type 0 where
  pub len : ℕ
  pub some_bytes : 0 < len
  pub fits : len < size
  pub text : (i : ℕ) → i < len → p i ≢ 0
  pub ends : p len ≡ 0
  pub head : p 0 ≢ 47
  pub tail : p (len - 1) ≢ 47

-- Skipping the head ends at a byte that is not skipped, at the latest at the final 0.
skip_head_lem :
    (fuel p z : ℕ) (raw : Array ℕ)
    → raw z ≡ 0
    → p ≤ z
    → z < p + fuel
    → (q : ℕ) × (skip_head fuel p raw ≡ some q) × (q ≤ z) × (raw q ≢ 47)
unfolding skip_head
skip_head_lem zero p z raw e le lt = absurd (omega arith)
skip_head_lem (suc fuel) p z raw e le lt =
    if_elim Skips ((raw p == 46) && (raw (p + 1) == 47))
      (λ dot.
        let a : raw p ≡ 46 = ground arith in
        let b : raw (p + 1) ≡ 47 = ground arith in
        let more = before p (λ same. absurd (omega (arith, a, e, ap raw same))) le in
        let more2 = before (p + 1) (λ same. absurd (omega (arith, b, e, ap raw same))) more in
        skip_head_lem fuel (p + 2) z raw e (omega arith) (omega arith))
      (λ _.
        if_elim Skips (raw p == 47)
          (λ slash.
            let a : raw p ≡ 47 = ground arith in
            let more = before p (λ same. absurd (omega (arith, a, e, ap raw same))) le in
            skip_head_lem fuel (p + 1) z raw e more (omega arith))
          (λ other. (p, refl, le, ground arith)))
  where
    Skips : Option ℕ → Type 0
    Skips o = (q : ℕ) × (o ≡ some q) × (q ≤ z) × (raw q ≢ 47)

    before : (i : ℕ) → i ≢ z → i ≤ z → i + 1 ≤ z
    before i ne le' = omega arith

-- What the copy leaves if the text ended: its bytes up to the final 0.
record Copies (rp oc rounds : ℕ) (raw out : Array ℕ) (r : Bool × ℕ × Array ℕ) : Type 0 where
  low : oc ≤ r.1
  high : r.1 ≤ oc + rounds
  kept : (j : ℕ) → j < oc → r.2 j ≡ out j
  moved : (i : ℕ) → oc + i < r.1 → (r.2 (oc + i) ≡ raw (rp + i)) × (raw (rp + i) ≢ 0)

copy_rest-Copies :
    (rounds rp oc : ℕ) (raw out : Array ℕ)
    → Copies rp oc rounds raw out (copy_rest rounds rp oc raw out)
unfolding copy_rest
copy_rest-Copies zero rp oc raw out = record {
  low = omega arith;
  high = omega arith;
  kept = λ j lt. refl;
  moved = λ i lt. absurd (omega arith);
}
copy_rest-Copies (suc rounds) rp oc raw out =
    let rest = copy_rest-Copies rounds (rp + 1) (oc + 1) raw (update out oc (raw rp)) in
    if_elim (Copies rp oc (suc rounds) raw out) (raw rp == 0)
      (λ _. record {
        low = omega arith;
        high = omega arith;
        kept = λ j lt. refl;
        moved = λ i lt. absurd (omega arith);
      })
      (λ more. record {
        low = omega (arith, rest.low);
        high = omega (arith, rest.high);
        kept = λ j lt. rest.kept j (omega arith) ∙ update_ne out oc j (raw rp) (omega arith);
        moved = λ i. each rest (ground arith) i;
      })
  where
    got : Bool × ℕ × Array ℕ
    got = copy_rest rounds (rp + 1) (oc + 1) raw (update out oc (raw rp))

    each :
        Copies (rp + 1) (oc + 1) rounds raw (update out oc (raw rp)) got
        → raw rp ≢ 0
        → (i : ℕ) → oc + i < got.1
        → (got.2 (oc + i) ≡ raw (rp + i)) × (raw (rp + i) ≢ 0)
    each rest ne zero lt = (
      ap got.2 (omega arith)
          ∙ rest.kept oc (omega arith)
          ∙ update_self out oc (raw rp)
          ∙ ap raw (omega arith),
      λ e. ne (ap raw (omega arith) ∙ e),
    )
    each rest ne (suc i) lt =
        let (a, b) = rest.moved i (omega arith) in
        (ap got.2 (omega arith) ∙ a ∙ ap raw (omega arith), λ e. b (ap raw (omega arith) ∙ e))

trim_tail_lem :
    (n : ℕ) (out : Array ℕ)
    → (trim_tail n out ≤ n) × (0 < trim_tail n out → out (trim_tail n out - 1) ≢ 47)
unfolding trim_tail
trim_tail_lem zero out = (omega arith, λ pos. absurd (omega arith))
trim_tail_lem (suc n) out =
    let (a, b) = trim_tail_lem n out in
    if_elim (λ t. (t ≤ suc n) × (0 < t → out (t - 1) ≢ 47)) (out n == 47)
      (λ slash. (omega arith, b)) (λ other. (omega arith, λ _ e. absurd (ground arith)))

-- An answer, and a path in order if it is one.
abbrev pub Builds : ℕ → Option (Option (Array ℕ)) → Type 0
Builds size r = (o : Option (Array ℕ)) × (r ≡ some o) × ((p : Array ℕ) → o ≡ some p → IsPath size p)

finish_path-Builds :
    (size z : ℕ) (raw out : Array ℕ)
    → 0 < size
    → raw z ≡ 0
    → z < path_max
    → Builds size (finish_path size raw out)
unfolding finish_path
finish_path-Builds size z raw out pos e lt =
    let (q, skipped, _, head) =
      skip_head_lem (path_max + 1) 0 z raw e (omega arith) (omega arith) in
    subst (λ o. Builds size (after o)) (sym skipped) (at_start q head)
  where
    copied : ℕ → Bool × ℕ × Array ℕ
    copied q = copy_rest (size - 1) q 0 raw (update out 0 0)

    length : ℕ → ℕ
    length q = trim_tail (copied q).1 (copied q).2

    after : Option ℕ → Option (Option (Array ℕ))
    after o = elim o [
      | none ↦ none
      | some q ↦
          if not (copied q).0
          then some none
          else if length q == 0
          then some none
          else some (some (update (copied q).2 (length q) 0))
    ]

    refusal : Builds size (some none)
    refusal = (none, refl, λ p h. absurd (cc h))

    path : (q : ℕ) → raw q ≢ 47 → 0 < length q → IsPath size (update (copied q).2 (length q) 0)
    path q head some_left =
        let c = copy_rest-Copies (size - 1) q 0 raw (update out 0 0) in
        let (le, tail) = trim_tail_lem (copied q).1 (copied q).2 in
        let n = length q in
        let high = c.high in
        let byte : (i : ℕ) → i < n → update (copied q).2 n 0 i ≡ raw (q + i) = λ i lt.
          update_ne (copied q).2 n i 0 (omega arith)
          ∙ ap (copied q).2 (omega arith)
          ∙ (c.moved i (omega arith)).0 in
        record {
          len = n;
          some_bytes = some_left;
          fits = omega arith;
          text = λ i lt z. (c.moved i (omega arith)).1 (sym (byte i lt) ∙ z);
          ends = update_self (copied q).2 n 0;
          head = λ z. head (ap raw (omega arith) ∙ sym (byte 0 some_left) ∙ z);
          tail = λ z. tail some_left (sym (update_ne (copied q).2 n (n - 1) 0 (omega arith)) ∙ z);
        }

    at_start : (q : ℕ) → raw q ≢ 47 → Builds size (after (some q))
    at_start q head =
        if_elim (Builds size) (not (copied q).0) (λ _. refusal)
          (λ _.
            if_elim (Builds size) (length q == 0) (λ _. refusal)
              (λ some_left.
                let made = path q head (ground arith) in
                (
                  some (update (copied q).2 (length q) 0),
                  refl,
                  λ p h. subst (IsPath size) (cc h) made,
                )))

-- A raw path ends within its buffer.
raw_path-ends :
    (hdr : ℕ) (image raw raw' : Array ℕ)
    → raw_path hdr image raw ≡ some raw'
    → (z : ℕ) × (z < path_max) × (raw' z ≡ 0)
unfolding raw_path
raw_path-ends hdr image raw raw' =
    if_elim Ends (name == 0) (λ _ h. absurd (cc h))
      (λ _.
        if_elim Ends (not (prefix == 0) && leb path_max (prefix + 1)) (λ _ h. absurd (cc h))
          (λ _.
            if_elim Ends (leb path_max (cursor + name)) (λ _ h. absurd (cc h))
              (λ fits h.
                let same : update (paste cursor (hdr + name_at) name image start) (cursor + name) 0
                    ≡ raw' =
                  cc h in
                (
                  cursor + name,
                  ground arith,
                  ap (λ (f : Array ℕ). f (cursor + name)) (sym same)
                      ∙ update_self (paste cursor (hdr + name_at) name image start) (cursor + name)
                          0,
                ))))
  where
    prefix : ℕ
    prefix = field_len prefix_len (hdr + prefix_at) image

    name : ℕ
    name = field_len name_len (hdr + name_at) image

    cursor : ℕ
    cursor = if prefix == 0 then 0 else prefix + 1

    start : Array ℕ
    start =
        if prefix == 0
        then update raw 0 0
        else update (paste 0 (hdr + prefix_at) prefix image (update raw 0 0)) prefix 47

    Ends : Option (Array ℕ) → Type 0
    Ends o = o ≡ some raw' → (z : ℕ) × (z < path_max) × (raw' z ≡ 0)

pub build_path-Builds :
    (hdr size : ℕ) (image raw out : Array ℕ)
    → 0 < size
    → Builds size (build_path hdr image size raw out)
unfolding build_path
build_path-Builds hdr size image raw out pos = cases (raw_path hdr image raw) refl
  where
    after : Option (Array ℕ) → Option (Option (Array ℕ))
    after o = elim o [ none ↦ some none | some raw' ↦ finish_path size raw' out ]

    cases : (o : Option (Array ℕ)) → raw_path hdr image raw ≡ o → Builds size (after o)
    cases none e = (none, refl, λ p h. absurd (cc h))
    cases (some raw') e =
        let (z, lt, ends) = raw_path-ends hdr image raw raw' e in
        finish_path-Builds size z raw' out pos ends lt

-- Whatever the header says and the buffers hold: the path of a header is found in the fuel given, or it is
-- refused; a path is a text that fits its buffer with its final 0, is not empty, and neither begins nor
-- ends with a slash.
pub build_path-IsPath :
    (hdr size : ℕ) (image raw out : Array ℕ)
    → 0 < size
    → (build_path hdr image size raw out ≡ some none)
      ⊎ ((p : Array ℕ) × (build_path hdr image size raw out ≡ some (some p)) × IsPath size p)
build_path-IsPath hdr size image raw out pos =
    let (o, e, good) = build_path-Builds hdr size image raw out pos in split o e good
  where
    split :
        (o : Option (Array ℕ))
        → build_path hdr image size raw out ≡ some o
        → ((p : Array ℕ) → o ≡ some p → IsPath size p)
        → (build_path hdr image size raw out ≡ some none)
          ⊎ ((p : Array ℕ) × (build_path hdr image size raw out ≡ some (some p)) × IsPath size p)
    split none e good = inl e
    split (some p) e good = inr (p, e, good p refl)
