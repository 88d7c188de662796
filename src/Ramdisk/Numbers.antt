-- ===== src/Ramdisk/Numbers.antt =====
-- kernel/storage/ramdisk.c: the octal numbers of a header.
use clks.Base.{
  ℕ, zero, suc, ◌+◌, ◌-◌, ◌*◌, ◌/◌, ◌%◌, ◌^◌, ◌≤◌, ◌<◌, ◌≡◌, arith, refl, true, ◌||◌, Option, some,
  List, [], ◌∷◌, length, ltb, Array, add64, if_elim, ap, ◌∙◌, subst,
}
use clks.Ramdisk.{is_blank, digits_from, parse_octal}

-- The number that octal digits stand for behind `value`.
abbrev pub number : ℕ → List ℕ → ℕ
number value [] = value
number value (d ∷ ds) = number (value * 8 + d) ds

-- The bytes from `at` on are the digits and a blank.
abbrev pub Written : Array ℕ → ℕ → List ℕ → Type 0
Written field at [] = is_blank (field at) ≡ true
Written field at (d ∷ ds) = (field at ≡ 48 + d) × (d < 8) × Written field (at + 1) ds

number_low : (value : ℕ) (ds : List ℕ) → value ≤ number value ds
number_low value [] = omega arith
number_low value (d ∷ ds) = let low = number_low (value * 8 + d) ds in omega arith

digits_from-Written :
    (ds : List ℕ) (rounds at value : ℕ) (field : Array ℕ)
    → length ds < rounds
    → Written field at ds
    → number value ds < 2 ^ 64
    → digits_from rounds at field value ≡ some (number value ds)
unfolding digits_from
digits_from-Written ds zero at value field short w small = absurd (omega arith)
digits_from-Written [] (suc rounds) at value field short w small =
    if_elim (λ (o : Option ℕ). o ≡ some value) (is_blank (field at)) (λ _. refl)
      (λ no. absurd (cc (no, w)))
digits_from-Written (d ∷ ds) (suc rounds) at value field short (e, lt, w) small =
    let low = number_low (value * 8 + d) ds in
    let same : add64 (value * 8 % 2 ^ 64) (field at - 48) ≡ value * 8 + d =
      omega (arith, e, lt, low, small) in
    let rest = digits_from-Written ds rounds (at + 1) (value * 8 + d) field (omega arith) w small in
    if_elim Reads (is_blank (field at)) (λ b. absurd (ground (arith, e)))
      (λ _.
        if_elim Reads (ltb (field at) 48 || ltb 55 (field at)) (λ b. absurd (ground (arith, e, lt)))
          (λ _.
            if_elim Reads (ltb ((2 ^ 64 - 1) / 8) value) (λ b. absurd (ground (arith, low, small)))
              (λ _. ap (digits_from rounds (at + 1) field) same ∙ rest)))
  where
    Reads : Option ℕ → Type 0
    Reads o = o ≡ some (number (value * 8 + d) ds)

-- A field that holds blanks, then at least one octal digit and a blank, all within its length, is read as
-- the number that the digits stand for, if that is below 2 ^ 64.
pub parse_octal-Written :
    (blanks len at d : ℕ) (ds : List ℕ) (field : Array ℕ)
    → ((i : ℕ) → i < blanks → is_blank (field (at + i)) ≡ true)
    → blanks + suc (length ds) < len
    → Written field (at + blanks) (d ∷ ds)
    → number 0 (d ∷ ds) < 2 ^ 64
    → parse_octal len at field ≡ some (number 0 (d ∷ ds))
unfolding parse_octal
parse_octal-Written blanks zero at d ds field before short w small = absurd (omega arith)
parse_octal-Written zero (suc len) at d ds field before short w small =
    let w' : Written field at (d ∷ ds) = subst (λ i. Written field i (d ∷ ds)) (omega arith) w in
    let first : field at ≡ 48 + d = w'.0 in
    if_elim (λ (o : Option ℕ). o ≡ some (number 0 (d ∷ ds))) (is_blank (field at))
      (λ b. absurd (ground (arith, first)))
      (λ _. digits_from-Written (d ∷ ds) (suc len) at 0 field (omega arith) w' small)
parse_octal-Written (suc blanks) (suc len) at d ds field before short w small =
    let rest =
      parse_octal-Written blanks len (at + 1) d ds field
        (λ i lt.
          subst (λ j. is_blank (field j) ≡ true) (omega arith) (before (suc i) (omega arith)))
        (omega arith) (subst (λ i. Written field i (d ∷ ds)) (omega arith) w) small in
    let first : is_blank (field at) ≡ true =
      subst (λ j. is_blank (field j) ≡ true) (omega arith) (before 0 (omega arith)) in
    if_elim (λ (o : Option ℕ). o ≡ some (number 0 (d ∷ ds))) (is_blank (field at)) (λ _. rest)
      (λ no. absurd (cc (no, first)))
