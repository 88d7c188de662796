-- ===== src/Base/Arrays.antt =====
-- A C array as a function of its index. A write changes one index; that every index lies within
-- the array is proved where the array is used.
use Prim.Native.Nat.{ℕ, zero, suc, ◌+◌, ◌≤◌, ◌<◌}
use mathlib.Core.Path.{◌≡◌, refl, ◌∙◌, ap, subst}
use mathlib.Core.Logic.{◌≢◌, inl, inr}
use mathlib.Core.Bool.{Bool, true, false}
use mathlib.Core.Option.{Option, none, some}
use native.Mathlib.Decide.{ℕ_discrete}
use native.Mathlib.Omega.{arith}
use clks.Base.Tests.{◌==◌, if◌then◌else◌, Bool-cases, Option-cases}

abbrev pub Array {ℓ} : Type ℓ → Type ℓ
Array A = ℕ → A

module _ {ℓ} {A : Type ℓ} where
  abbrev pub update : Array A → ℕ → A → Array A
  update f i a j = if j == i then a else f j

  pub update_self : (f : Array A) (i : ℕ) (a : A) → update f i a i ≡ a
  update_self f i a = ground arith

  pub update_ne : (f : Array A) (i j : ℕ) (a : A) → j ≢ i → update f i a j ≡ f j
  update_ne f i j a h = ground arith

-- `for (i = ...; rounds left; i++) if (p(i)) return i;`
unfoldable pub find_index : (ℕ → Bool) → ℕ → ℕ → Option ℕ
find_index p zero i = none
find_index p (suc rounds) i = let rest = find_index p rounds (i + 1) in if p i then some i else rest

-- What is found is the first index that passes.
pub find_index-some :
    (p : ℕ → Bool) (n i j : ℕ)
    → find_index p n i ≡ some j
    → (p j ≡ true) × (i ≤ j) × (j < i + n) × ((k : ℕ) → i ≤ k → k < j → p k ≡ false)
unfolding find_index
find_index-some p zero i j e = cc
find_index-some p (suc n) i j e = elim (Bool-cases (p i)) [
  | inl hit ↦
      let here : i ≡ j = ground arith in
      (subst (λ k. p k ≡ true) here hit, omega arith, omega arith, λ k l h. absurd (omega arith))
  | inr miss ↦
      let (a, b, c, d) = find_index-some p n (i + 1) j (ground arith) in
      (
        a,
        omega arith,
        omega arith,
        λ k l h. elim (ℕ_discrete i k) [
          | yes same ↦ subst (λ k. p k ≡ false) same miss
          | no ne ↦ d k (omega arith) h
        ],
      )
]

-- Nothing is found only if no index passes.
pub find_index-none :
    (p : ℕ → Bool) (n i : ℕ) → find_index p n i ≡ none → (k : ℕ) → i ≤ k → k < i + n → p k ≡ false
unfolding find_index
find_index-none p zero i e k l h = absurd (omega arith)
find_index-none p (suc n) i e k l h = elim (Bool-cases (p i)) [
  | inl hit ↦ ground arith
  | inr miss ↦ elim (ℕ_discrete i k) [
    | yes same ↦ subst (λ k. p k ≡ false) same miss
    | no ne ↦ find_index-none p n (i + 1) (ground arith) k (omega arith) (omega arith)
  ]
]

-- The one index that passes is found.
pub find_index_unique :
    (p : ℕ → Bool) (n i j : ℕ)
    → p j ≡ true
    → i ≤ j
    → j < i + n
    → ((k : ℕ) → i ≤ k → k < i + n → p k ≡ true → k ≡ j)
    → find_index p n i ≡ some j
find_index_unique p n i j hit l h one = elim (Option-cases (find_index p n i)) [
  | inl e ↦ cc (find_index-none p n i e j l h)
  | inr (k, e) ↦ let (a, b, c, _) = find_index-some p n i k e in e ∙ ap some (one k b c a)
]

-- The first index that passes is found.
pub find_index-first :
    (p : ℕ → Bool) (n i j : ℕ)
    → p j ≡ true
    → i ≤ j
    → j < i + n
    → ((k : ℕ) → i ≤ k → k < j → p k ≡ false)
    → find_index p n i ≡ some j
unfolding find_index
find_index-first p zero i j hit l h first = absurd (omega arith)
find_index-first p (suc n) i j hit l h first = elim (ℕ_discrete i j) [
  | yes same ↦ rw (ap p same ∙ hit) (ap some same)
  | no ne ↦ rw (first i (omega arith) (omega arith)) (
      find_index-first p n (i + 1) j hit (omega arith) (omega arith)
        (λ k a b. first k (omega arith) b))
]

-- If no index passes nothing is found.
pub find_index_absent :
    (p : ℕ → Bool) (n i : ℕ) → ((k : ℕ) → i ≤ k → k < i + n → p k ≡ false) → find_index p n i ≡ none
unfolding find_index
find_index_absent p zero i out = refl
find_index_absent p (suc n) i out =
    rw (out i (omega arith) (omega arith))
      (find_index_absent p n (i + 1) (λ k a b. out k (omega arith) (omega arith)))
