-- ===== src/Strings/Texts.antt =====
-- Lengths and comparison of texts in kernel/support/string.c.
use clks.Base.{
  ℕ, zero, suc, ◌+◌, ◌≤◌, ◌<◌, ◌≡◌, ◌≢◌, arith, some, Array, ◌⊎◌, ◌↔◌, inr, ◌∙◌, ap, subst,
  ℕ_discrete, update, update_self, update_ne, sym, false, ◌==◌,
}
use clks.Base.CString.{copy_text}
use clks.Strings.{pos, difference, strlen, strlen_from, strcmp, strcmp_from}

-- The first 0 of `str` is at `n`.
pub record EndsAt (str : Array ℕ) (n : ℕ) : Type 0 where
  pub ends : str n ≡ 0
  pub full : (k : ℕ) → k < n → str k ≢ 0

ended : (src dst : Array ℕ) (n k : ℕ) → EndsAt src n → k ≡ n → update dst n 0 k ≡ src k
ended src dst n k t e = rw e (update_self dst n 0 ∙ sym t.ends)

-- Copying a text that fits.
pub copy_text-inside :
    (rounds i n : ℕ) (src dst : Array ℕ)
    → EndsAt src n
    → i ≤ n
    → n ≤ i + rounds
    → (k : ℕ)
    → (i ≤ k → k ≤ n → copy_text rounds i src dst k ≡ src k)
      × (k < i → copy_text rounds i src dst k ≡ dst k)
unfolding copy_text
copy_text-inside zero i n src dst t l h k =
    let last : i ≡ n = omega arith in
    (
      λ a b. subst (λ j. update dst j 0 k ≡ src k) (sym last) (ended src dst n k t (omega arith)),
      λ a. update_ne dst i k 0 (omega arith),
    )
copy_text-inside (suc rounds) i n src dst t l h k = elim (ℕ_discrete i n) [
  | yes e ↦
      rw (e, t.ends)
        (λ a b. ended src dst n k t (omega arith), λ a. update_ne dst n k 0 (omega arith))
  | no ne ↦
      let (inside, before) =
        copy_text-inside rounds (i + 1) n src (update dst i (src i)) t (omega arith) (omega arith)
          k in
      let more : src i ≢ 0 = t.full i (omega arith) in
      let going : (src i == 0) ≡ false = ground arith in
      rw going (
        λ a b. elim (ℕ_discrete k i) [
          | yes e ↦ before (omega arith) ∙ rw e (update_self dst i (src i))
          | no other ↦ inside (omega arith) b
        ],
        λ a. before (omega arith) ∙ update_ne dst i k (src i) (omega arith),
      )
]

strlen_from_lem :
    (fuel i n : ℕ) (str : Array ℕ)
    → EndsAt str n
    → i ≤ n
    → n < i + fuel
    → strlen_from fuel i str ≡ some n
unfolding strlen_from
strlen_from_lem zero i n str t l h = absurd (omega arith)
strlen_from_lem (suc fuel) i n str t l h = elim (ℕ_discrete i n) [
  | yes e ↦ rw (e, t.ends) (ground arith)
  | no ne ↦
      let more : str i ≢ 0 = t.full i (omega arith) in
      ground (arith, strlen_from_lem fuel (i + 1) n str t (omega arith) (omega arith))
]

-- `clks_strlen` returns the index of the first 0, given more fuel than that.
pub strlen_lem : (fuel n : ℕ) (str : Array ℕ) → EndsAt str n → n < fuel → strlen fuel str ≡ some n
unfolding strlen
strlen_lem fuel n str t h = strlen_from_lem fuel 0 n str t (omega arith) (omega arith)

strcmp_from_lem :
    (fuel i j : ℕ) (left right : Array ℕ)
    → ((k : ℕ) → i ≤ k → k < j → (left k ≡ right k) × (left k ≢ 0))
    → (left j ≢ right j) ⊎ (left j ≡ 0)
    → i ≤ j
    → j < i + fuel
    → strcmp_from fuel i left right ≡ some (difference (left j) (right j))
unfolding strcmp_from
strcmp_from_lem zero i j left right same stop l h = absurd (omega arith)
strcmp_from_lem (suc fuel) i j left right same stop l h = elim (ℕ_discrete i j) [
  | yes e ↦ rw e (ground arith)
  | no ne ↦
      let (eq, more) = same i (omega arith) (omega arith) in
      ground (
        arith,
        strcmp_from_lem fuel (i + 1) j left right (λ k a b. same k (omega arith) b) stop
            (omega arith) (omega arith),
      )
]

-- `clks_strcmp` returns the difference of the two characters at the first index where the texts differ
-- or both end, given more fuel than that.
pub strcmp_lem :
    (fuel j : ℕ) (left right : Array ℕ)
    → ((k : ℕ) → k < j → (left k ≡ right k) × (left k ≢ 0))
    → (left j ≢ right j) ⊎ (left j ≡ 0)
    → j < fuel
    → strcmp fuel left right ≡ some (difference (left j) (right j))
unfolding strcmp
strcmp_lem fuel j left right same stop h =
    strcmp_from_lem fuel 0 j left right (λ k _ b. same k b) stop (omega arith) (omega arith)

difference_zero : (a b : ℕ) → difference a b ≡ pos 0 → a ≡ b
unfolding difference
difference_zero a b e = ground arith

strcmp_from_equal :
    (fuel i n : ℕ) (left right : Array ℕ)
    → EndsAt left n
    → i ≤ n
    → n < i + fuel
    → strcmp_from fuel i left right ≡ some (pos 0)
    → (k : ℕ) → i ≤ k
    → k ≤ n
    → left k ≡ right k
unfolding strcmp_from
strcmp_from_equal zero i n left right t l h e k a b = absurd (omega arith)
strcmp_from_equal (suc fuel) i n left right t l h e k a b = elim (ℕ_discrete i k) [
  | yes here ↦
      subst (λ k. left k ≡ right k) here (ground (arith, difference_zero (left i) (right i)))
  | no ne ↦
      let more : left i ≢ 0 = t.full i (omega arith) in
      strcmp_from_equal fuel (i + 1) n left right t (omega arith) (omega arith)
        (ground (arith, difference_zero (left i) (right i))) k (omega arith) b
]

-- `clks_strcmp` returns 0 exactly if the two texts are equal up to and with the final 0.
pub strcmp_zero_iff :
    (fuel n : ℕ) (left right : Array ℕ)
    → EndsAt left n
    → n < fuel
    → (strcmp fuel left right ≡ some (pos 0)) ↔ ((k : ℕ) → k ≤ n → left k ≡ right k)
unfolding strcmp
strcmp_zero_iff fuel n left right t h = (
  λ e k b. strcmp_from_equal fuel 0 n left right t (omega arith) (omega arith) e k (omega arith) b,
  λ same.
      strcmp_from_lem fuel 0 n left right (λ k _ b. (same k (omega arith), t.full k b)) (inr t.ends)
        (omega arith) (omega arith)
      ∙ ap some (unfold difference in ground (arith, same n (omega arith))),
)
