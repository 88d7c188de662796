-- ===== src/Locale/Text.antt =====
-- The locale of kernel/runtime/locale.c is always a well formed text.
use clks.Base.{
  ℕ, zero, suc, ◌+◌, ◌-◌, ◌≤◌, ◌<◌, ◌≡◌, ◌≢◌, arith, Bool, true, false, some, Array, ◌⊎◌, inl, inr,
  ◌∙◌, sym, subst, dec_lt, ℕ_discrete, Bool-cases, ◌⊎◌, if_elim, refl, Option, if◌then◌else◌,
}
use clks.Strings.{strlen}
use clks.Strings.Texts.{EndsAt, strlen_lem, copy_text-inside}
use clks.Locale.{
  locale_max, LocaleFile, copy, allowed, allowed_from, locale_valid, with_newline, set_locale,
}

-- The copy of a text that fits is the text.
copy_lem :
    (value src : Array ℕ) (n : ℕ)
    → EndsAt src n
    → n < locale_max
    → EndsAt (copy value locale_max (some src)) n
      × ((k : ℕ) → k ≤ n → copy value locale_max (some src) k ≡ src k)
unfolding copy
copy_lem value src n t h = (
  record {
    ends = same n (omega arith) ∙ t.ends;
    full = λ k lt z. t.full k lt (sym (same k (omega arith)) ∙ z);
  },
  same,
)
  where
    same : (k : ℕ) → k ≤ n → copy value locale_max (some src) k ≡ src k
    same k b =
        (copy_text-inside (locale_max - 1) 0 n src value t (omega arith) (omega arith) k).0
          (omega arith) b

-- The characters of a locale: letters, digits, `_`, `-` and `.`
abbrev pub InLocale : ℕ → Type 0
InLocale c =
    ((97 ≤ c) × (c ≤ 122))
    ⊎ ((65 ≤ c) × (c ≤ 90))
    ⊎ ((48 ≤ c) × (c ≤ 57))
    ⊎ (c ≡ 95)
    ⊎ (c ≡ 45)
    ⊎ (c ≡ 46)

allowed-InLocale : (c : ℕ) → allowed c ≡ true → InLocale c
unfolding allowed
allowed-InLocale c e = ground arith

InLocale-allowed : (c : ℕ) → InLocale c → allowed c ≡ true
unfolding allowed
InLocale-allowed c h = ground arith

allowed_from_lem :
    (rounds i : ℕ) (locale : Array ℕ)
    → (allowed_from rounds i locale ≡ true → (k : ℕ) → i ≤ k → k < i + rounds → InLocale (locale k))
      × (((k : ℕ) → i ≤ k → k < i + rounds → InLocale (locale k))
          → allowed_from rounds i locale ≡ true)
unfolding allowed_from
allowed_from_lem zero i locale = (λ ok k a b. absurd (omega arith), λ h. refl)
allowed_from_lem (suc rounds) i locale =
    let (sound, complete) = allowed_from_lem rounds (i + 1) locale in
    if_elim
      (λ b.
        (b ≡ true → (k : ℕ) → i ≤ k → k < i + suc rounds → InLocale (locale k))
        × (((k : ℕ) → i ≤ k → k < i + suc rounds → InLocale (locale k)) → b ≡ true))
      (allowed (locale i))
      (λ good. (
        λ ok k a b. elim (ℕ_discrete i k) [
          | yes here ↦ subst (λ k. InLocale (locale k)) here (allowed-InLocale (locale i) good)
          | no ne ↦ sound ok k (omega arith) (omega arith)
        ],
        λ h. complete (λ k a b. h k (omega arith) (omega arith)),
      ))
      (λ bad. (
        λ ok. absurd (cc ok),
        λ h. absurd (cc (bad, InLocale-allowed (locale i) (h i (omega arith) (omega arith)))),
      ))

-- A text of `n` characters that is a locale: 1 to 31 characters, all of them allowed.
pub record IsLocale (n : ℕ) (value : Array ℕ) : Type 0 where
  pub bounds : (0 < n) × (n < 32)
  pub each : (k : ℕ) → k < n → InLocale (value k)

-- Validation ends, given more fuel than the text is long, and says yes exactly to locales.
locale_valid_lem :
    (fuel n : ℕ) (locale : Array ℕ)
    → EndsAt locale n
    → n < fuel
    → ((locale_valid fuel (some locale) ≡ some false) × ¬ IsLocale n locale)
      ⊎ ((locale_valid fuel (some locale) ≡ some true) × IsLocale n locale)
unfolding locale_valid
locale_valid_lem fuel n locale t h = elim (ℕ_discrete (locale 0) 0) [
  | yes empty ↦ inl (ground arith, λ l. t.full 0 l.bounds.0 empty)
  | no some_char ↦
      let e : strlen fuel locale ≡ some n = strlen_lem fuel n locale t h in
      let non_empty : n ≢ 0 = λ z. some_char (subst (λ k. locale k ≡ 0) z t.ends) in
      let (sound, complete) = allowed_from_lem n 0 locale in
      elim (dec_lt n locale_max) [
        | no long ↦ inl (ground (arith, e), λ l. long l.bounds.1)
        | yes short ↦ elim (Bool-cases (allowed_from n 0 locale)) [
          | inr bad ↦ inl (
            ground (arith, e, bad),
            λ l. absurd (cc (bad, complete (λ k _ lt. l.each k (omega arith)))),
          )
          | inl good ↦ inr (
            ground (arith, e, good),
            record {
              bounds = omega arith;
              each = λ k lt. sound good k (omega arith) (omega arith);
            },
          )
        ]
      ]
]

with_newline_text : (n k : ℕ) (value : Array ℕ) → k < n → with_newline n value k ≡ value k
unfolding with_newline
with_newline_text n k value lt = ground arith

with_newline_end : (n : ℕ) (value : Array ℕ) → with_newline n value n ≡ 10
unfolding with_newline
with_newline_end n value = ground arith

module _ (file : LocaleFile) where
  open file use {Store, write_all}

  -- What setting a locale gives: the value is the text up to its final 0. If it is to be kept, the file is
  -- written with the text and a line end, and the result is what the file system answers.
  pub record Taken (n : ℕ) (locale : Array ℕ) (persist : Bool) (h : Store)
      (r : Option (Bool × Array ℕ × Store)) : Type 0 where
    pub value : Array ℕ
    pub stored : Array ℕ
    pub same : (k : ℕ) → k ≤ n → value k ≡ locale k
    pub bytes : ((k : ℕ) → k < n → stored k ≡ locale k) × (stored n ≡ 10)
    pub result :
        r
        ≡ some (
            if persist
            then ((write_all stored (n + 1) h).0, value, (write_all stored (n + 1) h).1)
            else (true, value, h))

  -- Setting a text of `n` characters ends, given more fuel than it is long. If the text is not a locale, that
  -- is, 1 to 31 letters, digits and `_`, `-` or `.`, it is refused and nothing changes. If it is one, the
  -- value becomes the text; and if it is to be kept the file is written with the text and a line end, and
  -- the result is what the file system answers, otherwise the result is success and no file is written.
  pub set_locale_lem :
      (fuel n : ℕ) (locale value : Array ℕ) (persist : Bool) (h : Store)
      → EndsAt locale n
      → n < fuel
      → (¬ IsLocale n locale
          × (set_locale file fuel (some locale) persist value h ≡ some (false, value, h)))
        ⊎ (IsLocale n locale
            × Taken n locale persist h (set_locale file fuel (some locale) persist value h))
  unfolding set_locale
  set_locale_lem fuel n locale value persist h t lt = elim (locale_valid_lem fuel n locale t lt) [
    | inl (bad, not_one) ↦ inl (not_one, ground (arith, bad))
    | inr (good, l) ↦
        let value' = copy value locale_max (some locale) in
        let (t', same) = copy_lem value locale n t l.bounds.1 in
        let e : strlen fuel value' ≡ some n = strlen_lem fuel n value' t' lt in
        inr (
          l,
          record {
            value = value';
            stored = with_newline n value';
            same = same;
            bytes = (
              λ k less. with_newline_text n k value' less ∙ same k (omega arith),
              with_newline_end n value',
            );
            result = elim (Bool-cases persist) [
              | inr forget ↦ ground (arith, good)
              | inl keep ↦ ground (arith, good, e)
            ];
          },
        )
  ]
