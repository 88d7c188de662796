-- ===== src/Locale/Tests.antt =====
-- A run of kernel/runtime/locale.c, and its theorem at a concrete text.
use clks.Base.{
  ℕ, zero, suc, ◌+◌, ◌<◌, ◌≡◌, ◌≢◌, refl, true, false, none, some, [], ◌∷◌, ◌⊎◌, Array, arith,
}
use clks.Base.CString.{text}
use clks.Strings.Texts.{EndsAt}
use clks.Locale.{LocaleFile, default_locale, set_locale}
use clks.Locale.Text.{IsLocale, Taken, set_locale_lem}

-- A file that counts its writes.
abbrev counting : LocaleFile
counting = record { Store = ℕ; read_all = λ h. none; write_all = λ bytes size h. (true, h + 1) }

-- The text "de".
abbrev german : Array ℕ
german = text (100 ∷ 101 ∷ [])

german-EndsAt : EndsAt german 2
german-EndsAt = record { ends = refl; full = λ k h. short k h }
  where
    short : (k : ℕ) → k < 2 → german k ≢ 0
    short zero h = omega arith
    short (suc zero) h = omega arith
    short (suc (suc k)) h = absurd (omega arith)

set_locale_lem_example :
    (¬ IsLocale 2 german
      × (set_locale counting 40 (some german) true default_locale 0
          ≡ some (false, default_locale, 0)))
    ⊎ (IsLocale 2 german
        × Taken counting 2 german true 0
            (set_locale counting 40 (some german) true default_locale 0))
set_locale_lem_example =
    set_locale_lem counting 40 2 german default_locale true 0 german-EndsAt (omega arith)
