-- ===== src/Locale.antt =====
-- kernel/runtime/locale.c and include/clks/locale.h: the name of the locale, its validation and its
-- copy in a file. The file at the locale's path and the Rust routine that trims a text are arguments.
-- `clks_strlen` runs on fuel, and `none` says that it has run out.
mod Text
mod Tests
use clks.Base.{
  ℕ, zero, suc, ◌+◌, ◌-◌, Bool, true, false, ◌&&◌, ◌||◌, not, Option, none, some, [], ◌∷◌, ltb, leb,
  ◌==◌, if◌then◌else◌, Array, update,
}
use clks.Base.CString.{copy_text, text}
use clks.Strings.{strlen}

-- CLKS_LOCALE_MAX
abbrev pub locale_max : ℕ
locale_max = 32

-- CLKS_LOCALE_DEFAULT, "en_US.UTF-8"
abbrev pub default_locale : Array ℕ
default_locale = text (101 ∷ 110 ∷ 95 ∷ 85 ∷ 83 ∷ 46 ∷ 85 ∷ 84 ∷ 70 ∷ 45 ∷ 56 ∷ [])

-- The file at CLKS_LOCALE_CONFIG_PATH: reading it gives its bytes and their number, or null.
pub record LocaleFile : Type 1 where
  pub Store : Type 0
  pub read_all : Store → Option (Array ℕ × ℕ)
  pub write_all : Array ℕ → ℕ → Store → Bool × Store

pub copy : Array ℕ → ℕ → Option (Array ℕ) → Array ℕ
copy dst dst_size none = if dst_size == 0 then dst else update dst 0 0
copy dst dst_size (some src) = if dst_size == 0 then dst else copy_text (dst_size - 1) 0 src dst

-- The test of one character.
pub allowed : ℕ → Bool
allowed ch =
    (leb 97 ch && leb ch 122)
    || (leb 65 ch && leb ch 90)
    || (leb 48 ch && leb ch 57)
    || ch == 95
    || ch == 45
    || ch == 46

-- The loop of `clks_locale_is_valid` with `rounds` characters left from the i-th on.
pub allowed_from : ℕ → ℕ → Array ℕ → Bool
allowed_from zero i locale = true
allowed_from (suc rounds) i locale =
    let rest = allowed_from rounds (i + 1) locale in if allowed (locale i) then rest else false

pub locale_valid : ℕ → Option (Array ℕ) → Option Bool
locale_valid fuel none = some false
locale_valid fuel (some locale) = if locale 0 == 0 then some false else elim (strlen fuel locale) [
  | none ↦ none
  | some len ↦ if leb locale_max len then some false else some (allowed_from len 0 locale)
]

-- The text that is stored in the file: the locale, of `len` characters, and a line end.
pub with_newline : ℕ → Array ℕ → Array ℕ
with_newline len value i = if ltb i len then value i else if i == len then 10 else 0

module _ (file : LocaleFile) where
  open file use {Store, read_all, write_all}

  -- The result, the new value and the file.
  pub set_locale : ℕ → Option (Array ℕ) → Bool → Array ℕ → Store → Option (Bool × Array ℕ × Store)
  set_locale fuel locale persist value h = elim (locale_valid fuel locale) [
    | none ↦ none
    | some false ↦ some (false, value, h)
    | some true ↦
        let value' = copy value locale_max locale in
        if not persist then some (true, value', h) else elim (strlen fuel value') [
          | none ↦ none
          | some len ↦
              let (stored, h') = write_all (with_newline len value') (len + 1) h in
              some (stored, value', h')
        ]
  ]

  -- `trim bytes size out_size` is the text that `clks_rust_trim_copy` writes.
  pub init : ℕ → (Array ℕ → ℕ → ℕ → Array ℕ) → Array ℕ → Store → Option (Array ℕ × Store)
  init fuel trim value h =
      let value₁ = copy value locale_max (some default_locale) in
      let fallback : Option (Array ℕ × Store) =
        elim (set_locale fuel (some default_locale) true value₁ h) [
          | none ↦ none
          | some (_, value₂, h₂) ↦ some (value₂, h₂)
        ] in
      elim (read_all h) [
        | none ↦ fallback
        | some (bytes, size) ↦
            let candidate = trim bytes size locale_max in
            if not (ltb 0 size) then fallback else elim (locale_valid fuel (some candidate)) [
              | none ↦ none
              | some valid ↦
                  some ((if valid then copy value₁ locale_max (some candidate) else value₁), h)
            ]
      ]
