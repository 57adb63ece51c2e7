-- ===== src/I18n/Locales.antt =====
-- i18n/src/router.ts: the locale as the first segment of a path.
pub mod Laws
use Prim.Native.Char.{code}
use Prim.Native.String
use vais_lang.Prelude.{
  ◌&◌, ℕ, String, Option, none, some, List, [], ◌∷◌, map, Bool, true, false, ◌||◌, is_some,
  if◌then◌else◌, nat_beq, str_eq,
}

pub record Prefixed : Type 0 where
  pub locale : String
  pub original_path : String

pub record LocaleRoute : Type 0 where
  pub path : String
  pub locale : String
  pub original_path : String

pub record RedirectInfo : Type 0 where
  pub url : String
  pub status_code : ℕ

abbrev pub slash : String → String
slash s = String.◌∷◌ "/" s

-- The text without its first slash, where it begins with one.
abbrev pub after_slash : String → String
after_slash String.[] = ""
after_slash (String.◌∷◌ c s) = if nat_beq (code c) b'/' then s else String.◌∷◌ c s

-- The text without its last slash, where it ends with one.
abbrev pub trim_slash : String → String
trim_slash String.[] = ""
trim_slash (String.◌∷◌ c String.[]) = if nat_beq (code c) b'/' then "" else String.◌∷◌ c String.[]
trim_slash (String.◌∷◌ c (String.◌∷◌ d s)) = String.◌∷◌ c (trim_slash (String.◌∷◌ d s))

-- The slash in front stays, also where it is the only one.
unfoldable pub normalise_path : String → String
normalise_path path = slash (trim_slash (after_slash path))

-- The rest of a text that begins with another one.
abbrev pub strip_prefix : String → String → Option String
strip_prefix String.[] s = some s
strip_prefix (String.◌∷◌ c p) String.[] = none
strip_prefix (String.◌∷◌ c p) (String.◌∷◌ d s) =
    let rest = strip_prefix p s in if nat_beq (code c) (code d) then rest else none

unfoldable pub has_locale_prefix : String → String → Bool
unfolding normalise_path
has_locale_prefix path locale =
    let norm = normalise_path path in
    str_eq norm (slash locale) || is_some (strip_prefix (slash (locale & "/")) norm)

unfoldable pub add_locale_prefix : String → String → String
unfolding normalise_path
add_locale_prefix path locale =
    let norm = normalise_path path in
    if str_eq norm "/" then slash locale else slash (locale & norm)

-- The loop over the locales.
abbrev pub find_locale : String → List String → Option Prefixed
find_locale norm [] = none
find_locale norm (locale ∷ locales) =
    let rest = find_locale norm locales in
    if str_eq norm (slash locale)
    then some (record { locale = locale; original_path = "/" })
    else elim (strip_prefix (slash (locale & "/")) norm) [
      | none ↦ rest
      | some path ↦ some (record { locale = locale; original_path = slash path })
    ]

unfoldable pub remove_locale_prefix : String → List String → Option Prefixed
unfolding normalise_path
remove_locale_prefix path locales = find_locale (normalise_path path) locales

unfoldable pub generate_locale_routes : String → List String → List LocaleRoute
unfolding add_locale_prefix
generate_locale_routes original_path locales =
    let norm = normalise_path original_path in
    map
      (λ locale. record {
        path = add_locale_prefix norm locale;
        locale = locale;
        original_path = norm;
      })
      locales

unfoldable pub detect_locale_from_path : String → List String → String → String
unfolding remove_locale_prefix
detect_locale_from_path path locales default_locale = elim (remove_locale_prefix path locales) [
  | none ↦ default_locale
  | some found ↦ found.locale
]

unfoldable pub build_locale_redirect : String → List String → String → Bool → Option RedirectInfo
unfolding remove_locale_prefix add_locale_prefix
build_locale_redirect path locales target_locale permanent =
    let norm = normalise_path path in
    elim (remove_locale_prefix norm locales) [
      | some existing ↦ none
      | none ↦ some (record {
        url = add_locale_prefix norm target_locale;
        status_code = if permanent then 301 else 302;
      })
    ]

unfoldable pub switch_locale_in_path : String → List String → String → String
unfolding remove_locale_prefix add_locale_prefix
switch_locale_in_path path locales new_locale =
    let norm = normalise_path path in
    let original_path : String = elim (remove_locale_prefix norm locales) [
      | none ↦ norm
      | some existing ↦ existing.original_path
    ] in
    add_locale_prefix original_path new_locale
