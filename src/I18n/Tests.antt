-- ===== src/I18n/Tests.antt =====
-- Paths and messages at concrete inputs.
use vais_lang.Prelude.{
  String, some, none, List, [], ◌∷◌, ◌≡◌, refl, if◌then◌else◌, false, lacks→Lacks, nat_beq,
  string_eq, ℕ,
}
use vais_lang.Prelude.JsMap
use vais_lang.Prelude.JsMap.{JsMap}
use vais_lang.I18n.Locales.{switch_locale_in_path, build_locale_redirect}
use vais_lang.I18n.Messages.{
  own, Bundle, text, object, empty, entry, Numbers, Param, words, number, translate, interpolate,
  flatten_bundle, resolve_key, is_plural_messages, MessageRegistry,
}
use vais_lang.I18n.Messages.Flat.{get-flatten_bundle, leaf, IsPlainBundle}
use vais_lang.I18n.Messages.Laws.{words_part, hole, template, filled, interpolate-template}

abbrev locales : List String
locales = "en" ∷ "ko" ∷ []

redirected :
    build_locale_redirect "about/" locales "ko" false
    ≡ some (record { url = "/ko/about"; status_code = 302 })
unfolding build_locale_redirect
redirected = refl

not_redirected : build_locale_redirect "/en" locales "ko" false ≡ none
unfolding build_locale_redirect
not_redirected = refl

switched : switch_locale_in_path "/en/about" locales "ko" ≡ "/ko/about"
unfolding switch_locale_in_path
switched = refl

abbrev numbers : Numbers ℕ
numbers = record {
  show = λ n. if nat_beq n 5 then "5" else "n";
  is_zero = nat_beq 0;
  is_one = nat_beq 1;
}

abbrev params : JsMap String (Param ℕ)
params = ("count", number 5) ∷ ("name", words "Ann") ∷ []

abbrev cats : Bundle
cats = entry "one" (text "a cat") (entry "other" (text "{count} cats") empty)

abbrev bundle : Bundle
bundle =
    entry "hi" (text "hi {name}!") (entry "pets" (object (entry "cats" (object cats) empty)) empty)

abbrev registry : MessageRegistry
registry = ("en", bundle) ∷ []

many_cats : translate numbers params registry none "pets.cats" "en" ≡ "5 cats"
unfolding translate
many_cats = refl

branch : translate numbers params registry none "pets" "en" ≡ "pets"
unfolding translate
branch = refl

-- A message that is the same as its key gives way to that of the fallback locale.
same_as_key :
    translate numbers params
      (("en", entry "OK" (text "OK") empty) ∷ ("ko", entry "OK" (text "네") empty) ∷ [])
      (some "ko")
      "OK"
      "en"
    ≡ "네"
unfolding translate
same_as_key = refl

bundle-IsPlainBundle : IsPlainBundle bundle
unfolding own IsPlainBundle
bundle-IsPlainBundle = (
  lacks→Lacks b'.' "hi" refl,
  refl,
  refl,
  tt,
  (
    lacks→Lacks b'.' "pets" refl,
    refl,
    refl,
    (
      lacks→Lacks b'.' "cats" refl,
      refl,
      refl,
      (
        lacks→Lacks b'.' "one" refl,
        refl,
        refl,
        tt,
        (lacks→Lacks b'.' "other" refl, refl, refl, tt, tt),
      ),
      tt,
    ),
    tt,
  ),
)

get-flatten_bundle_example :
    JsMap.get "pets.cats" (flatten_bundle bundle "") ≡ leaf (resolve_key bundle "pets.cats")
unfolding is_plural_messages
get-flatten_bundle_example = get-flatten_bundle bundle "pets.cats" bundle-IsPlainBundle refl

interpolate-template_example :
    interpolate numbers params (template (words_part "hi } " ∷ hole "name" ∷ hole "none" ∷ []))
    ≡ filled numbers params (words_part "hi } " ∷ hole "name" ∷ hole "none" ∷ [])
interpolate-template_example =
    interpolate-template numbers params (words_part "hi } " ∷ hole "name" ∷ hole "none" ∷ [])
      (lacks→Lacks b'{' "hi } " refl, ((refl, refl), ((refl, refl), tt)))
