-- ===== src/Validation/Tests.antt =====
-- Rules at concrete inputs.
use vais_lang.Prelude.{
  ℕ, String, Option, some, none, List, [], ◌∷◌, ◌≡◌, refl, true, false, str_eq, string_eq,
  if◌then◌else◌,
}
use vais_lang.Prelude.JsMap
use vais_lang.Prelude.JsMap.{JsMap}
use vais_lang.Validation.{
  Value, ValidationRule, words, absent, is_email, required, min_length, email, validate_schema,
  validate_field, validate_with_zod_schema,
}
use vais_lang.Validation.Laws.{validate_schema-validate_field}

addresses :
    (is_email "a.b@c.de" ≡ true)
    × (is_email "a@b" ≡ false)
    × (is_email "a@.d" ≡ false)
    × (is_email "a@b@c.d" ≡ false)
unfolding is_email
addresses = (refl, refl, refl, refl)

abbrev rules : JsMap String (Option (List (ValidationRule ℕ)))
rules =
    ("name", some (required "needed" ∷ min_length 3 "short" ∷ []))
    ∷ ("age", none)
    ∷ ("mail", some (email "no address" ∷ []))
    ∷ []

abbrev values : String → Value ℕ
values k = if str_eq k "name" then words "Al" else absent

errors : validate_schema rules values ≡ ("name", "short") ∷ ("mail", "no address") ∷ []
unfolding validate_schema required min_length email
errors = refl

first_issue :
    validate_with_zod_schema ((some "a", "one") ∷ (none, "two") ∷ (some "a", "three") ∷ []) []
    ≡ ("a", "one") ∷ []
unfolding validate_with_zod_schema
first_issue = refl

validate_schema-validate_field_example :
    JsMap.get "name" (validate_schema rules values) ≡ validate_field rules "name" (words "Al")
unfolding JsMap.get
validate_schema-validate_field_example =
    validate_schema-validate_field values "name" rules (refl, (refl, (refl, tt)))
