-- ===== src/Form/Tests.antt =====
-- Runs of a form, and its theorems at concrete inputs.
use vais_lang.Prelude.{
  ℕ, String, none, some, [], ◌∷◌, Bool, true, false, ◌≡◌, refl, ◌↔◌, if◌then◌else◌, last?, str_eq,
}
use vais_lang.Prelude.JsMap
use vais_lang.Prelude.JsMap.{JsMap, HasDistinctKeys}
use vais_lang.Validation.{Value, words, validate_field, validate_schema, run_field_validation}
use vais_lang.Form.{
  FormOptions, Form, RuleMap, create_form, on_change, on_blur, begin_submit, submit_with, submitted,
  notify, seen, run_validation,
}
use vais_lang.Form.Agrees.{
  HasDistinctRules, IsAgreed, right_error, here, step, changes, blurs, Reach-IsAgreed,
  begin_submit-waits,
}

abbrev is_text : Value ℕ → Bool
is_text (words s) = if str_eq s "" then false else true
is_text v = false

abbrev rules : RuleMap ℕ
rules = ("name", some (record { message = "missing"; validate = is_text } ∷ [])) ∷ []

abbrev options : FormOptions String ℕ
options = record {
  default_values = ("name", "") ∷ ("age", "") ∷ [];
  validation = some rules;
  has_on_submit = true;
  view = λ s. words s;
  same = λ s t. str_eq s t;
}

rules_distinct : HasDistinctRules options
unfolding JsMap.get
rules_distinct rules' e = let same : rules ≡ rules' = cc in rw (← same) (refl, tt)

abbrev blurred : Form String
blurred = (on_blur options "name" (create_form options)).0

blurred_errors : blurred.errors ≡ ("name", "missing") ∷ []
unfolding on_blur notify seen validate_field run_field_validation JsMap.get JsMap.set
blurred_errors = refl

Reach-IsAgreed_example : IsAgreed options (on_change options "name" (some "ada") blurred).0
Reach-IsAgreed_example =
    Reach-IsAgreed options rules_distinct
      (step (step here (blurs "name")) (changes "name" (some "ada")))

abbrev ada : Form String
ada = record (create_form options) { values = ("name", "ada") ∷ ("age", "") ∷ [] }

begin_submit-waits_example :
    let (g, events, waits) = begin_submit options ada in
    ((waits ≡ true) ↔ ((k : String) → right_error options ada k ≡ none))
    × (g.is_submitting ≡ (if waits then true else false))
    × (last? events ≡ (if waits then some (submitted ada.values) else last? (notify options g).1))
begin_submit-waits_example = begin_submit-waits options ada rules_distinct refl

ada_submitted : (begin_submit options ada).2 ≡ true
unfolding begin_submit submit_with run_validation validate_schema run_field_validation seen
    JsMap.get
ada_submitted = refl
