-- ===== src/Validation/Laws.antt =====
-- The errors of a form are those of its fields.
use vais_lang.Prelude.{
  String, Option, none, some, List, [], ◌∷◌, ◌≡◌, refl, ◌∙◌, arith, Option-cases, inl, inr,
  string_eq, eq_iff,
}
use vais_lang.Prelude.JsMap
use vais_lang.Prelude.JsMap.{JsMap, get-set, HasDistinctKeys}
use vais_lang.Validation.{
  Value, ValidationRule, run_field_validation, validate_fields, validate_schema, validate_field,
}

abbrev or_error : Option String → Option String → Option String
or_error none o = o
or_error (some e) o = some e

or_error-none : (o : Option String) → or_error o none ≡ o
or_error-none none = refl
or_error-none (some e) = refl

module _ {N : Type 0} (values : String → Value N) (k : String) where
  get-validate_fields :
      (rule_map : JsMap String (Option (List (ValidationRule N)))) (errors : JsMap String String)
      → HasDistinctKeys rule_map
      → JsMap.get k (validate_fields rule_map values errors)
        ≡ or_error (validate_field rule_map k (values k)) (JsMap.get k errors)
  unfolding validate_fields validate_field JsMap.get
  get-validate_fields [] errors h = refl
  get-validate_fields ((key, none) ∷ rule_map) errors (p, h) =
      ground (arith, p, eq_iff key k, get-validate_fields rule_map errors h)
  get-validate_fields ((key, some rules) ∷ rule_map) errors (p, h) =
      elim (Option-cases (run_field_validation rules (values key))) [
        | inl e ↦
            rw (validate_fields, e)
              (ground (arith, e, p, eq_iff key k, get-validate_fields rule_map errors h))
        | inr (m, e) ↦
            rw (validate_fields, e)
              (ground (
                arith,
                e,
                p,
                eq_iff key k,
                get-set key k m errors,
                get-validate_fields rule_map (JsMap.set key m errors) h,
              ))
      ]

  -- For rules with one entry for each field: the form has an error at a field just when the check of
  -- that field alone gives one, and it is the same error.
  pub validate_schema-validate_field :
      (rule_map : JsMap String (Option (List (ValidationRule N))))
      → HasDistinctKeys rule_map
      → JsMap.get k (validate_schema rule_map values) ≡ validate_field rule_map k (values k)
  unfolding validate_schema JsMap.get
  validate_schema-validate_field rule_map h =
      get-validate_fields rule_map [] h ∙ or_error-none (validate_field rule_map k (values k))
