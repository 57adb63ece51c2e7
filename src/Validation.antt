-- ===== src/Validation.antt =====
-- forms/src/validation.ts: the rules of fields and the errors of a form. `N` is the type of numbers.
pub mod Laws
mod Tests
use Prim.Native.Char.{code}
use Prim.Native.String
use vais_lang.Prelude.{
  is_white, ℕ, suc, ◌+◌, String, Option, none, some, List, [], ◌∷◌, Bool, true, false, not, ◌&&◌,
  ◌||◌, is_some, or_else, if◌then◌else◌, leb, nat_beq, str_eq, string_eq, split,
}
use vais_lang.Prelude.JsMap
use vais_lang.Prelude.JsMap.{JsMap}

-- The value of a field: null and undefined, a text, a number, or something else.
pub data Value (N : Type 0) : Type 0 where
  absent other : Value N
  words : String → Value N
  number : N → Value N

pub record ValidationRule (N : Type 0) : Type 0 where
  pub message : String
  pub validate : Value N → Bool

-- `value.trim().length > 0`
abbrev pub has_ink : String → Bool
has_ink String.[] = false
has_ink (String.◌∷◌ c s) = not (is_white (code c)) || has_ink s

abbrev pub has_white : String → Bool
has_white String.[] = false
has_white (String.◌∷◌ c s) = is_white (code c) || has_white s

-- `value.length`, in units of UTF-16
abbrev pub units : String → ℕ
units String.[] = 0
units (String.◌∷◌ c s) = if leb (code c) 65535 then units s + 1 else units s + 2

abbrev pub is_nonempty : String → Bool
is_nonempty String.[] = false
is_nonempty (String.◌∷◌ c s) = true

-- A dot with something after it.
abbrev pub has_dot_inside : String → Bool
has_dot_inside String.[] = false
has_dot_inside (String.◌∷◌ c s) = (nat_beq (code c) b'.' && is_nonempty s) || has_dot_inside s

-- `[^\s@]+\.[^\s@]+`, in a text without white space and "@"
abbrev pub is_domain : String → Bool
is_domain String.[] = false
is_domain (String.◌∷◌ c s) = has_dot_inside s

abbrev pub local_and_domain : List String → Bool
local_and_domain (local ∷ domain ∷ []) = is_nonempty local && is_domain domain
local_and_domain parts = false

-- `/^[^\s@]+@[^\s@]+\.[^\s@]+$/`
unfoldable pub is_email : String → Bool
unfolding split
is_email s = not (has_white s) && local_and_domain (split b'@' s)

module _ {N : Type 0} where
  -- The validation of a rule for texts: any other value fails.
  abbrev pub of_text : (String → Bool) → Value N → Bool
  of_text test absent = false
  of_text test other = false
  of_text test (words s) = test s
  of_text test (number n) = false

  abbrev pub is_given : Value N → Bool
  is_given absent = false
  is_given other = true
  is_given (words s) = has_ink s
  is_given (number n) = true

  unfoldable pub required : String → ValidationRule N
  required message = record { message = message; validate = is_given }

  unfoldable pub min_length : ℕ → String → ValidationRule N
  min_length least message = record {
    message = message;
    validate = of_text (λ s. leb least (units s));
  }

  unfoldable pub max_length : ℕ → String → ValidationRule N
  max_length most message = record {
    message = message;
    validate = of_text (λ s. leb (units s) most);
  }

  unfoldable pub email : String → ValidationRule N
  unfolding is_email
  email message = record { message = message; validate = of_text is_email }

  -- `test` is the test of the regular expression.
  unfoldable pub pattern_rule : (String → Bool) → String → ValidationRule N
  pattern_rule test message = record { message = message; validate = of_text test }

  -- `to_number` is `Number(value)`, where `none` stands for NaN, and `at_most` is `<=`.
  module _ (to_number : Value N → Option N) (at_most : N → N → Bool) where
    unfoldable pub min_rule : N → String → ValidationRule N
    min_rule minimum message = record {
      message = message;
      validate = λ value. elim (to_number value) [ none ↦ false | some n ↦ at_most minimum n ];
    }

    unfoldable pub max_rule : N → String → ValidationRule N
    max_rule maximum message = record {
      message = message;
      validate = λ value. elim (to_number value) [ none ↦ false | some n ↦ at_most n maximum ];
    }

  -- A rule alone stands for the list of it.
  unfoldable pub run_field_validation : List (ValidationRule N) → Value N → Option String
  run_field_validation [] value = none
  run_field_validation (rule ∷ rules) value =
      let rest = run_field_validation rules value in
      if not (rule.validate value) then some rule.message else rest

  -- The loop of `validateSchema` over the fields with rules; a field without rules is `none`.
  unfoldable pub validate_fields :
      JsMap String (Option (List (ValidationRule N)))
      → (String → Value N)
      → JsMap String String
      → JsMap String String
  unfolding run_field_validation JsMap.set
  validate_fields [] values errors = errors
  validate_fields ((key, none) ∷ rule_map) values errors = validate_fields rule_map values errors
  validate_fields ((key, some rules) ∷ rule_map) values errors =
      elim (run_field_validation rules (values key)) [
        | none ↦ validate_fields rule_map values errors
        | some e ↦ validate_fields rule_map values (JsMap.set key e errors)
      ]

  unfoldable pub validate_schema :
      JsMap String (Option (List (ValidationRule N))) → (String → Value N) → JsMap String String
  unfolding validate_fields
  validate_schema rule_map values = validate_fields rule_map values []

  unfoldable pub validate_field :
      JsMap String (Option (List (ValidationRule N))) → String → Value N → Option String
  unfolding run_field_validation JsMap.get
  validate_field rule_map field_name value = elim (JsMap.get field_name rule_map) [
    | none ↦ none
    | some none ↦ none
    | some (some rules) ↦ run_field_validation rules value
  ]

-- The issues of a schema of Zod: the first part of the path, where it has one, and the message. An
-- error that is an empty text is replaced by the next one.
unfoldable pub validate_with_zod_schema :
    List (Option String × String) → JsMap String String → JsMap String String
unfolding JsMap.get JsMap.set
validate_with_zod_schema [] errors = errors
validate_with_zod_schema ((none, message) ∷ issues) errors = validate_with_zod_schema issues errors
validate_with_zod_schema ((some key, message) ∷ issues) errors = validate_with_zod_schema issues (
    if is_nonempty (or_else (JsMap.get key errors) "")
    then errors
    else JsMap.set key message errors)
