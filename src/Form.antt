-- ===== src/Form.antt =====
-- forms/src/form.ts: createForm, for a schema of rules. Values are of a type `V`, which the rules see by
-- `view`; subscribers are numbers. A submission is two steps, around the await of onSubmit.
pub mod Agrees
mod Tests
use vais_lang.Prelude.{
  ℕ, String, Option, none, some, List, [], ◌∷◌, ◌++◌, Bool, true, false, not, ◌||◌, if◌then◌else◌,
  or_else, string_eq, nat_eq,
}
use vais_lang.Prelude.JsMap
use vais_lang.Prelude.JsMap.{JsMap}
use vais_lang.Prelude.JsSet
use vais_lang.Validation.{Value, ValidationRule, absent, validate_schema, validate_field}

abbrev pub RuleMap : Type 0 → Type 0
RuleMap N = JsMap String (Option (List (ValidationRule N)))

-- `same` is `===`. `has_on_submit` is whether the option is given.
pub record FormOptions (V N : Type 0) : Type 0 where
  pub default_values : JsMap String V
  pub validation : Option (RuleMap N)
  pub has_on_submit : Bool
  pub view : V → Value N
  pub same : V → V → Bool

pub record Form (V : Type 0) : Type 0 where
  pub values : JsMap String V
  pub errors : JsMap String String
  pub touched : JsMap String Bool
  pub is_submitting : Bool
  pub subscribers : List ℕ

pub record FormState (V : Type 0) : Type 0 where
  pub values : JsMap String V
  pub errors : JsMap String String
  pub touched : JsMap String Bool
  pub is_submitting : Bool
  pub is_valid : Bool
  pub is_dirty : Bool

-- A subscriber that is run, or the call of onSubmit.
pub data Event (V : Type 0) : Type 0 where
  notified : ℕ → FormState V → Event V
  submitted : JsMap String V → Event V

module _ {V N : Type 0} (options : FormOptions V N) where
  abbrev pub create_form : Form V
  create_form = record {
    values = options.default_values;
    errors = [];
    touched = [];
    is_submitting = false;
    subscribers = [];
  }

  -- Whether `values[k] !== defaultValues[k]`, where a missing value is undefined.
  abbrev pub differs : Option V → V → Bool
  differs none default = true
  differs (some v) default = not (options.same v default)

  unfoldable pub is_dirty : JsMap String V → JsMap String V → Bool
  unfolding JsMap.get
  is_dirty values [] = false
  is_dirty values ((k, default) ∷ defaults) =
      differs (JsMap.get k values) default || is_dirty values defaults

  unfoldable pub snapshot : Form V → FormState V
  unfolding is_dirty
  snapshot f = record {
    values = f.values;
    errors = f.errors;
    touched = f.touched;
    is_submitting = f.is_submitting;
    is_valid = elim f.errors [ [] ↦ true | e ∷ es ↦ false ];
    is_dirty = is_dirty f.values options.default_values;
  }

  -- The loop over the subscribers, which are taken not to throw and not to subscribe or unsubscribe
  -- while it runs.
  abbrev pub notify_each : List ℕ → FormState V → List (Event V)
  notify_each [] state = []
  notify_each (s ∷ ss) state = notified s state ∷ notify_each ss state

  unfoldable pub notify : Form V → Form V × List (Event V)
  unfolding snapshot
  notify f = (f, notify_each f.subscribers (snapshot f))

  -- `values[k]`, as the rules see it
  unfoldable pub seen : JsMap String V → String → Value N
  unfolding JsMap.get
  seen values k = elim (JsMap.get k values) [ none ↦ absent | some v ↦ options.view v ]

  unfoldable pub run_validation : Form V → JsMap String String
  unfolding validate_schema seen
  run_validation f = elim options.validation [
    | none ↦ []
    | some rules ↦ validate_schema rules (seen f.values)
  ]

  -- The error of one field; none where there is no validation.
  abbrev pub field_error : String → Value N → Option String
  field_error name value = elim options.validation [
    | none ↦ none
    | some rules ↦ validate_field rules name value
  ]

  abbrev pub put_error : String → Option String → JsMap String String → JsMap String String
  put_error name none errors = JsMap.delete name errors
  put_error name (some message) errors = JsMap.set name message errors

  unfoldable pub set_value : String → V → Form V → Form V × List (Event V)
  unfolding notify JsMap.get JsMap.set JsMap.delete
  set_value name value f =
      let changed = record f { values = JsMap.set name value f.values } in
      let checked = record changed {
        errors = put_error name (field_error name (options.view value)) f.errors;
      } in
      notify (if or_else (JsMap.get name f.touched) false then checked else changed)

  -- `none` is an event without a target; else the value that is read from it.
  unfoldable pub on_change : String → Option V → Form V → Form V × List (Event V)
  unfolding set_value
  on_change name none f = (f, [])
  on_change name (some value) f = set_value name value f

  unfoldable pub on_blur : String → Form V → Form V × List (Event V)
  unfolding notify seen JsMap.set JsMap.delete
  on_blur name f = notify (record f {
    touched = JsMap.set name true f.touched;
    errors = put_error name (field_error name (seen f.values name)) f.errors;
  })

  unfoldable pub all_touched : JsMap String V → JsMap String Bool → JsMap String Bool
  unfolding JsMap.set
  all_touched [] touched = touched
  all_touched ((k, v) ∷ defaults) touched = all_touched defaults (JsMap.set k true touched)

  -- What handleSubmit does with the errors that it finds, up to the await of onSubmit, if that is given.
  unfoldable pub submit_with : JsMap String String → Bool → Form V → Form V × List (Event V) × Bool
  unfolding notify all_touched
  submit_with [] true f =
      let checked = record f { errors = []; touched = all_touched options.default_values [] } in
      let busy = record checked { is_submitting = true } in
      (busy, (notify checked).1 ++ ((notify busy).1 ++ submitted f.values ∷ []), true)
  submit_with [] false f =
      let checked = record f { errors = []; touched = all_touched options.default_values [] } in
      (checked, (notify checked).1, false)
  submit_with (e ∷ errors) given f =
      let checked = record f {
        errors = e ∷ errors;
        touched = all_touched options.default_values [];
      } in
      (checked, (notify checked).1, false)

  -- handleSubmit up to the await of onSubmit; the flag tells that it is waited for.
  unfoldable pub begin_submit : Form V → Form V × List (Event V) × Bool
  unfolding run_validation submit_with
  begin_submit f = submit_with (run_validation f) options.has_on_submit f

  -- The rest, also if onSubmit throws
  unfoldable pub end_submit : Form V → Form V × List (Event V)
  unfolding notify
  end_submit f = notify (record f { is_submitting = false })

  unfoldable pub reset : Form V → Form V × List (Event V)
  unfolding notify
  reset f = notify (record f {
    values = options.default_values;
    errors = [];
    touched = [];
    is_submitting = false;
  })

  unfoldable pub set_error : String → String → Form V → Form V × List (Event V)
  unfolding notify JsMap.set
  set_error name message f = notify (record f { errors = JsMap.set name message f.errors })

  unfoldable pub clear_errors : Form V → Form V × List (Event V)
  unfolding notify
  clear_errors f = notify (record f { errors = [] })

module _ {V : Type 0} where
  unfoldable pub subscribe : ℕ → Form V → Form V
  unfolding JsSet.add
  subscribe callback f = record f { subscribers = JsSet.add callback f.subscribers }

  unfoldable pub unsubscribe : ℕ → Form V → Form V
  unfolding JsSet.delete
  unsubscribe callback f = record f { subscribers = JsSet.delete callback f.subscribers }
