-- ===== src/Form/Agrees.antt =====
-- The errors that a form shows, and when it is submitted.
use vais_lang.Prelude.{
  subst, arith, [], ◌∷◌, last?, last?-append, ◌++◌, ◌↔◌, append_assoc, String, Option, none, some,
  true, false, ◌≡◌, refl, sym, ap, ◌∙◌, if◌then◌else◌, or_else, string_eq, ◌==◌, eq_iff, Bool-cases,
  inl, inr, Option-cases,
}
use vais_lang.Prelude.JsMap
use vais_lang.Prelude.JsMap.{JsMap, get-set, get-delete, HasDistinctKeys}
use vais_lang.Validation.Laws.{validate_schema-validate_field}
use vais_lang.Form.{
  all_touched, Bool, submit_with, unsubscribe, subscribe, ℕ, reset, end_submit, on_change,
  begin_submit, [], create_form, submitted, FormOptions, RuleMap, Form, notify, seen,
  run_validation, field_error, put_error, set_value, on_blur,
}

-- Each field with rules has one entry of them.
abbrev pub HasDistinctRules : {V N : Type 0} → FormOptions V N → Type 0
HasDistinctRules {N} options =
    (rules : RuleMap N) → options.validation ≡ some rules → HasDistinctKeys rules

module _ {V N : Type 0} (options : FormOptions V N) where
  -- The error of a field by the rules and the value that it has.
  abbrev pub right_error : Form V → String → Option String
  right_error f k = field_error options k (seen options f.values k)

  abbrev pub IsAgreed : Form V → Type 0
  IsAgreed f =
      (k : String) → JsMap.get k f.touched ≡ some true → JsMap.get k f.errors ≡ right_error f k

  get-put_error :
      (name k : String) (e : Option String) (errors : JsMap String String)
      → JsMap.get k (put_error options name e errors)
        ≡ (if name == k then e else JsMap.get k errors)
  get-put_error name k none errors = get-delete name k errors
  get-put_error name k (some m) errors = get-set name k m errors

  seen-set :
      (name k : String) (v : V) (values : JsMap String V)
      → seen options (JsMap.set name v values) k
        ≡ (if name == k then options.view v else seen options values k)
  unfolding seen
  seen-set name k v values =
      rw (seen, get-set name k v values)
        (elim (Bool-cases (name == k)) [ inl same ↦ rw same refl | inr other ↦ rw other refl ])

  checked-IsAgreed :
      (name : String) (v : V) (f : Form V)
      → IsAgreed f
      → IsAgreed (record f {
        values = JsMap.set name v f.values;
        errors = put_error options name (field_error options name (options.view v)) f.errors;
      })
  checked-IsAgreed name v f h k t =
      rw
        (
          get-put_error name k (field_error options name (options.view v)) f.errors,
          seen-set name k v f.values,
        )
        (elim (Bool-cases (name == k)) [
          | inl same ↦
              rw same (ap (λ n. field_error options n (options.view v)) ((eq_iff name k).0 same))
          | inr other ↦ rw other (h k t)
        ])

  changed-IsAgreed :
      (name : String) (v : V) (f : Form V)
      → or_else (JsMap.get name f.touched) false ≡ false
      → IsAgreed f
      → IsAgreed (record f { values = JsMap.set name v f.values })
  changed-IsAgreed name v f untouched h k t =
      rw (seen-set name k v f.values) (elim (Bool-cases (name == k)) [
        | inl same ↦
            let there : JsMap.get name f.touched ≡ some true =
              ap (λ n. JsMap.get n f.touched) ((eq_iff name k).0 same) ∙ t in
            let touched : or_else (JsMap.get name f.touched) false ≡ true = rw there refl in cc
        | inr other ↦ rw other (h k t)
      ])

  set_value-IsAgreed :
      (name : String) (v : V) (f : Form V) → IsAgreed f → IsAgreed (set_value options name v f).0
  unfolding set_value notify
  set_value-IsAgreed name v f h = elim (Bool-cases (or_else (JsMap.get name f.touched) false)) [
    | inl touched ↦ rw touched (checked-IsAgreed name v f h)
    | inr untouched ↦ rw untouched (changed-IsAgreed name v f untouched h)
  ]

  on_blur-IsAgreed : (name : String) (f : Form V) → IsAgreed f → IsAgreed (on_blur options name f).0
  unfolding on_blur notify
  on_blur-IsAgreed name f h k t =
      rw (get-put_error name k (field_error options name (seen options f.values name)) f.errors)
        (elim (Bool-cases (name == k)) [
          | inl same ↦ rw (same, (eq_iff name k).0 same) refl
          | inr other ↦ rw other (h k (sym (get-set name k true f.touched ∙ rw other refl) ∙ t))
        ])

  get-run_validation :
      (f : Form V) (k : String)
      → HasDistinctRules options
      → JsMap.get k (run_validation options f) ≡ right_error f k
  unfolding run_validation JsMap.get
  get-run_validation f k d = elim (Option-cases options.validation) [
    | inl e ↦ rw (run_validation, e) refl
    | inr (rules, e) ↦
        rw (run_validation, e)
          (validate_schema-validate_field (seen options f.values) k rules (d rules e))
  ]

  -- What a user and the code around a form do, but for setting and clearing errors by hand.
  pub data Step (f : Form V) : Form V → Type 0 where
    changes : (name : String) (value : Option V) → Step f (on_change options name value f).0
    blurs : (name : String) → Step f (on_blur options name f).0
    submits : Step f (begin_submit options f).0
    ends : Step f (end_submit options f).0
    sets : (name : String) (v : V) → Step f (set_value options name v f).0
    resets : Step f (reset options f).0
    subscribes : (callback : ℕ) → Step f (subscribe callback f)
    unsubscribes : (callback : ℕ) → Step f (unsubscribe callback f)

  pub data Reach (s : Form V) : Form V → Type 0 where
    here : Reach s s
    step : {f g : Form V} → Reach s f → Step f g → Reach s g

  submit_with-IsAgreed :
      (errors : JsMap String String) (given : Bool) (f : Form V)
      → ((k : String) → JsMap.get k errors ≡ right_error f k)
      → IsAgreed (submit_with options errors given f).0
  unfolding submit_with notify
  submit_with-IsAgreed [] true f h k t = h k
  submit_with-IsAgreed [] false f h k t = h k
  submit_with-IsAgreed (e ∷ errors) given f h k t = h k

  begin_submit-IsAgreed :
      (f : Form V) → HasDistinctRules options → IsAgreed (begin_submit options f).0
  unfolding begin_submit
  begin_submit-IsAgreed f d =
      submit_with-IsAgreed (run_validation options f) options.has_on_submit f
        (λ k. get-run_validation f k d)

  Step-IsAgreed : {f g : Form V} → HasDistinctRules options → Step f g → IsAgreed f → IsAgreed g
  unfolding on_change end_submit notify reset subscribe unsubscribe JsMap.get
  Step-IsAgreed d (changes name none) h = h
  Step-IsAgreed {f} d (changes name (some v)) h = set_value-IsAgreed name v f h
  Step-IsAgreed {f} d (blurs name) h = on_blur-IsAgreed name f h
  Step-IsAgreed {f} d submits h = begin_submit-IsAgreed f d
  Step-IsAgreed d ends h = h
  Step-IsAgreed {f} d (sets name v) h = set_value-IsAgreed name v f h
  Step-IsAgreed d resets h = λ k t. cc
  Step-IsAgreed d (subscribes callback) h = h
  Step-IsAgreed d (unsubscribes callback) h = h

  create_form-IsAgreed : IsAgreed (create_form options)
  unfolding JsMap.get
  create_form-IsAgreed k t = cc

  -- If each field has one entry of rules: after any changes, blurs, submissions and resets of a form whose
  -- errors are not set or cleared by hand, each field that is marked as touched shows exactly the error
  -- that its rules give for its value.
  pub Reach-IsAgreed :
      {f : Form V} → HasDistinctRules options → Reach (create_form options) f → IsAgreed f
  Reach-IsAgreed d here = create_form-IsAgreed
  Reach-IsAgreed d (step r st) = Step-IsAgreed d st (Reach-IsAgreed d r)

-- A map in which no key is found is empty.
eq-nil : (m : JsMap String String) → ((k : String) → JsMap.get k m ≡ none) → m ≡ []
unfolding JsMap.get
eq-nil [] h = refl
eq-nil ((k, v) ∷ m) h = let first = h k in ground (arith, first, eq_iff k k)

module _ {V N : Type 0} (options : FormOptions V N) where
  submit_with-waits :
      (errors : JsMap String String) (f : Form V)
      → ((k : String) → JsMap.get k errors ≡ right_error options f k)
      → let (g, events, waits) = submit_with options errors true f in
        ((waits ≡ true) ↔ ((k : String) → right_error options f k ≡ none))
        × (g.is_submitting ≡ (if waits then true else f.is_submitting))
        × (last? events ≡ (if waits then some (submitted f.values) else last? (notify options g).1))
  unfolding submit_with notify JsMap.get
  submit_with-waits [] f h = (
    (λ w k. sym (h k), λ w. refl),
    refl,
    let checked = record f {
      errors = [];
      touched = all_touched options options.default_values [];
    } in
        let one = (notify options checked).1 in
        let two = (notify options (record checked { is_submitting = true })).1 in
        ap last? (sym (append_assoc one two (submitted f.values ∷ [])))
        ∙ last?-append (one ++ two) (submitted f.values),
  )
  submit_with-waits ((k, message) ∷ errors) f h = (
    (
      λ w. cc,
      λ all_right.
          let found = h k in let right = all_right k in ground (arith, eq_iff k k, found, right),
    ),
    refl,
    refl,
  )

  -- If each field has one entry of rules and onSubmit is given: it is called just when no field has an
  -- error by its rules, whatever errors were set before. The form is then shown as submitting, and the
  -- call, with the values of the form, comes last; else the form is left as it was in that.
  pub begin_submit-waits :
      (f : Form V)
      → HasDistinctRules options
      → options.has_on_submit ≡ true
      → let (g, events, waits) = begin_submit options f in
        ((waits ≡ true) ↔ ((k : String) → right_error options f k ≡ none))
        × (g.is_submitting ≡ (if waits then true else f.is_submitting))
        × (last? events ≡ (if waits then some (submitted f.values) else last? (notify options g).1))
  unfolding begin_submit
  begin_submit-waits f d given =
      let errors = run_validation options f in
      subst
        (λ b.
          let (g, events, waits) = submit_with options errors b f in
          ((waits ≡ true) ↔ ((k : String) → right_error options f k ≡ none))
          × (g.is_submitting ≡ (if waits then true else f.is_submitting))
          × (last? events
              ≡ (if waits then some (submitted f.values) else last? (notify options g).1)))
        (sym given) (submit_with-waits errors f (λ k. get-run_validation options f k d))
