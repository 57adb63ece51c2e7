-- ===== src/Plugin/Hooks.antt =====
-- How the hooks of several plugins are combined.
use vais_lang.Prelude.{
  sym, inl, inr, Option-cases, ◌≡◌, refl, ap, ◌∙◌, String, Option, none, some, List, [], ◌∷◌, ◌++◌,
}
use vais_lang.Plugin.{
  VaisXPlugin, TransformResult, Hook, first_result, transform_from, transform_all,
}

-- `first`, and where it gives null the `second` in the world that it leaves.
abbrev pub or_then : {W A : Type 0} → Hook W A → Hook W A → Hook W A
or_then first second w = elim (first w) [
  | none ↦ none
  | some (none, v) ↦ second v
  | some (some a, v) ↦ some (some a, v)
]

-- The code after a transformation, or the code before where there is none.
abbrev pub code_of : {M : Type 0} → String → Option (TransformResult M) → String
code_of code none = code
code_of code (some r) = r.code

abbrev pub or_last : {W A : Type 0} → Option A → Option (Option A × W) → Option (Option A × W)
or_last last none = none
or_last last (some (none, v)) = some (last, v)
or_last last (some (some a, v)) = some (some a, v)

or_last-or_last :
    {W A : Type 0} (last : Option A) (a : A) (o : Option (Option A × W))
    → or_last last (or_last (some a) o) ≡ or_last (some a) o
or_last-or_last last a none = refl
or_last-or_last last a (some (none, v)) = refl
or_last-or_last last a (some (some b, v)) = refl

or_last-twice :
    {W A : Type 0} (last : Option A) (o : Option (Option A × W))
    → or_last last (or_last none o) ≡ or_last last o
or_last-twice last none = refl
or_last-twice last (some (none, v)) = refl
or_last-twice last (some (some a, v)) = refl

or_last-none : {W A : Type 0} (o : Option (Option A × W)) → or_last none o ≡ o
or_last-none none = refl
or_last-none (some (none, v)) = refl
or_last-none (some (some a, v)) = refl

module _ {W R L M : Type 0} where
  -- The hooks that resolve an id or load a module, over two lists of plugins in a row: what the first
  -- list gives, without a call of the second, and only where it gives null what the second list gives
  -- in the world that the first one left; a rejection ends the search.
  pub first_result-append :
      {A : Type 0} (hook : VaisXPlugin W R L M → Option (Hook W A))
      (ps qs : List (VaisXPlugin W R L M)) (w : W)
      → first_result hook (ps ++ qs) w ≡ or_then (first_result hook ps) (first_result hook qs) w
  unfolding first_result
  first_result-append hook [] qs w = refl
  first_result-append hook (p ∷ ps) qs w = elim (Option-cases (hook p)) [
    | inl e ↦ rw (e, first_result) (first_result-append hook ps qs w)
    | inr (h, e) ↦ elim (Option-cases (h w)) [
      | inl f ↦ rw (e, f, first_result) refl
      | inr ((none, v), f) ↦ rw (e, f, first_result) (first_result-append hook ps qs v)
      | inr ((some a, v), f) ↦ rw (e, f, first_result) refl
    ]
  ]

  transform_from-last :
      (ps : List (VaisXPlugin W R L M)) (id code : String) (last : Option (TransformResult M))
      (w : W)
      → transform_from ps id code last w ≡ or_last last (transform_from ps id code none w)
  unfolding transform_from
  transform_from-last [] id code last w = refl
  transform_from-last (p ∷ ps) id code last w = elim (Option-cases p.transform) [
    | inl e ↦ rw (e, transform_from) (transform_from-last ps id code last w)
    | inr (h, e) ↦ elim (Option-cases (h code id w)) [
      | inl f ↦ rw (e, f, transform_from) refl
      | inr ((none, v), f) ↦ rw (e, f, transform_from) (transform_from-last ps id code last v)
      | inr ((some r, v), f) ↦
          rw (e, f, transform_from)
            (transform_from-last ps id r.code (some r) v
              ∙ (sym (or_last-or_last last r (transform_from ps id r.code none v))
                  ∙ ap (or_last last) (sym (transform_from-last ps id r.code (some r) v))))
    ]
  ]

  -- The transformation by one list of plugins, and then by another of the code that it gives.
  abbrev pub then_transform :
      List (VaisXPlugin W R L M)
      → String
      → String
      → Option (Option (TransformResult M) × W)
      → Option (Option (TransformResult M) × W)
  then_transform qs code id none = none
  then_transform qs code id (some (r, v)) = or_last r (transform_all qs (code_of code r) id v)

  then_transform-or_last :
      (qs : List (VaisXPlugin W R L M)) (code id : String) (r : TransformResult M)
      (o : Option (Option (TransformResult M) × W))
      → or_last (some r) (then_transform qs r.code id o)
        ≡ then_transform qs code id (or_last (some r) o)
  then_transform-or_last qs code id r none = refl
  then_transform-or_last qs code id r (some (none, v)) =
      or_last-twice (some r) (transform_all qs r.code id v)
  then_transform-or_last qs code id r (some (some q, v)) =
      or_last-or_last (some r) q (transform_all qs q.code id v)

  -- A transformation by two lists of plugins in a row is one by the first and then one by the second,
  -- of the code that the first gives or of the same code where it gives null: the result is that of
  -- the last plugin that gives one, null where none does, and a rejection ends the chain.
  pub transform_all-append :
      (ps qs : List (VaisXPlugin W R L M)) (code id : String) (w : W)
      → transform_all (ps ++ qs) code id w ≡ then_transform qs code id (transform_all ps code id w)
  unfolding transform_from
  transform_all-append [] qs code id w = sym (or_last-none (transform_all qs code id w))
  transform_all-append (p ∷ ps) qs code id w = elim (Option-cases p.transform) [
    | inl e ↦ rw (e, transform_from) (transform_all-append ps qs code id w)
    | inr (h, e) ↦ elim (Option-cases (h code id w)) [
      | inl f ↦ rw (e, f, transform_from) refl
      | inr ((none, v), f) ↦ rw (e, f, transform_from) (transform_all-append ps qs code id v)
      | inr ((some r, v), f) ↦
          rw (e, f, transform_from)
            (transform_from-last (ps ++ qs) id r.code (some r) v
              ∙ (ap (or_last (some r)) (transform_all-append ps qs r.code id v)
                  ∙ (then_transform-or_last qs code id r (transform_all ps r.code id v)
                      ∙ ap (then_transform qs code id)
                          (sym (transform_from-last ps id r.code (some r) v)))))
    ]
  ]
