-- ===== src/Router/Resolver/Paths.antt =====
-- The paths of a tree from its root to a route, and `_findPath` (kit/src/router/resolver.ts), which finds one
-- just when there is one.
use mathlib.Core.Option
use mathlib.Core.Option.{some-injective}
use vais_lang.Prelude.{
  sym, ◌∙◌, subst, ◌≡◌, refl, Option, none, some, List, [], ◌∷◌, true, inl, inr, In, here, there,
  string_eq, Bool-cases, Option-cases, ◌≢◌, false,
}
use vais_lang.Router.Types.{
  RouteInfo, RouteDefinition, RouteDefinitions, route, nil, cons, children, to_list, same_ref,
}
use vais_lang.Router.Resolver.{find_path, find_path_in}

-- The nodes from a root down to the target, each a child of the one before.
pub data PathTo (target : RouteDefinition) : RouteDefinition → List RouteDefinition → Type 0 where
  last : {n : RouteDefinition} → same_ref n target ≡ true → PathTo target n (n ∷ [])
  step :
      {n c : RouteDefinition} {path : List RouteDefinition}
      → In c (children n)
      → PathTo target c path
      → PathTo target n (n ∷ path)

PathTo-below :
    (target : RouteDefinition) (i : RouteInfo) (cs : RouteDefinitions) {path : List RouteDefinition}
    (below : Option (List RouteDefinition))
    → ((p : List RouteDefinition)
        → below ≡ some p
        → (c : RouteDefinition) × In c (to_list cs) × PathTo target c p)
    → Option.map (λ p. route i cs ∷ p) below ≡ some path
    → PathTo target (route i cs) path
PathTo-below target i cs none ih h = cc
PathTo-below target i cs {path} (some p) ih h =
    let (c, j, q) = ih p refl in
    subst (PathTo target (route i cs)) (some-injective _ _ h) (step {n = route i cs} j q)

mutual
  unfolding find_path

  pub find_path-PathTo :
      (n target : RouteDefinition) {path : List RouteDefinition}
      → find_path n target ≡ some path
      → PathTo target n path
  find_path-PathTo (route i cs) target h = elim (Bool-cases (same_ref (route i cs) target)) [
    | inl e ↦
        subst (PathTo target (route i cs)) (some-injective (route i cs ∷ []) _ (rw e at h))
          (last {n = route i cs} e)
    | inr e ↦
        PathTo-below target i cs (find_path_in cs target) (λ p q. find_path_in-PathTo cs target q)
          (rw (e) at h)
  ]

  find_path_in-PathTo :
      (cs : RouteDefinitions) (target : RouteDefinition) {path : List RouteDefinition}
      → find_path_in cs target ≡ some path
      → (c : RouteDefinition) × In c (to_list cs) × PathTo target c path
  find_path_in-PathTo nil target h = cc
  find_path_in-PathTo (cons c cs) target h = elim (Option-cases (find_path c target)) [
    | inl e ↦ let (x, i, q) = find_path_in-PathTo cs target (rw e at h) in (x, there i, q)
    | inr (p, e) ↦ (c, here refl, find_path-PathTo c target (e ∙ (rw e at h)))
  ]

reached_below :
    (i : RouteInfo) (cs : RouteDefinitions) (target : RouteDefinition) {path : List RouteDefinition}
    → ((c : RouteDefinition)
        → (way : List RouteDefinition) → In c (to_list cs)
        → PathTo target c way
        → find_path_in cs target ≢ none)
    → PathTo target (route i cs) path
    → same_ref (route i cs) target ≡ false
    → Option.map (λ p. route i cs ∷ p) (find_path_in cs target) ≢ none
reached_below i cs target ih (last k) e h = absurd cc
reached_below i cs target ih (step {c = c} {path = path} j q) e h =
    ih c path j q (elim (Option-cases (find_path_in cs target)) [
      | inl k ↦ k
      | inr (x, k) ↦ absurd (cc (rw k at h))
    ])

-- A target that a path leads to is found.
mutual
  unfolding find_path

  pub find_path-ne-none :
      (n target : RouteDefinition) {path : List RouteDefinition}
      → PathTo target n path
      → find_path n target ≢ none
  find_path-ne-none (route i cs) target p h = elim (Bool-cases (same_ref (route i cs) target)) [
    | inl e ↦ absurd (cc (rw e at h))
    | inr e ↦
        reached_below i cs target (λ c way j q. find_path_in-ne-none cs target c {path = way} j q) p
          e (rw e at h)
  ]

  find_path_in-ne-none :
      (cs : RouteDefinitions) (target c : RouteDefinition) {path : List RouteDefinition}
      → In c (to_list cs)
      → PathTo target c path
      → find_path_in cs target ≢ none
  find_path_in-ne-none nil target c j q h = elim j [ ]
  find_path_in-ne-none (cons d cs) target c {path = path} (here e) q h =
      find_path-ne-none d target {path = path} (subst (λ x. PathTo target x path) (sym e) q)
        (elim (Option-cases (find_path d target)) [
          | inl k ↦ k
          | inr (x, k) ↦ absurd (cc (rw k at h))
        ])
  find_path_in-ne-none (cons d cs) target c {path = path} (there j) q h =
      find_path_in-ne-none cs target c {path = path} j q (elim (Option-cases (find_path d target)) [
        | inl k ↦ rw k at h
        | inr (x, k) ↦ absurd (cc (rw k at h))
      ])
