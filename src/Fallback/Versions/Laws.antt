-- ===== src/Fallback/Versions/Laws.antt =====
-- Which version is chosen, and when a remote is compatible.
use vais_lang.Prelude.{
  In-cases, ◌∙◌, sym, if◌then◌else◌, ap, subst, ◌↔◌, refl, [], is_some, there, inr, Bool-cases, inl,
  here, none, All, ◌∷◌, Option-cases, In, ◌≤◌, true, false, ◌≡◌, ◌⊎◌, arith,
}
use vais_lang.Fallback.Versions.{
  ℕ, check_compatibility, Bool, resolve_version, not, filter, highest, some, parse_semver,
  is_higher, String, List, VersionConstraint, Option, satisfies, Semver,
}
use vais_lang.Fallback.Versions.Admits.{
  Admits, Admits-satisfies, AtMost, AtMost-refl, AtMost-trans, compare_semver_above,
  compare_semver_lem, satisfies-Admits,
}

higher_AtMost :
    (v best : String) → is_higher v best ≡ true → AtMost (parse_semver best) (parse_semver v)
unfolding is_higher
higher_AtMost v best h = elim (Option-cases (parse_semver v)) [
  | inl e ↦ absurd (ground (arith, e, h))
  | inr (x, e) ↦ elim (Option-cases (parse_semver best)) [
    | inl k ↦ absurd (ground (arith, e, k, h))
    | inr (y, k) ↦ rw (e, k) (compare_semver_above x y (rw (is_higher, e, k) at h))
  ]
]

lower_AtMost :
    (v best : String)
    → is_some (parse_semver v) ≡ true
    → is_some (parse_semver best) ≡ true
    → is_higher v best ≡ false
    → AtMost (parse_semver v) (parse_semver best)
unfolding is_higher
lower_AtMost v best p q h = elim (Option-cases (parse_semver v)) [
  | inl e ↦ absurd (ground (arith, e, p))
  | inr (x, e) ↦ elim (Option-cases (parse_semver best)) [
    | inl k ↦ absurd (ground (arith, k, q))
    | inr (y, k) ↦ rw (e, k) (compare_semver_lem x y (rw (is_higher, e, k) at h))
  ]
]

-- The version is one of the list and not below any of it.
abbrev pub IsHighest : List String → String → Type 0
IsHighest vs v = In v vs × All (λ w. AtMost (parse_semver w) (parse_semver v)) vs

later : (v w r : String) (vs : List String) → In r (v ∷ vs) → In r (v ∷ w ∷ vs)
later v w r vs (here e) = here e
later v w r vs (there i) = there (there i)

highest-IsHighest :
    (best : String) (vs : List String)
    → is_some (parse_semver best) ≡ true
    → All (λ w. is_some (parse_semver w) ≡ true) vs
    → IsHighest (best ∷ vs) (highest best vs)
highest-IsHighest best [] h k = (here refl, (AtMost-refl (parse_semver best) h, tt))
highest-IsHighest best (v ∷ vs) h (k, ks) = elim (Bool-cases (is_higher v best)) [
  | inl e ↦
      let (i, (p, ps)) = highest-IsHighest v vs k ks in
      subst (IsHighest (best ∷ v ∷ vs)) (ap (λ b. highest (if b then v else best) vs) (sym e)) (
        there i,
        (AtMost-trans (parse_semver best) (parse_semver v) _ (higher_AtMost v best e) p, (p, ps)),
      )
  | inr e ↦
      let (i, (p, ps)) = highest-IsHighest best vs h ks in
      subst (IsHighest (best ∷ v ∷ vs)) (ap (λ b. highest (if b then v else best) vs) (sym e)) (
        later best v (highest best vs) vs i,
        (
          p,
          (AtMost-trans (parse_semver v) (parse_semver best) _ (lower_AtMost v best k h e) p, ps),
        ),
      )
]

satisfies_parsed :
    (c : VersionConstraint) (v : String) → satisfies c v ≡ true → is_some (parse_semver v) ≡ true
unfolding satisfies
satisfies_parsed c v h = elim (Option-cases (parse_semver v)) [
  | inl e ↦ absurd (ground (arith, e, h))
  | inr (x, e) ↦ rw e refl
]

filter_parsed :
    (c : VersionConstraint) (vs : List String)
    → All (λ w. is_some (parse_semver w) ≡ true) (filter (satisfies c) vs)
filter_parsed c [] = tt
filter_parsed c (v ∷ vs) = elim (Bool-cases (satisfies c v)) [
  | inl e ↦ rw e (satisfies_parsed c v e, filter_parsed c vs)
  | inr e ↦ rw e (filter_parsed c vs)
]

In-filter :
    (p : String → Bool) (vs : List String) (v : String)
    → In v (filter p vs)
    → In v vs × (p v ≡ true)
In-filter p [] v i = elim i [ ]
In-filter p (w ∷ vs) v i = elim (Bool-cases (p w)) [
  | inl e ↦ elim (In-cases w (filter p vs) v (rw e at i)) [
    | inl k ↦ (here k, ap p (sym k) ∙ e)
    | inr j ↦ let (l, k) = In-filter p vs v j in (there l, k)
  ]
  | inr e ↦ let (j, k) = In-filter p vs v (rw e at i) in (there j, k)
]

-- What `resolveVersion` promises of its answer.
abbrev pub IsResolved : List String → VersionConstraint → Option String → Type 0
IsResolved versions c none = All (λ w. ¬ Admits c w) versions
IsResolved versions c (some v) =
    In v versions
    × Admits c v
    × All (λ w. (¬ Admits c w) ⊎ AtMost (parse_semver w) (parse_semver v)) versions

none_admitted :
    (c : VersionConstraint) (versions : List String)
    → filter (satisfies c) versions ≡ []
    → All (λ w. ¬ Admits c w) versions
none_admitted c [] e = tt
none_admitted c (v ∷ versions) e = elim (Bool-cases (satisfies c v)) [
  | inl k ↦ absurd (cc (rw k at e))
  | inr k ↦ (
    λ a. absurd (ground (arith, k, Admits-satisfies c v a)),
    none_admitted c versions (rw k at e),
  )
]

bound_admitted :
    (c : VersionConstraint) (top : String) (versions : List String)
    → All (λ w. AtMost (parse_semver w) (parse_semver top)) (filter (satisfies c) versions)
    → All (λ w. (¬ Admits c w) ⊎ AtMost (parse_semver w) (parse_semver top)) versions
bound_admitted c top [] h = tt
bound_admitted c top (v ∷ versions) h = elim (Bool-cases (satisfies c v)) [
  | inl k ↦ let (p, ps) = rw k at h in (inr p, bound_admitted c top versions ps)
  | inr k ↦ (
    inl (λ a. absurd (ground (arith, k, Admits-satisfies c v a))),
    bound_admitted c top versions (rw k at h),
  )
]

module _ (versions : List String) (c : VersionConstraint) where
  chosen :
      (vs : List String)
      → filter (satisfies c) versions ≡ vs
      → IsResolved versions c (elim vs [ [] ↦ none | v ∷ ws ↦ some (highest v ws) ])
  chosen [] e = none_admitted c versions e
  chosen (v ∷ ws) e =
      let (p, ps) =
        subst (All (λ w. is_some (parse_semver w) ≡ true)) e (filter_parsed c versions) in
      let (i, below) = highest-IsHighest v ws p ps in
      let (j, k) =
        In-filter (satisfies c) versions (highest v ws) (subst (In (highest v ws)) (sym e) i) in
      (
        j,
        satisfies-Admits c (highest v ws) k,
        bound_admitted c (highest v ws) versions (
            subst (All (λ w. AtMost (parse_semver w) (parse_semver (highest v ws)))) (sym e) below),
      )

  -- The version chosen is one of the list that the constraint admits, and no other version of the list
  -- that it admits is above it; where there is no choice, the constraint admits none of the list. It
  -- admits a version that can be parsed, the same as `exact` where that is given, and else not below
  -- `min` and not above `max`, where these are given.
  pub resolve_version-IsResolved : IsResolved versions c (resolve_version versions c)
  unfolding resolve_version
  resolve_version-IsResolved = chosen (filter (satisfies c) versions) refl

-- A remote is compatible just when both versions can be parsed, their major numbers are the same and
-- its minor number is not below the host's; a reason is given just when it is not compatible.
pub check_compatibility_iff :
    (show : ℕ → String) (name version host_version : String)
    → let result = check_compatibility show name version host_version in
      ((result.compatible ≡ true) ↔ (
        (a : Semver) × (b : Semver) × (parse_semver version ≡ some a)
        × (parse_semver host_version ≡ some b)
        × (a.0 ≡ b.0)
        × (b.1 ≤ a.1)))
      × (is_some result.reason ≡ not result.compatible)
unfolding check_compatibility
check_compatibility_iff show name version host_version =
    elim (Option-cases (parse_semver version)) [
      | inl e ↦
          rw (check_compatibility, e) ((λ h. absurd cc, λ (a, b, p, q, r, s). absurd cc), refl)
      | inr (remote, e) ↦ elim (Option-cases (parse_semver host_version)) [
        | inl k ↦
            rw (check_compatibility, e, k) ((λ h. absurd cc, λ (a, b, p, q, r, s). absurd cc), refl)
        | inr (host, k) ↦
            rw (check_compatibility, e, k)
              (
                (
                  λ h. (remote, host, refl, refl, ground (arith, h), ground (arith, h)),
                  λ (a, b, p, q, r, s). ground (arith, p, q, r, s),
                ),
                ground arith,
              )
      ]
    ]
