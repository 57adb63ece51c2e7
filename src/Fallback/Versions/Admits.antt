-- ===== src/Fallback/Versions/Admits.antt =====
-- The order of versions, and which versions a constraint admits.
use vais_lang.Prelude.{
  and_split, ◌&&◌, refl, is_some, inr, inl, none, Option-cases, ◌≤◌, ◌<◌, true, false, ◌≡◌, ◌⊎◌,
  arith, is_positive,
}
use vais_lang.Fallback.Versions.{
  is_exactly, is_negative, within, not, some, parse_semver, String, VersionConstraint, Option,
  satisfies, Semver, compare_semver,
}

-- The order of versions: by major, then minor, then patch number.
abbrev pub IsAtMost : Semver → Semver → Type 0
IsAtMost a b = (a.0 < b.0) ⊎ ((a.0 ≡ b.0) × ((a.1 < b.1) ⊎ ((a.1 ≡ b.1) × (a.2 ≤ b.2))))

pub compare_semver_lem : (a b : Semver) → is_positive (compare_semver a b) ≡ false → IsAtMost a b
unfolding compare_semver
compare_semver_lem a b h = ground arith

pub compare_semver_above : (a b : Semver) → is_positive (compare_semver a b) ≡ true → IsAtMost b a
unfolding compare_semver
compare_semver_above a b h = ground arith

IsAtMost-trans : (a b c : Semver) → IsAtMost a b → IsAtMost b c → IsAtMost a c
IsAtMost-trans a b c h k = ground (arith, h, k)

-- Both texts are versions, and the first is not above the second.
abbrev pub AtMost : Option Semver → Option Semver → Type 0
AtMost none o = ⊥
AtMost (some a) none = ⊥
AtMost (some a) (some b) = IsAtMost a b

pub AtMost-trans : (o p q : Option Semver) → AtMost o p → AtMost p q → AtMost o q
AtMost-trans none p q h k = absurd h
AtMost-trans (some a) none q h k = absurd h
AtMost-trans (some a) (some b) none h k = absurd k
AtMost-trans (some a) (some b) (some c) h k = IsAtMost-trans a b c h k

pub AtMost-refl : (o : Option Semver) → is_some o ≡ true → AtMost o o
AtMost-refl none h = absurd cc
AtMost-refl (some a) h = ground arith

-- The version is not below a minimum, and not above a maximum, where there is one.
abbrev pub ReachesMin : Option String → String → Type 0
ReachesMin none v = Unit
ReachesMin (some m) v = AtMost (parse_semver m) (parse_semver v)

abbrev pub KeepsMax : Option String → String → Type 0
KeepsMax none v = Unit
KeepsMax (some m) v = AtMost (parse_semver v) (parse_semver m)

-- What the constraint asks of a version.
abbrev pub Admits : VersionConstraint → String → Type 0
Admits c v = elim c.exact [
  | some e ↦ AtMost (parse_semver v) (parse_semver e) × AtMost (parse_semver e) (parse_semver v)
  | none ↦ (is_some (parse_semver v) ≡ true) × ReachesMin c.min v × KeepsMax c.max v
]

equal_AtMost :
    (a b : Semver)
    → (not (is_positive (compare_semver a b)) && not (is_negative (compare_semver a b))) ≡ true
    → IsAtMost a b × IsAtMost b a
unfolding compare_semver
equal_AtMost a b h = (ground arith, ground arith)

not_below : (a b : Semver) → not (is_negative (compare_semver a b)) ≡ true → IsAtMost b a
unfolding compare_semver
not_below a b h = ground arith

module _ (v : String) (parsed : Semver) (e : parse_semver v ≡ some parsed) where
  admits_exact :
      (exact : String)
      → is_exactly exact parsed ≡ true
      → AtMost (parse_semver v) (parse_semver exact) × AtMost (parse_semver exact) (parse_semver v)
  admits_exact exact h = elim (Option-cases (parse_semver exact)) [
    | inl k ↦ absurd (ground (arith, k, h))
    | inr (w, k) ↦ rw (e, k) (equal_AtMost parsed w (rw (is_exactly, k) at h))
  ]

  admits_min : (min : Option String) → within min is_negative parsed ≡ true → ReachesMin min v
  admits_min none h = tt
  admits_min (some m) h = elim (Option-cases (parse_semver m)) [
    | inl k ↦ absurd (ground (arith, k, h))
    | inr (w, k) ↦ rw (e, k) (not_below parsed w (rw (within, k) at h))
  ]

  admits_max : (max : Option String) → within max is_positive parsed ≡ true → KeepsMax max v
  admits_max none h = tt
  admits_max (some m) h = elim (Option-cases (parse_semver m)) [
    | inl k ↦ absurd (ground (arith, k, h))
    | inr (w, k) ↦ rw (e, k) (compare_semver_lem parsed w (ground (arith, (rw (within, k) at h))))
  ]

pub satisfies-Admits : (c : VersionConstraint) (v : String) → satisfies c v ≡ true → Admits c v
unfolding satisfies
satisfies-Admits c v h = elim (Option-cases (parse_semver v)) [
  | inl e ↦ absurd (ground (arith, e, h))
  | inr (parsed, e) ↦ elim (Option-cases c.exact) [
    | inr (wanted, k) ↦ rw k (admits_exact v parsed e wanted (rw (satisfies, e, k) at h))
    | inl k ↦
        let (low, high) = and_split _ _ (rw (satisfies, e, k) at h) in
        rw k (rw e refl, admits_min v parsed e c.min low, admits_max v parsed e c.max high)
  ]
]

equal_order :
    (a b : Semver)
    → IsAtMost a b
    → IsAtMost b a
    → (not (is_positive (compare_semver a b)) && not (is_negative (compare_semver a b))) ≡ true
unfolding compare_semver
equal_order a b h k = ground (arith, h, k)

not_negative : (a b : Semver) → IsAtMost b a → not (is_negative (compare_semver a b)) ≡ true
unfolding compare_semver
not_negative a b h = ground (arith, h)

not_positive : (a b : Semver) → IsAtMost a b → not (is_positive (compare_semver a b)) ≡ true
unfolding compare_semver
not_positive a b h = ground (arith, h)

module _ (v : String) (parsed : Semver) (e : parse_semver v ≡ some parsed) where
  exact_satisfied :
      (exact : String)
      → AtMost (parse_semver v) (parse_semver exact) × AtMost (parse_semver exact) (parse_semver v)
      → is_exactly exact parsed ≡ true
  exact_satisfied exact h = elim (Option-cases (parse_semver exact)) [
    | inl k ↦ absurd ((rw (e, k) at h).0)
    | inr (w, k) ↦ let (p, q) = rw (e, k) at h in rw (is_exactly, k) (equal_order parsed w p q)
  ]

  min_satisfied : (min : Option String) → ReachesMin min v → within min is_negative parsed ≡ true
  min_satisfied none h = refl
  min_satisfied (some m) h = elim (Option-cases (parse_semver m)) [
    | inl k ↦ absurd (rw (e, k) at h)
    | inr (w, k) ↦ rw (within, k) (not_negative parsed w (rw (e, k) at h))
  ]

  max_satisfied : (max : Option String) → KeepsMax max v → within max is_positive parsed ≡ true
  max_satisfied none h = refl
  max_satisfied (some m) h = elim (Option-cases (parse_semver m)) [
    | inl k ↦ absurd (rw (e, k) at h)
    | inr (w, k) ↦ rw (within, k) (not_positive parsed w (rw (e, k) at h))
  ]

Admits-is_some : (c : VersionConstraint) (v : String) → Admits c v → is_some (parse_semver v) ≡ true
Admits-is_some c v h = elim (Option-cases (parse_semver v)) [
  | inr (parsed, e) ↦ rw e refl
  | inl e ↦ elim (Option-cases c.exact) [
    | inr (wanted, k) ↦ absurd ((rw (k, e) at h).0)
    | inl k ↦ (rw k at h).0
  ]
]

pub Admits-satisfies : (c : VersionConstraint) (v : String) → Admits c v → satisfies c v ≡ true
unfolding satisfies
Admits-satisfies c v h = elim (Option-cases (parse_semver v)) [
  | inl e ↦ absurd (ground (arith, e, Admits-is_some c v h))
  | inr (parsed, e) ↦ elim (Option-cases c.exact) [
    | inr (wanted, k) ↦ rw (satisfies, e, k) (exact_satisfied v parsed e wanted (rw k at h))
    | inl k ↦
        let (p, low, high) = rw k at h in
        rw (satisfies, e, k)
          (ground (arith, min_satisfied v parsed e c.min low, max_satisfied v parsed e c.max high))
  ]
]
