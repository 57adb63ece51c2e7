-- ===== src/Fallback/Versions.antt =====
-- The object VersionManager. `show` prints a number.
pub mod Admits
pub mod Laws
use Prim.Native.Char.{code}
use Prim.Native.String
use vais_lang.Prelude.{
  is_digit, ◌&◌, ℕ, zero, suc, ◌+◌, ◌*◌, ◌-◌, String, Option, none, some, List, [], ◌∷◌, filter,
  Bool, true, false, not, ◌&&◌, leb, ltb, nat_beq, if◌then◌else◌, ◌>>=◌, ℤ, pos, negsuc,
  is_positive, is_negative,
}

abbrev pub Semver : Type 0
Semver = ℕ × ℕ × ℕ

-- The digits that a text begins with, read into a number after `acc`, and what follows them.
abbrev pub digits : Option ℕ → String → Option (ℕ × String)
digits none String.[] = none
digits (some n) String.[] = some (n, "")
digits none (String.◌∷◌ c s) =
    let rest = digits (some (code c - b'0')) s in if is_digit (code c) then rest else none
digits (some n) (String.◌∷◌ c s) =
    let rest = digits (some (10 * n + (code c - b'0'))) s in
    if is_digit (code c) then rest else some (n, String.◌∷◌ c s)

-- `\.`
abbrev pub dot : String → Option String
dot String.[] = none
dot (String.◌∷◌ c s) = if nat_beq (code c) b'.' then some s else none

-- `version.replace(/^v/, "")`
abbrev pub strip_v : String → String
strip_v String.[] = ""
strip_v (String.◌∷◌ c s) = if nat_beq (code c) b'v' then s else String.◌∷◌ c s

-- `^(\d+)\.(\d+)\.(\d+)`
unfoldable pub parse_semver : String → Option Semver
parse_semver version = do
  (major, after_major) ← digits none (strip_v version)
  minor_text ← dot after_major
  (minor, after_minor) ← digits none minor_text
  patch_text ← dot after_minor
  (patch, rest) ← digits none patch_text
  some (major, minor, patch)

-- One turn of the loop of `compareSemver`, and the value after the loop.
abbrev compare_at : ℕ → ℕ → ℤ → ℤ
compare_at x y next = if ltb y x then pos 1 else if ltb x y then negsuc 0 else next

unfoldable pub compare_semver : Semver → Semver → ℤ
compare_semver a b = compare_at a.0 b.0 (compare_at a.1 b.1 (compare_at a.2 b.2 (pos 0)))

pub record CompatibilityResult : Type 0 where
  pub compatible : Bool
  pub reason : Option String

pub record VersionConstraint : Type 0 where
  pub min : Option String
  pub max : Option String
  pub exact : Option String

abbrev incompatible : String → CompatibilityResult
incompatible text = record { compatible = false; reason = some text }

unfoldable pub check_compatibility : (ℕ → String) → String → String → String → CompatibilityResult
unfolding parse_semver
check_compatibility show name version host_version = elim (parse_semver version) [
  | none ↦ incompatible ("Remote \"" & name & "\" has an unparseable version: \"" & version & "\"")
  | some remote ↦ elim (parse_semver host_version) [
    | none ↦ incompatible ("Host has an unparseable version: \"" & host_version & "\"")
    | some host ↦
        if not (nat_beq remote.0 host.0)
        then incompatible (
            "Remote \""
            & name
            & "\" version "
            & version
            & " has major version "
            & show remote.0
            & ", but host requires major version "
            & show host.0
            & ".")
        else if ltb remote.1 host.1
        then incompatible (
            "Remote \"" & name & "\" version " & version & " is older than host version "
            & host_version & " (minor version too low).")
        else record { compatible = true; reason = none }
  ]
]

-- The test on `min` (a version below it fails) and on `max` (a version above it fails).
abbrev pub within : Option String → (ℤ → Bool) → Semver → Bool
within none fails parsed = true
within (some bound) fails parsed = elim (parse_semver bound) [
  | none ↦ false
  | some limit ↦ not (fails (compare_semver parsed limit))
]

-- The test on `exact`.
abbrev pub is_exactly : String → Semver → Bool
is_exactly exact parsed = elim (parse_semver exact) [
  | none ↦ false
  | some wanted ↦
      let order = compare_semver parsed wanted in not (is_positive order) && not (is_negative order)
]

-- The filter of `resolveVersion`.
unfoldable pub satisfies : VersionConstraint → String → Bool
unfolding parse_semver compare_semver
satisfies c v = elim (parse_semver v) [
  | none ↦ false
  | some parsed ↦ elim c.exact [
    | some exact ↦ is_exactly exact parsed
    | none ↦ within c.min is_negative parsed && within c.max is_positive parsed
  ]
]

-- Whether the version is higher than the best one; both can be parsed where this is used.
unfoldable pub is_higher : String → String → Bool
unfolding parse_semver compare_semver
is_higher v best = elim (parse_semver v) [
  | none ↦ false
  | some x ↦ elim (parse_semver best) [ none ↦ false | some y ↦ is_positive (compare_semver x y) ]
]

abbrev pub highest : String → List String → String
highest best [] = best
highest best (v ∷ vs) = highest (if is_higher v best then v else best) vs

unfoldable pub resolve_version : List String → VersionConstraint → Option String
unfolding satisfies is_higher
resolve_version versions c = elim (filter (satisfies c) versions) [
  | [] ↦ none
  | v ∷ vs ↦ some (highest v vs)
]
