-- ===== src/Fallback/Tests.antt =====
-- Retries, versions and circuits at concrete inputs.
use vais_lang.Prelude.{
  ℕ, zero, suc, ◌+◌, ◌*◌, ◌^◌, ◌≤◌, some, none, List, [], ◌∷◌, String, ◌≡◌, refl, length, arith,
  false,
}
use vais_lang.Fallback.Retry.{
  Attempt, FallbackOptions, resolves, rejects, hangs, returned, load_with_fallback,
}
use vais_lang.Fallback.Retry.Bounds.{load_with_fallback-Bounded, sum}
use vais_lang.Fallback.Versions.{
  VersionConstraint, parse_semver, resolve_version, check_compatibility,
}
use vais_lang.Fallback.Versions.Laws.{IsResolved, resolve_version-IsResolved}
use vais_lang.Fallback.Circuit.{
  CircuitBreaker, CircuitBreakerOptions, Event, opened, started, failed, succeeded,
  create_circuit_breaker, run, start_call,
}
use vais_lang.Fallback.Circuit.Runs.{run-opened, calls_made}

abbrev options : FallbackOptions
options = record { timeout = 50; retries = 2; retry_delay = 10 }

abbrev broken : ℕ → Attempt String String
broken n = rejects "down"

abbrev slow_then_fine : ℕ → Attempt String String
slow_then_fine (suc zero) = hangs
slow_then_fine n = resolves "module"

abbrev late : ℕ → String
late ms = "late"

second_try :
    load_with_fallback late options slow_then_fine none "unknown"
    ≡ record { outcome = returned "module"; errors = ("late", 1) ∷ []; delays = 10 ∷ [] }
unfolding load_with_fallback
second_try = refl

load_with_fallback-Bounded_example :
    let l = load_with_fallback late options broken none "unknown" in
    (length l.errors ≤ 3) × (sum l.delays + 10 ≤ 10 * 2 ^ 2)
load_with_fallback-Bounded_example = load_with_fallback-Bounded late options broken none "unknown"

parsed : parse_semver "v1.20.3-beta" ≡ some (1, 20, 3)
unfolding parse_semver
parsed = refl

unparsed : parse_semver "1.x.3" ≡ none
unfolding parse_semver
unparsed = refl

abbrev versions : List String
versions = "1.0.0" ∷ "1.10.0" ∷ "x" ∷ "1.9.0" ∷ "2.0.0" ∷ []

abbrev from_one : VersionConstraint
from_one = record { min = some "1.0.0"; max = some "1.99.0"; exact = none }

resolved : resolve_version versions from_one ≡ some "1.10.0"
unfolding resolve_version
resolved = refl

resolve_version-IsResolved_example :
    IsResolved versions from_one (resolve_version versions from_one)
resolve_version-IsResolved_example = resolve_version-IsResolved versions from_one

remote_older : check_compatibility (λ n. "n") "shop" "1.2.0" "1.3.0" ≡ record {
  compatible = false;
  reason =
      some
        "Remote \"shop\" version 1.2.0 is older than host version 1.3.0 (minor version too low).";
}
unfolding check_compatibility
remote_older = refl

abbrev twice : CircuitBreakerOptions
twice = record { threshold = 2; reset_timeout = 100 }

abbrev outage : List Event
outage = started 5 ∷ failed 6 ∷ started 7 ∷ failed 8 ∷ []

abbrev broken_circuit : CircuitBreaker
broken_circuit = record { state = opened; failure_count = 2; opened_at = some 8 }

opens : run twice outage create_circuit_breaker ≡ broken_circuit
unfolding run
opens = refl

-- Two calls that start after the timeout both call their function, though the circuit is half open.
two_probes : calls_made twice (started 108 ∷ started 109 ∷ []) broken_circuit ≡ 2
unfolding start_call
two_probes = refl

run-opened_example :
    (calls_made twice (started 9 ∷ succeeded ∷ started 107 ∷ []) broken_circuit ≡ 0)
    × ((run twice (started 9 ∷ succeeded ∷ started 107 ∷ []) broken_circuit).state ≡ opened)
run-opened_example =
    run-opened twice (started 9 ∷ succeeded ∷ started 107 ∷ []) broken_circuit 8 refl refl
      (omega arith, omega arith, (omega arith, omega arith, tt))
