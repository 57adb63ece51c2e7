-- ===== src/Fallback/Circuit.antt =====
-- The circuit breaker. A call is two events, its start and its end, so that calls may overlap.
pub mod Valid
pub mod Runs
use vais_lang.Prelude.{
  not, ℕ, zero, suc, ◌+◌, ◌-◌, Option, none, some, List, [], ◌∷◌, Bool, true, false, leb,
  if◌then◌else◌,
}

pub data CircuitState : Type 0 where
  closed opened half_open : CircuitState

pub record CircuitBreakerOptions : Type 0 where
  pub threshold : ℕ
  pub reset_timeout : ℕ

pub record CircuitBreaker : Type 0 where
  pub state : CircuitState
  pub failure_count : ℕ
  pub opened_at : Option ℕ

abbrev pub create_circuit_breaker : CircuitBreaker
create_circuit_breaker = record { state = closed; failure_count = 0; opened_at = none }

-- The times are those of `Date.now()`.
pub data Event : Type 0 where
  read started failed : ℕ → Event
  succeeded : Event

module _ (options : CircuitBreakerOptions) where
  unfoldable pub get_state : ℕ → CircuitBreaker → CircuitBreaker
  get_state now b = elim b.state [
    | closed ↦ b
    | half_open ↦ b
    | opened ↦ elim b.opened_at [
      | none ↦ b
      | some t ↦
          if leb (t + options.reset_timeout) now
          then record b { state = half_open; opened_at = none }
          else b
    ]
  ]

  abbrev pub is_open : CircuitBreaker → Bool
  is_open b = elim b.state [ closed ↦ false | opened ↦ true | half_open ↦ false ]

  -- Whether `call` calls its function; it throws a CircuitOpenError otherwise.
  unfoldable pub start_call : ℕ → CircuitBreaker → CircuitBreaker × Bool
  unfolding get_state
  start_call now b = let c = get_state now b in (c, not (is_open c))

  -- The function of a call returns.
  unfoldable pub succeed : CircuitBreaker → CircuitBreaker
  succeed b = elim b.state [
    | half_open ↦ record { state = closed; failure_count = 0; opened_at = none }
    | closed ↦ record b { failure_count = 0 }
    | opened ↦ record b { failure_count = 0 }
  ]

  abbrev reopen_at_threshold : ℕ → CircuitBreaker → CircuitBreaker
  reopen_at_threshold now b =
      if leb options.threshold b.failure_count
      then record b { state = opened; opened_at = some now }
      else b

  -- The function of a call throws.
  unfoldable pub fail : ℕ → CircuitBreaker → CircuitBreaker
  fail now b =
      let counted = record b { failure_count = b.failure_count + 1 } in
      elim b.state [
        | half_open ↦ record counted { state = opened; opened_at = some now }
        | closed ↦ reopen_at_threshold now counted
        | opened ↦ reopen_at_threshold now counted
      ]

  unfoldable pub step : Event → CircuitBreaker → CircuitBreaker
  unfolding get_state start_call succeed fail
  step (read now) b = get_state now b
  step (started now) b = (start_call now b).0
  step (failed now) b = fail now b
  step succeeded b = succeed b

  unfoldable pub run : List Event → CircuitBreaker → CircuitBreaker
  unfolding step
  run [] b = b
  run (ev ∷ evs) b = run evs (step ev b)
