-- ===== src/Fallback/Circuit/Valid.antt =====
-- The invariant of the circuit breaker.
use vais_lang.Prelude.{
  Bool-cases, inl, inr, Option, ◌+◌, leb, ◌≢◌, ℕ, ◌<◌, ◌≡◌, refl, some, none, List, [], ◌∷◌,
  is_some, arith,
}
use vais_lang.Fallback.Circuit.{
  CircuitState, CircuitBreaker, CircuitBreakerOptions, Event, closed, opened, half_open, read,
  started, failed, succeeded, create_circuit_breaker, get_state, succeed, fail, step, run, is_open,
}

-- The time of opening is kept while the circuit is open, and only then; while it is closed, fewer
-- calls have failed in a row than the threshold.
pub record IsValid (options : CircuitBreakerOptions) (b : CircuitBreaker) : Type 0 where
  pub opening : is_some b.opened_at ≡ is_open options b
  pub bounded : b.state ≡ closed → b.failure_count < options.threshold

module _ (options : CircuitBreakerOptions) where
  abbrev breaker : CircuitState → ℕ → Option ℕ → CircuitBreaker
  breaker s n o = record { state = s; failure_count = n; opened_at = o }

  -- The invariant at a circuit that is not closed.
  not_closed :
      (b : CircuitBreaker)
      → is_some b.opened_at ≡ is_open options b
      → b.state ≢ closed
      → IsValid options b
  not_closed b h n = record { opening = h; bounded = λ e. absurd (n e) }

  get_state-IsValid :
      (now : ℕ) (s : CircuitState) (n : ℕ) (o : Option ℕ)
      → IsValid options (breaker s n o)
      → IsValid options (get_state options now (breaker s n o))
  unfolding get_state
  get_state-IsValid now closed n o v = v
  get_state-IsValid now half_open n o v = v
  get_state-IsValid now opened n none v = v
  get_state-IsValid now opened n (some t) v =
      elim (Bool-cases (leb (t + options.reset_timeout) now)) [
        | inl e ↦ rw e (not_closed (breaker half_open n none) refl cc)
        | inr e ↦ rw e v
      ]

  succeed-IsValid :
      (s : CircuitState) (n : ℕ) (o : Option ℕ)
      → 0 < options.threshold
      → IsValid options (breaker s n o)
      → IsValid options (succeed options (breaker s n o))
  unfolding succeed
  succeed-IsValid closed n o h v = record { opening = v.opening; bounded = λ e. h }
  succeed-IsValid half_open n o h v = record { opening = refl; bounded = λ e. h }
  succeed-IsValid opened n o h v = not_closed (breaker opened 0 o) v.opening cc

  fail-IsValid :
      (now : ℕ) (s : CircuitState) (n : ℕ) (o : Option ℕ)
      → IsValid options (breaker s n o)
      → IsValid options (fail options now (breaker s n o))
  unfolding fail
  fail-IsValid now half_open n o v = not_closed (breaker opened (n + 1) (some now)) refl cc
  fail-IsValid now opened n o v = elim (Bool-cases (leb options.threshold (n + 1))) [
    | inl e ↦ rw e (not_closed (breaker opened (n + 1) (some now)) refl cc)
    | inr e ↦ rw e (not_closed (breaker opened (n + 1) o) v.opening cc)
  ]
  fail-IsValid now closed n o v = elim (Bool-cases (leb options.threshold (n + 1))) [
    | inl e ↦ rw e (not_closed (breaker opened (n + 1) (some now)) refl cc)
    | inr e ↦ rw e (record { opening = v.opening; bounded = λ k. ground (arith, e) })
  ]

  step-IsValid :
      (ev : Event) (b : CircuitBreaker)
      → 0 < options.threshold
      → IsValid options b
      → IsValid options (step options ev b)
  unfolding step
  step-IsValid (read now) b h v = get_state-IsValid now b.state b.failure_count b.opened_at v
  step-IsValid (started now) b h v = get_state-IsValid now b.state b.failure_count b.opened_at v
  step-IsValid (failed now) b h v = fail-IsValid now b.state b.failure_count b.opened_at v
  step-IsValid succeeded b h v = succeed-IsValid b.state b.failure_count b.opened_at h v

  run_from-IsValid :
      (evs : List Event) (b : CircuitBreaker)
      → 0 < options.threshold
      → IsValid options b
      → IsValid options (run options evs b)
  unfolding run
  run_from-IsValid [] b h v = v
  run_from-IsValid (ev ∷ evs) b h v =
      run_from-IsValid evs (step options ev b) h (step-IsValid ev b h v)

  -- With a threshold that is not 0, every run of events keeps the invariant: the time of opening is
  -- there just while the circuit is open, and a closed circuit has counted fewer failures than the
  -- threshold.
  pub run-IsValid :
      (evs : List Event)
      → 0 < options.threshold
      → IsValid options (run options evs create_circuit_breaker)
  run-IsValid evs h =
      run_from-IsValid evs create_circuit_breaker h (record { opening = refl; bounded = λ e. h })
