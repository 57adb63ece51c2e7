-- ===== src/Fallback/Retry.antt =====
-- `loadWithFallback`. `loader n` is what the attempt number `n` does; the errors are those of `onError`.
pub mod Laws
pub mod Bounds
use vais_lang.Prelude.{
  refl, inr, inl, ◌⊎◌, ◌≡◌, ℕ, zero, suc, ◌+◌, ◌*◌, ◌^◌, ◌-◌, Option, none, some, List, [], ◌∷◌,
  leb, ltb, if◌then◌else◌,
}

-- What a call of the loader does: it settles in time, or the timer fires first.
pub data Attempt (T E : Type 0) : Type 0 where
  resolves : T → Attempt T E
  rejects : E → Attempt T E
  hangs : Attempt T E

pub data Outcome (T E : Type 0) : Type 0 where
  returned : T → Outcome T E
  thrown : E → Outcome T E

pub Outcome-cases :
    {T E : Type 0} (o : Outcome T E)
    → ((value : T) × (o ≡ returned value)) ⊎ ((e : E) × (o ≡ thrown e))
Outcome-cases (returned value) = inl (value, refl)
Outcome-cases (thrown e) = inr (e, refl)

-- What a call does: its outcome, the calls of `onError` and the delays, in their order.
pub record Load (T E : Type 0) : Type 0 where
  pub outcome : Outcome T E
  pub errors : List (E × ℕ)
  pub delays : List ℕ

pub record FallbackOptions : Type 0 where
  pub timeout : ℕ
  pub retries : ℕ
  pub retry_delay : ℕ

module _ {T E : Type 0} (timed_out : ℕ → E) (options : FallbackOptions)
    (loader : ℕ → Attempt T E) where
  -- `timed_out ms` is the error of a timer of `ms` milliseconds.
  abbrev pub with_timeout : Attempt T E → ℕ → Outcome T E
  with_timeout (resolves value) ms = returned value
  with_timeout (rejects e) ms = thrown e
  with_timeout hangs ms = thrown (timed_out ms)

  -- What follows the loop.
  abbrev pub exhausted : Option T → E → Outcome T E
  exhausted (some value) last_error = returned value
  exhausted none last_error = thrown last_error

  -- The loop, from the attempt given.
  unfoldable pub attempt_loop : ℕ → ℕ → Option T → E → Load T E
  attempt_loop zero attempt fallback last_error = record {
    outcome = exhausted fallback last_error;
    errors = [];
    delays = [];
  }
  attempt_loop (suc fuel) attempt fallback last_error =
      if leb attempt (options.retries + 1)
      then (elim (with_timeout (loader attempt) options.timeout) [
        | returned value ↦ record { outcome = returned value; errors = []; delays = [] }
        | thrown e ↦
            let rest = attempt_loop fuel (attempt + 1) fallback e in
            if ltb options.retries attempt
            then record { outcome = exhausted fallback e; errors = (e, attempt) ∷ []; delays = [] }
            else record {
              outcome = rest.outcome;
              errors = (e, attempt) ∷ rest.errors;
              delays = options.retry_delay * 2 ^ (attempt - 1) ∷ rest.delays;
            }
      ])
      else record { outcome = exhausted fallback last_error; errors = []; delays = [] }

  unfoldable pub load_with_fallback : Option T → E → Load T E
  unfolding attempt_loop
  load_with_fallback fallback unknown_error =
      attempt_loop (options.retries + 2) 1 fallback unknown_error
