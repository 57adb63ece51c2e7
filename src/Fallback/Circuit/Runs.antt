-- ===== src/Fallback/Circuit/Runs.antt =====
-- When the circuit opens, and what it does while it is open.
use vais_lang.Prelude.{
  ◌∙◌, ap, length, Bool-cases, inl, inr, Option, leb, ℕ, suc, ◌<◌, ◌≤◌, ◌+◌, ◌≡◌, refl, some, none,
  List, [], ◌∷◌, arith, if◌then◌else◌,
}
use vais_lang.Fallback.Circuit.{
  CircuitBreaker, CircuitBreakerOptions, Event, closed, opened, read, started, failed, succeeded,
  get_state, start_call, succeed, fail, run,
}

abbrev pub failures : List ℕ → List Event
failures [] = []
failures (t ∷ ts) = failed t ∷ failures ts

-- Each event is at `now` or later, no event is before the one in front of it, and all are before `limit`.
abbrev pub IsBetween : ℕ → ℕ → List Event → Type 0
IsBetween now limit [] = Unit
IsBetween now limit (read t ∷ evs) = (now ≤ t) × (t < limit) × IsBetween t limit evs
IsBetween now limit (started t ∷ evs) = (now ≤ t) × (t < limit) × IsBetween t limit evs
IsBetween now limit (failed t ∷ evs) = (now ≤ t) × (t < limit) × IsBetween t limit evs
IsBetween now limit (succeeded ∷ evs) = IsBetween now limit evs

module _ (options : CircuitBreakerOptions) where
  -- How many calls of `call` call their function.
  abbrev pub calls_made : List Event → CircuitBreaker → ℕ
  calls_made [] b = 0
  calls_made (started now ∷ evs) b =
      let (c, made) = start_call options now b in
      let rest = calls_made evs c in if made then suc rest else rest
  calls_made (read now ∷ evs) b = calls_made evs (get_state options now b)
  calls_made (failed now ∷ evs) b = calls_made evs (fail options now b)
  calls_made (succeeded ∷ evs) b = calls_made evs (succeed options b)

  abbrev open_since : ℕ → ℕ → CircuitBreaker
  open_since n t = record { state = opened; failure_count = n; opened_at = some t }

  read_open :
      (n t now limit : ℕ)
      → limit ≤ t + options.reset_timeout
      → now < limit
      → get_state options now (open_since n t) ≡ open_since n t
  unfolding get_state
  read_open n t now limit h k = ground (arith, h, k)

  stays_open :
      (evs : List Event) (n t now limit : ℕ)
      → t ≤ now
      → limit ≤ t + options.reset_timeout
      → IsBetween now limit evs
      → (calls_made evs (open_since n t) ≡ 0) × ((run options evs (open_since n t)).state ≡ opened)
  unfolding run
  stays_open [] n t now limit h k i = (refl, refl)
  stays_open (read u ∷ evs) n t now limit h k (p, q, i) =
      rw (read_open n t u limit k q, run) (stays_open evs n t u limit (omega arith) k i)
  stays_open (started u ∷ evs) n t now limit h k (p, q, i) =
      rw (read_open n t u limit k q, run) (stays_open evs n t u limit (omega arith) k i)
  stays_open (failed u ∷ evs) n t now limit h k (p, q, i) =
      elim (Bool-cases (leb options.threshold (n + 1))) [
        | inl e ↦ rw (e, run) (stays_open evs (n + 1) u u limit (omega arith) (omega arith) i)
        | inr e ↦ rw (e, run) (stays_open evs (n + 1) t u limit (omega arith) k i)
      ]
  stays_open (succeeded ∷ evs) n t now limit h k i = stays_open evs 0 t now limit h k i

  -- A circuit that opened at `t` lets no call through and stays open for the events of the next
  -- `reset_timeout` milliseconds, whichever of the calls under way return or throw.
  pub run-opened :
      (evs : List Event) (b : CircuitBreaker) (t : ℕ)
      → b.state ≡ opened
      → b.opened_at ≡ some t
      → IsBetween t (t + options.reset_timeout) evs
      → (calls_made evs b ≡ 0) × ((run options evs b).state ≡ opened)
  run-opened evs b t h k i =
      let b_is : b ≡ open_since b.failure_count t =
        ap (λ s. record { state = s; failure_count = b.failure_count; opened_at = b.opened_at }) h
        ∙ ap (λ o. record { state = opened; failure_count = b.failure_count; opened_at = o }) k in
      rw b_is (
        stays_open evs b.failure_count t t (t + options.reset_timeout) (omega arith) (omega arith)
          i)

  fail_open :
      (ts : List ℕ) (n : ℕ) (o : Option ℕ)
      → (run options
          (failures ts)
          (record { state = opened; failure_count = n; opened_at = o })).state
        ≡ opened
  unfolding run
  fail_open [] n o = refl
  fail_open (u ∷ ts) n o = elim (Bool-cases (leb options.threshold (n + 1))) [
    | inl e ↦ rw (e, run) (fail_open ts (n + 1) (some u))
    | inr e ↦ rw (e, run) (fail_open ts (n + 1) o)
  ]

  -- A closed circuit that has counted fewer failures than the threshold opens with exactly the
  -- failure that reaches the threshold.
  pub run-failures :
      (ts : List ℕ) (n : ℕ)
      → n < options.threshold
      → (run options
          (failures ts)
          (record { state = closed; failure_count = n; opened_at = none })).state
        ≡ (if leb options.threshold (n + length ts) then opened else closed)
  unfolding run
  run-failures [] n h = ground arith
  run-failures (u ∷ ts) n h = elim (Bool-cases (leb options.threshold (n + 1))) [
    | inl e ↦ rw (e, run, fail_open ts (n + 1) (some u)) (ground (arith, e))
    | inr e ↦ rw (e, run, run-failures ts (n + 1) (ground (arith, e, h))) (ground arith)
  ]
