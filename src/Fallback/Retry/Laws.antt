-- ===== src/Fallback/Retry/Laws.antt =====
-- What a call gives when an attempt succeeds, and when none does.
use vais_lang.Prelude.{
  false, true, ℕ, zero, suc, ◌+◌, ◌*◌, ◌^◌, ◌-◌, ◌≤◌, ◌<◌, Option, List, [], ◌∷◌, leb, ltb, ◌≡◌,
  refl, arith, subst,
}
use vais_lang.Fallback.Retry.{
  Attempt, Outcome, FallbackOptions, returned, thrown, with_timeout, attempt_loop,
  load_with_fallback, exhausted,
}

-- The calls of `onError` at the attempts `i`, `i + 1`, ..., `count` of them.
abbrev pub reports : {E : Type 0} → (ℕ → E) → ℕ → ℕ → List (E × ℕ)
reports e i zero = []
reports e i (suc count) = (e i, i) ∷ reports e (i + 1) count

-- The delays after these attempts.
abbrev pub backoffs : ℕ → ℕ → ℕ → List ℕ
backoffs d i zero = []
backoffs d i (suc count) = d * 2 ^ (i - 1) ∷ backoffs d (i + 1) count

-- The attempts from `i` on, `count` of them, fail with these errors.
abbrev pub FailFrom : {T E : Type 0} → (ℕ → Outcome T E) → (ℕ → E) → ℕ → ℕ → Type 0
FailFrom attempt e i zero = Unit
FailFrom attempt e i (suc count) = (attempt i ≡ thrown (e i)) × FailFrom attempt e (i + 1) count

module _ {T E : Type 0} (timed_out : ℕ → E) (options : FallbackOptions) (loader : ℕ → Attempt T E)
    (fallback : Option T) (e : ℕ → E) where
  abbrev pub attempted : ℕ → Outcome T E
  attempted n = with_timeout timed_out options loader (loader n) options.timeout

  loop_succeeds :
      (count fuel i : ℕ) (value : T) (last_error : E)
      → i + count ≤ options.retries + 1
      → count < fuel
      → FailFrom attempted e i count
      → attempted (i + count) ≡ returned value
      → attempt_loop timed_out options loader fuel i fallback last_error ≡ record {
        outcome = returned value;
        errors = reports e i count;
        delays = backoffs options.retry_delay i count;
      }
  unfolding attempt_loop
  loop_succeeds count zero i value last_error h k f s = absurd (omega arith)
  loop_succeeds zero (suc fuel) i value last_error h k f s =
      let now : attempted i ≡ returned value =
        subst (λ n. attempted n ≡ returned value) (omega arith) s in
      let inside : leb i (options.retries + 1) ≡ true = ground (arith, h) in
      rw (attempt_loop, inside, now) refl
  loop_succeeds (suc count) (suc fuel) i value last_error h k (p, f) s =
      let inside : leb i (options.retries + 1) ≡ true = ground (arith, h) in
      let more : ltb options.retries i ≡ false = ground (arith, h) in
      let next =
        loop_succeeds count fuel (i + 1) value (e i) (omega arith) (omega arith) f
          (subst (λ n. attempted n ≡ returned value) (omega arith) s) in
      rw (attempt_loop, inside, p, more, next) refl

  loop_exhausted :
      (count fuel i : ℕ) (last_error : E)
      → i + count ≡ options.retries + 1
      → count < fuel
      → FailFrom attempted e i (suc count)
      → attempt_loop timed_out options loader fuel i fallback last_error ≡ record {
        outcome = exhausted timed_out options loader fallback (e (options.retries + 1));
        errors = reports e i (suc count);
        delays = backoffs options.retry_delay i count;
      }
  unfolding attempt_loop
  loop_exhausted count zero i last_error h k f = absurd (omega arith)
  loop_exhausted zero (suc fuel) i last_error h k (p, f) =
      let inside : leb i (options.retries + 1) ≡ true = ground (arith, h) in
      let more : ltb options.retries i ≡ true = ground (arith, h) in
      let final : options.retries + 1 ≡ i = omega (arith, h) in
      rw (attempt_loop, inside, p, more, final) refl
  loop_exhausted (suc count) (suc fuel) i last_error h k (p, f) =
      let inside : leb i (options.retries + 1) ≡ true = ground (arith, h) in
      let more : ltb options.retries i ≡ false = ground (arith, h) in
      let next = loop_exhausted count fuel (i + 1) (e i) (omega arith) (omega arith) f in
      rw (attempt_loop, inside, p, more, next) refl

  -- When the first `count` attempts fail and the next one succeeds, with `count` at most `retries`, the
  -- call returns the value, after a report and a delay for each failure.
  pub load_with_fallback-returned :
      (count : ℕ) (value : T) (unknown_error : E)
      → count ≤ options.retries
      → FailFrom attempted e 1 count
      → attempted (1 + count) ≡ returned value
      → load_with_fallback timed_out options loader fallback unknown_error ≡ record {
        outcome = returned value;
        errors = reports e 1 count;
        delays = backoffs options.retry_delay 1 count;
      }
  unfolding load_with_fallback
  load_with_fallback-returned count value unknown_error h f s =
      loop_succeeds count (options.retries + 2) 1 value unknown_error (omega arith) (omega arith) f
        s

  -- When all `retries + 1` attempts fail, the call returns the fallback, or throws the last error if
  -- there is none, after a report for each failure and a delay after each but the last.
  pub load_with_fallback-exhausted :
      (unknown_error : E)
      → FailFrom attempted e 1 (suc options.retries)
      → load_with_fallback timed_out options loader fallback unknown_error ≡ record {
        outcome = exhausted timed_out options loader fallback (e (options.retries + 1));
        errors = reports e 1 (suc options.retries);
        delays = backoffs options.retry_delay 1 options.retries;
      }
  unfolding load_with_fallback
  load_with_fallback-exhausted unknown_error f =
      loop_exhausted options.retries (options.retries + 2) 1 unknown_error (omega arith)
        (omega arith) f
