-- ===== src/Fallback/Retry/Bounds.antt =====
-- How often the loader is called, and how long the delays are together.
use vais_lang.Prelude.{
  Bool-cases, true, false, length, ◌-◌, subst, ℕ, zero, suc, ◌+◌, ◌*◌, ◌^◌, ◌≤◌, List, [], ◌∷◌, ◌≡◌,
  arith,
}
use vais_lang.Fallback.Retry.{
  exhausted, inr, returned, inl, with_timeout, Outcome-cases, leb, ltb, attempt_loop,
  load_with_fallback, Outcome, Load, Option, Attempt, FallbackOptions,
}

abbrev pub sum : List ℕ → ℕ
sum [] = 0
sum (n ∷ ns) = n + sum ns

pow_twice : (d m : ℕ) → d * 2 ^ suc m ≡ d * 2 ^ m + d * 2 ^ m
pow_twice d m = grind arith

pow_mono : (d m r : ℕ) → d * 2 ^ m ≤ d * 2 ^ (m + r)
pow_mono d m zero = grind arith
pow_mono d m (suc r) = grind (arith, pow_mono d m r, pow_twice d (m + r))

pow_below : (d m r : ℕ) → m ≤ r → d * 2 ^ m ≤ d * 2 ^ r
pow_below d m r h = subst (λ k. d * 2 ^ m ≤ d * 2 ^ k) (omega (arith, h)) (pow_mono d m (r - m))

module _ {T E : Type 0} (timed_out : ℕ → E) (options : FallbackOptions) (loader : ℕ → Attempt T E)
    (fallback : Option T) where
  -- The attempts from the number `m + 1` on: how many fail, and how long the delays are.
  abbrev Bounded : ℕ → Load T E → Type 0
  Bounded m l =
      (length l.errors + m ≤ options.retries + 1)
      × (sum l.delays + options.retry_delay * 2 ^ m ≤ options.retry_delay * 2 ^ options.retries)

  no_more :
      (m : ℕ) (o : Outcome T E)
      → m ≤ options.retries
      → Bounded m (record { outcome = o; errors = []; delays = [] })
  no_more m o h =
      (omega (arith, h), omega (arith, pow_below options.retry_delay m options.retries h))

  failed_once :
      (m : ℕ) (e : E) (rest : Load T E)
      → ltb options.retries (m + 1) ≡ false
      → Bounded (m + 1) rest
      → Bounded m (record {
        outcome = rest.outcome;
        errors = (e, m + 1) ∷ rest.errors;
        delays = options.retry_delay * 2 ^ (m + 1 - 1) ∷ rest.delays;
      })
  failed_once m e rest h (p, q) =
      let same : m + 1 - 1 ≡ m = omega arith in
      (omega (arith, p), rw same (grind (arith, q, pow_twice options.retry_delay m)))

  attempt_loop-Bounded :
      (fuel m : ℕ) (last_error : E)
      → m ≤ options.retries
      → Bounded m (attempt_loop timed_out options loader fuel (m + 1) fallback last_error)
  unfolding attempt_loop
  attempt_loop-Bounded zero m last_error h =
      no_more m (exhausted timed_out options loader fallback last_error) h
  attempt_loop-Bounded (suc fuel) m last_error h =
      let inside : leb (m + 1) (options.retries + 1) ≡ true = ground (arith, h) in
      elim (Outcome-cases
        (with_timeout timed_out options loader (loader (m + 1)) options.timeout)) [
          | inl (value, e) ↦ rw (attempt_loop, inside, e) (no_more m (returned value) h)
          | inr (err, e) ↦ elim (Bool-cases (ltb options.retries (m + 1))) [
            | inl k ↦
                rw (attempt_loop, inside, e, k)
                  (
                    omega (arith, h),
                    omega (arith, pow_below options.retry_delay m options.retries h),
                  )
            | inr k ↦
                rw (attempt_loop, inside, e, k)
                  (failed_once m err
                    (attempt_loop timed_out options loader fuel (m + 1 + 1) fallback err) k
                    (attempt_loop-Bounded fuel (m + 1) err (ground (arith, k))))
          ]
        ]

  -- Whatever the loader does, `onError` is called at most `retries + 1` times, and the delays together
  -- are shorter than `retryDelay * 2 ^ retries`, or 0 with a `retryDelay` of 0.
  pub load_with_fallback-Bounded :
      (unknown_error : E)
      → let l = load_with_fallback timed_out options loader fallback unknown_error in
        (length l.errors ≤ options.retries + 1)
        × (sum l.delays + options.retry_delay ≤ options.retry_delay * 2 ^ options.retries)
  unfolding load_with_fallback
  load_with_fallback-Bounded unknown_error =
      let (p, q) = attempt_loop-Bounded (options.retries + 2) 0 unknown_error (omega arith) in
      (omega (arith, p), grind (arith, q))
