-- ===== src/Mutation/Plain/Laws.antt =====
-- What a mutation does when an attempt resolves, and when none does.
use vais_lang.Prelude.{
  false, ℕ, zero, suc, ◌+◌, ◌≤◌, ◌<◌, Option, none, some, [], ◌∷◌, Bool-cases, inl, inr, ◌≡◌, refl,
  arith, leb, ltb, ◌&&◌, subst, true, ap,
}
use vais_lang.Mutation.{loading, MutationResult, error, success, on_success, on_error, on_settled}
use vais_lang.Mutation.Plain.{
  finish, Attempt, Attempts, Executed, resolves, rejects, attempt_from, execute,
}

-- The attempts from `i` on, `count` of them, are rejected with these errors.
abbrev pub RejectFrom : {T E : Type 0} → (ℕ → Attempt T E) → (ℕ → E) → ℕ → ℕ → Type 0
RejectFrom attempts e i zero = Unit
RejectFrom attempts e i (suc count) =
    (attempts i ≡ rejects (e i)) × RejectFrom attempts e (i + 1) count

-- The last of these errors, and the one before them if there is none.
abbrev pub last_of : {E : Type 0} → (ℕ → E) → ℕ → ℕ → Option E → Option E
last_of e i zero before = before
last_of e i (suc count) before = last_of e (i + 1) count (some (e i))

-- A success, unless the value is undefined: then the failure with the error given.
abbrev pub IsExecuted : {T E : Type 0} → Option T → Option E → Executed T E → Type 0
IsExecuted (some value) last_error x =
    (x.handle.status ≡ success)
    × (x.handle.data_of ≡ some value)
    × (x.callbacks ≡ on_success value ∷ on_settled (some value) none ∷ [])
IsExecuted none last_error x =
    (x.handle.status ≡ error)
    × (x.handle.error_of ≡ last_error)
    × (x.callbacks ≡ on_error last_error ∷ on_settled none last_error ∷ [])

module _ {T E : Type 0} (retry_count retry_delay : ℕ) (attempts : ℕ → Attempt T E) (e : ℕ → E) where
  attempt_from_resolves :
      (count fuel i : ℕ) (result : Option T) (before : Option E)
      → i + count ≤ retry_count
      → count < fuel
      → RejectFrom attempts e i count
      → attempts (i + count) ≡ resolves result
      → let a = attempt_from retry_count retry_delay attempts fuel i before in
        (a.succeeded ≡ some result) × (a.last_error ≡ last_of e i count before)
  unfolding attempt_from
  attempt_from_resolves count zero i result before h k f s = absurd (omega arith)
  attempt_from_resolves zero (suc fuel) i result before h k f s =
      let now : attempts i ≡ resolves result =
        subst (λ n. attempts n ≡ resolves result) (omega arith) s in
      let inside : leb i retry_count ≡ true = ground (arith, h) in
      rw (attempt_from, inside, now) (refl, refl)
  attempt_from_resolves (suc count) (suc fuel) i result before h k (p, f) s =
      let inside : leb i retry_count ≡ true = ground (arith, h) in
      let next =
        attempt_from_resolves count fuel (i + 1) result (some (e i)) (omega arith) (omega arith) f
          (subst (λ n. attempts n ≡ resolves result) (omega arith) s) in
      elim (Bool-cases (ltb i retry_count && ltb 0 retry_delay)) [
        | inl w ↦ rw (attempt_from, inside, p, w) next
        | inr w ↦ rw (attempt_from, inside, p, w) next
      ]

  attempt_from_fails :
      (count fuel i : ℕ) (before : Option E)
      → i + count ≡ retry_count + 1
      → count < fuel
      → RejectFrom attempts e i count
      → let a = attempt_from retry_count retry_delay attempts fuel i before in
        (a.succeeded ≡ none) × (a.last_error ≡ last_of e i count before)
  unfolding attempt_from
  attempt_from_fails count zero i before h k f = absurd (omega arith)
  attempt_from_fails zero (suc fuel) i before h k f =
      let outside : leb i retry_count ≡ false = ground (arith, h) in
      rw (attempt_from, outside) (refl, refl)
  attempt_from_fails (suc count) (suc fuel) i before h k (p, f) =
      let inside : leb i retry_count ≡ true = ground (arith, h) in
      let next = attempt_from_fails count fuel (i + 1) (some (e i)) (omega arith) (omega arith) f in
      elim (Bool-cases (ltb i retry_count && ltb 0 retry_delay)) [
        | inl w ↦ rw (attempt_from, inside, p, w) next
        | inr w ↦ rw (attempt_from, inside, p, w) next
      ]

  finish_resolved :
      (result : Option T) (last : Option E) (handle : MutationResult T E) (a : Attempts T E)
      → (a.succeeded ≡ some result) × (a.last_error ≡ last)
      → IsExecuted result last (finish retry_count retry_delay attempts handle a)
  finish_resolved none last handle a (p, q) =
      rw (finish, p) (refl, q, ap (λ l. on_error l ∷ on_settled none l ∷ []) q)
  finish_resolved (some value) last handle a (p, q) = rw (finish, p) (refl, refl, refl)

  finish_rejected :
      (last : Option E) (handle : MutationResult T E) (a : Attempts T E)
      → (a.succeeded ≡ none) × (a.last_error ≡ last)
      → IsExecuted none last (finish retry_count retry_delay attempts handle a)
  finish_rejected last handle a (p, q) =
      rw (finish, p) (refl, q, ap (λ l. on_error l ∷ on_settled none l ∷ []) q)

  abbrev started : MutationResult T E → MutationResult T E
  started handle = record handle { status = loading; error_of = none }

  -- When `count` attempts are rejected, at most as many as there are retries, and the next one
  -- resolves: the mutation succeeds with that value; but if the value is undefined it fails, with the
  -- last error of the attempts before or, if there is none, with the error undefined.
  pub execute_resolves :
      (count : ℕ) (result : Option T) (handle : MutationResult T E)
      → count ≤ retry_count
      → RejectFrom attempts e 0 count
      → attempts count ≡ resolves result
      → IsExecuted result (last_of e 0 count none) (execute retry_count retry_delay attempts handle)
  unfolding execute
  execute_resolves count result handle h f s =
      finish_resolved result (last_of e 0 count none) (started handle)
        (attempt_from retry_count retry_delay attempts (retry_count + 2) 0 none)
        (attempt_from_resolves count (retry_count + 2) 0 result none (omega arith) (omega arith) f
          (subst (λ n. attempts n ≡ resolves result) (omega arith) s))

  -- When all attempts are rejected, the mutation fails with the last error.
  pub execute_fails :
      (handle : MutationResult T E)
      → RejectFrom attempts e 0 (retry_count + 1)
      → IsExecuted none
          (last_of e 0 (retry_count + 1) none)
          (execute retry_count retry_delay attempts handle)
  unfolding execute
  execute_fails handle f =
      finish_rejected (last_of e 0 (retry_count + 1) none) (started handle)
        (attempt_from retry_count retry_delay attempts (retry_count + 2) 0 none)
        (attempt_from_fails (retry_count + 1) (retry_count + 2) 0 none (omega arith) (omega arith)
          f)
