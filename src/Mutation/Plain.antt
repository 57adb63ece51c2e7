-- ===== src/Mutation/Plain.antt =====
-- query/src/mutation.ts: createMutation. `attempts n` is what the call number `n` of the function of
-- the mutation does; `none` is the value undefined.
pub mod Laws
use vais_lang.Prelude.{
  ℕ, zero, suc, ◌+◌, Option, none, some, List, [], ◌∷◌, ◌≡◌, leb, ltb, ◌&&◌, if◌then◌else◌,
}
use vais_lang.Mutation.{
  MutationResult, Callback, loading, error, success, idle_result, on_success, on_error, on_settled,
}

pub data Attempt (T E : Type 0) : Type 0 where
  resolves : Option T → Attempt T E
  rejects : E → Attempt T E

-- After the loop: the last error, the result of a success, and the delays that were made.
pub record Attempts (T E : Type 0) : Type 0 where
  pub last_error : Option E
  pub succeeded : Option (Option T)
  pub delays : List ℕ

-- What a call of `execute` leaves: the handle, and the callbacks and the delays in order.
pub record Executed (T E : Type 0) : Type 0 where
  pub handle : MutationResult T E
  pub callbacks : List (Callback T E)
  pub delays : List ℕ

-- What the promise of `execute` comes to; the error may be undefined.
pub data Outcome (T E : Type 0) : Type 0 where
  returned : T → Outcome T E
  thrown : Option E → Outcome T E

abbrev pub outcome_of : {T E : Type 0} → Attempts T E → Outcome T E
outcome_of a = elim a.succeeded [
  | none ↦ thrown a.last_error
  | some none ↦ thrown a.last_error
  | some (some result) ↦ returned result
]

-- The option onMutate: left out, or what it does when it is called.
pub data OnMutate (C : Type 0) : Type 0 where
  left_out throws : OnMutate C
  gives : Option C → OnMutate C

-- The context, which each callback is given; none if onMutate throws.
abbrev pub context_of : {C : Type 0} → OnMutate C → Option C
context_of left_out = none
context_of throws = none
context_of (gives context) = context

pub record Run (T E C : Type 0) : Type 0 where
  pub executed : Executed T E
  pub context : Option C
  pub outcome : Outcome T E

module _ {T E : Type 0} (retry_count retry_delay : ℕ) (attempts : ℕ → Attempt T E) where
  -- The loop, with fuel for the attempts that are left.
  unfoldable pub attempt_from : ℕ → ℕ → Option E → Attempts T E
  attempt_from zero attempt last_error = record {
    last_error = last_error;
    succeeded = none;
    delays = [];
  }
  attempt_from (suc fuel) attempt last_error =
      if leb attempt retry_count
      then (elim (attempts attempt) [
        | resolves result ↦ record { last_error = last_error; succeeded = some result; delays = [] }
        | rejects e ↦
            let rest = attempt_from fuel (attempt + 1) (some e) in
            if ltb attempt retry_count && ltb 0 retry_delay
            then record rest { delays = retry_delay ∷ rest.delays }
            else rest
      ])
      else record { last_error = last_error; succeeded = none; delays = [] }

  abbrev pub failed : MutationResult T E → Option E → List ℕ → Executed T E
  failed handle e delays = record {
    handle = record handle { status = error; error_of = e };
    callbacks = on_error e ∷ on_settled none e ∷ [];
    delays = delays;
  }

  -- `if (succeeded && result !== undefined) ... else ...`
  abbrev pub finish : MutationResult T E → Attempts T E → Executed T E
  finish handle a = elim a.succeeded [
    | none ↦ failed handle a.last_error a.delays
    | some none ↦ failed handle a.last_error a.delays
    | some (some result) ↦ record {
      handle = record handle { status = success; data_of = some result };
      callbacks = on_success result ∷ on_settled (some result) none ∷ [];
      delays = a.delays;
    }
  ]

  unfoldable pub execute : MutationResult T E → Executed T E
  unfolding attempt_from
  execute handle =
      finish (record handle { status = loading; error_of = none })
        (attempt_from (retry_count + 2) 0 none)

  -- All of a call of `mutateAsync`. That onMutate throws does not keep the attempts from being made.
  unfoldable pub mutate_async : {C : Type 0} → OnMutate C → MutationResult T E → Run T E C
  unfolding execute
  mutate_async on_mutate handle = record {
    executed = execute handle;
    context = context_of on_mutate;
    outcome = outcome_of (attempt_from (retry_count + 2) 0 none);
  }
