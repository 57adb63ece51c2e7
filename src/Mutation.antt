-- ===== src/Mutation.antt =====
-- The mutations of the package query.
pub mod Plain
pub mod Optimistic
mod Tests
use vais_lang.Prelude.{Option, none}

pub data MutationStatus : Type 0 where
  idle loading error success : MutationStatus

-- What a handle shows; `data_of` and `error_of` are `none` for undefined and null.
pub record MutationResult (T E : Type 0) : Type 0 where
  pub status : MutationStatus
  pub data_of : Option T
  pub error_of : Option E

abbrev pub idle_result : {T E : Type 0} → MutationResult T E
idle_result = record { status = idle; data_of = none; error_of = none }

-- The calls of the callbacks. What they throw is caught.
pub data Callback (T E : Type 0) : Type 0 where
  on_success : T → Callback T E
  on_error : Option E → Callback T E
  on_settled : Option T → Option E → Callback T E

abbrev pub reset : {T E : Type 0} → MutationResult T E → MutationResult T E
reset handle = idle_result
