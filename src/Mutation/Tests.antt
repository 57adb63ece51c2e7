-- ===== src/Mutation/Tests.antt =====
-- Mutations at concrete inputs.
use vais_lang.Prelude.{
  arith, ℕ, zero, suc, ◌+◌, String, Option, some, none, [], ◌≡◌, refl, or_else, if◌then◌else◌,
  str_eq,
}
use vais_lang.QueryCache
use vais_lang.QueryCache.{Cache, new_cache}
use vais_lang.QueryCache.Valid.{IsValid, new_cache-IsValid, set-IsValid}
use vais_lang.Mutation.{loading, MutationResult, idle_result, error}
use vais_lang.Mutation.Plain.{
  Attempt, resolves, rejects, attempt_from, execute, mutate_async, OnMutate, gives, throws, thrown,
}
use vais_lang.Mutation.Plain.Laws.{RejectFrom, IsExecuted, execute_resolves}
use vais_lang.Mutation.Optimistic.{Changed, begin, fail, data_at}
use vais_lang.Mutation.Optimistic.Laws.{fail-begin}

-- The function of a mutation that fails once and then returns nothing.
abbrev remove : ℕ → Attempt ℕ String
remove zero = rejects "down"
remove (suc n) = resolves none

abbrev idle_handle : MutationResult ℕ String
idle_handle = idle_result

void_is_an_error : (execute 3 10 (λ n. resolves none) idle_handle).handle.status ≡ error
unfolding execute
void_is_an_error = refl

abbrev kept : OnMutate ℕ
kept = gives (some 4)

abbrev failing : OnMutate ℕ
failing = throws

context_kept : (mutate_async 3 10 remove kept idle_handle).context ≡ some 4
unfolding mutate_async
context_kept = refl

last_error_thrown : (mutate_async 3 10 remove failing idle_handle).outcome ≡ thrown (some "down")
unfolding mutate_async attempt_from
last_error_thrown = refl

abbrev filled : Cache ℕ
filled = (QueryCache.set "todos" 5 none none 1 (new_cache 30 60)).0

filled-IsValid : IsValid filled
filled-IsValid = set-IsValid "todos" 5 none none 1 (new_cache-IsValid 30 60)

abbrev add_one : Option ℕ → ℕ → Option ℕ
add_one o n = some (or_else o 0 + n)

abbrev added : Changed ℕ ℕ String
added = record {
  cache = (QueryCache.set "todos" 7 none none 2 filled).0;
  handle = record { status = loading; data_of = none; error_of = none };
  notified = (QueryCache.set "todos" 7 none none 2 filled).1;
  callbacks = [];
}

fail-begin_example :
    (data_at "todos" (fail "todos" (some 5) "down" 9 filled added.handle).cache
      ≡ (if str_eq "todos" "todos" then data_at "todos" filled else data_at "todos" filled))
    × (data_at "todos" (fail "todos" (some 5) "down" 9 added.cache added.handle).cache
        ≡ data_at "todos" filled)
unfolding begin data_at
fail-begin_example =
    fail-begin "todos" add_one 2 idle_handle "down" 2 9 filled filled added "todos" filled-IsValid
      filled-IsValid refl

remove_rejects : RejectFrom remove (λ n. "down") 0 1
remove_rejects = (refl, tt)

execute_resolves_example : IsExecuted none (some "down") (execute 3 10 remove idle_handle)
execute_resolves_example =
    execute_resolves 3 10 remove (λ n. "down") 1 none idle_handle (omega arith) remove_rejects refl
