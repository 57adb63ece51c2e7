-- ===== src/Middleware/Tests.antt =====
-- A run of middleware, and its theorem at a concrete input.
use vais_lang.Prelude.{ℕ, suc, ◌≡◌, refl, some, [], ◌∷◌, false}
use vais_lang.Middleware.{Handler, next, response, run_middleware_chain}

abbrev passes : Handler ℕ ℕ
passes locals = (next, suc locals)

abbrev redirects : Handler ℕ ℕ
redirects locals = (response 302, suc locals)

stops :
    run_middleware_chain 500 (passes ∷ redirects ∷ passes ∷ []) 0
    ≡ record { interrupt = some 302; locals = 2; completed = false }
unfolding run_middleware_chain
stops = refl
