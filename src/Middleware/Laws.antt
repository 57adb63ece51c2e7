-- ===== src/Middleware/Laws.antt =====
-- Chains of middleware in a row.
use vais_lang.Prelude.{◌≡◌, refl, List, [], ◌∷◌, ◌++◌, if◌then◌else◌}
use vais_lang.Middleware.{
  Handler, Answer, thrown, next, response, MiddlewareResult, run_middleware_chain,
}

module _ {Locals Response : Type 0} (server_error : Response) where
  -- The second chain, with the locals that the first leaves, where the first was completed.
  abbrev pub then_run :
      MiddlewareResult Locals Response
      → List (Handler Locals Response)
      → MiddlewareResult Locals Response
  then_run first mws =
      if first.completed then run_middleware_chain server_error mws first.locals else first

  run_step :
      (mw : Handler Locals Response) (answer : Answer Response) (locals : Locals)
      (mws ns : List (Handler Locals Response))
      → (mw locals).0 ≡ answer
      → run_middleware_chain server_error (mws ++ ns) (mw locals).1
        ≡ then_run (run_middleware_chain server_error mws (mw locals).1) ns
      → run_middleware_chain server_error (mw ∷ mws ++ ns) locals
        ≡ then_run (run_middleware_chain server_error (mw ∷ mws) locals) ns
  unfolding run_middleware_chain
  run_step mw thrown locals mws ns e h = rw (e, run_middleware_chain) refl
  run_step mw next locals mws ns e h = rw (e, run_middleware_chain) h
  run_step mw (response r) locals mws ns e h = rw (e, run_middleware_chain) refl

  -- Two chains in a row are the first, and then the second with the locals that the first left where
  -- every handler of the first returned Next; where one of them returned a response or threw, the
  -- result is that of the first chain, and no handler of the second is run.
  pub run_middleware_chain-append :
      (mws ns : List (Handler Locals Response)) (locals : Locals)
      → run_middleware_chain server_error (mws ++ ns) locals
        ≡ then_run (run_middleware_chain server_error mws locals) ns
  unfolding run_middleware_chain
  run_middleware_chain-append [] ns locals = refl
  run_middleware_chain-append (mw ∷ mws) ns locals =
      run_step mw (mw locals).0 locals mws ns refl
        (run_middleware_chain-append mws ns (mw locals).1)
