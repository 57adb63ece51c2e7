-- ===== src/Middleware.antt =====
-- kit/src/middleware/runner.ts: `runMiddlewareChain`. A handler is code of the application: it may
-- change the locals, which all handlers of a request share, and may throw after that. The request,
-- the URL and the parameters, which are the same for all handlers, are part of the handler here.
pub mod Laws
mod Tests
use vais_lang.Prelude.{Option, none, some, List, [], ◌∷◌, Bool, true, false}

-- What a handler does: it throws, returns `Next`, or returns a response.
pub data Answer (Response : Type 0) : Type 0 where
  thrown next : Answer Response
  response : Response → Answer Response

abbrev pub Handler : Type 0 → Type 0 → Type 0
Handler Locals Response = Locals → Answer Response × Locals

pub record MiddlewareResult (Locals Response : Type 0) : Type 0 where
  pub interrupt : Option Response
  pub locals : Locals
  pub completed : Bool

-- `server_error` is `new Response("Internal Server Error", { status: 500 })`.
module _ {Locals Response : Type 0} (server_error : Response) where
  unfoldable pub run_middleware_chain :
      List (Handler Locals Response) → Locals → MiddlewareResult Locals Response
  run_middleware_chain [] locals = record { interrupt = none; locals = locals; completed = true }
  run_middleware_chain (mw ∷ mws) locals =
      let (answer, left) = mw locals in
      elim answer [
        | thrown ↦ record { interrupt = some server_error; locals = left; completed = false }
        | response r ↦ record { interrupt = some r; locals = left; completed = false }
        | next ↦ run_middleware_chain mws left
      ]
