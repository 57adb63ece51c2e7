-- ===== src/EventBus.antt =====
-- federation/src/event-bus.ts: `createEventBus`. Handlers are numbers, and which of them
-- throw is an argument. `emit` returns the new state, the functions that it calls, in order, and whether
-- the last of them threw, which ends the loop; what these call is a later step, on the new state.
pub mod Laws
mod Tests
use vais_lang.Prelude.{
  some, none, ℕ, String, List, [], ◌∷◌, ◌++◌, map, filter, Bool, true, false, not, if◌then◌else◌,
  or_else, nat_beq, string_eq,
}
use vais_lang.Prelude.JsMap
use vais_lang.Prelude.JsMap.{JsMap}

pub record InternalHandler : Type 0 where
  pub fn : ℕ
  pub once_only : Bool

abbrev pub Registry : Type 0
Registry = JsMap String (List InternalHandler)

-- The list that `getHandlers` returns; a new one is in the registry after it.
abbrev pub get_handlers : String → Registry → List InternalHandler
get_handlers event registry = or_else (JsMap.get event registry) []

unfoldable pub on : String → ℕ → Registry → Registry
on event handler registry =
    JsMap.set event (get_handlers event registry ++ record { fn = handler; once_only = false } ∷ [])
      registry

unfoldable pub once : String → ℕ → Registry → Registry
once event handler registry =
    JsMap.set event (get_handlers event registry ++ record { fn = handler; once_only = true } ∷ [])
      registry

-- `findIndex` and `splice`: without the first entry of this function
unfoldable pub splice_first : ℕ → List InternalHandler → List InternalHandler
splice_first handler [] = []
splice_first handler (h ∷ hs) =
    let rest = splice_first handler hs in if nat_beq h.fn handler then hs else h ∷ rest

-- The list for the event, or no entry where it is empty.
abbrev pub put_handlers : String → List InternalHandler → Registry → Registry
put_handlers event [] registry = JsMap.delete event registry
put_handlers event (h ∷ hs) registry = JsMap.set event (h ∷ hs) registry

unfoldable pub off : String → ℕ → Registry → Registry
unfolding splice_first
off event handler registry = elim (JsMap.get event registry) [
  | none ↦ registry
  | some handlers ↦ put_handlers event (splice_first handler handlers) registry
]

-- The loop over the snapshot: the functions that it calls, and whether one threw.
unfoldable pub call_all : (ℕ → Bool) → List InternalHandler → List ℕ × Bool
call_all throws [] = ([], false)
call_all throws (h ∷ hs) =
    let (calls, threw) = call_all throws hs in
    if throws h.fn then (h.fn ∷ [], true) else (h.fn ∷ calls, threw)

unfoldable pub emit : (ℕ → Bool) → String → Registry → Registry × (List ℕ × Bool)
unfolding call_all
emit throws event registry = elim (JsMap.get event registry) [
  | none ↦ (registry, ([], false))
  | some [] ↦ (registry, ([], false))
  | some (h ∷ hs) ↦ (
    put_handlers event (filter (λ k. not k.once_only) (h ∷ hs)) registry,
    call_all throws (h ∷ hs),
  )
]
