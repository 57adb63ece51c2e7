-- ===== src/EventBus/Tests.antt =====
-- A run of the event bus, and its theorem at a concrete input.
use vais_lang.Prelude.{◌≡◌, refl, string_eq, [], ◌∷◌, ℕ, Bool, true, false, nat_beq, map}
use vais_lang.Prelude.JsMap
use vais_lang.EventBus.{Registry, on, once, emit, call_all, get_handlers}
use vais_lang.EventBus.Laws.{AtEvent, CallsUpTo, removes, operate, operate_and_emit}

abbrev bus : Registry
bus = once "loaded" 2 (on "loaded" 1 [])

abbrev never : ℕ → Bool
never f = false

abbrev first_throws : ℕ → Bool
first_throws f = nat_beq f 1

calls_once : (emit never "loaded" (emit never "loaded" bus).0).1 ≡ (1 ∷ [], false)
unfolding emit call_all on once JsMap.get JsMap.set
calls_once = refl

stops_at_throw : (emit first_throws "loaded" bus).1 ≡ (1 ∷ [], true)
unfolding emit call_all on once JsMap.get JsMap.set
stops_at_throw = refl

operate_and_emit_example :
    AtEvent "loaded"
      (removes "loaded" 1)
      (get_handlers "loaded" bus)
      (get_handlers "loaded" (operate first_throws (removes "loaded" 1) bus))
    × CallsUpTo first_throws
        (map (λ h. h.fn) (get_handlers "loaded" bus))
        (emit first_throws "loaded" bus).1
operate_and_emit_example = operate_and_emit first_throws "loaded" (removes "loaded" 1) bus
