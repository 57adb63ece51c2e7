-- ===== src/Bridge/Tests.antt =====
-- Runs of a bridge, and its theorems at concrete inputs.
use vais_lang.Prelude.{
  ℕ, String, Option, none, some, [], ◌∷◌, ◌≡◌, refl, arith, if◌then◌else◌, string_eq, ◌==◌, nat_eq,
}
use vais_lang.Prelude.JsMap
use vais_lang.Bridge.{
  Bridge, QueuedMessage, handles, settles, on_error, given, resolved, new_bridge, send_message,
  deliver, call_handlers, call_native, register_module, flush_messages,
}
use vais_lang.Bridge.Batches.{send, tick, Passes, pass_all, pass_all-Passes}
use vais_lang.Bridge.Calls.{resolves, times_out, end_call, ending_effects, end_call_once}

abbrev throws : ℕ → Option String
throws h = if h == 2 then some "broken" else none

abbrev message : ℕ → QueuedMessage ℕ
message n = record { type = "m"; payload = given n }

abbrev bridge : Bridge ℕ
bridge = record (new_bridge) { message_handlers = 2 ∷ 3 ∷ [] }

sent_two :
    (pass_all throws 2 (send (message 7) ∷ send (message 8) ∷ send (message 9) ∷ []) bridge).1
    ≡ handles 2 (message 7)
      ∷ on_error "broken"
      ∷ handles 3 (message 7)
      ∷ handles 2 (message 8)
      ∷ on_error "broken"
      ∷ handles 3 (message 8)
      ∷ []
unfolding pass_all send_message deliver call_handlers flush_messages
sent_two = refl

pass_all-Passes_example :
    Passes throws 50 bridge
      (pass_all throws 50 (send (message 7) ∷ tick ∷ []) bridge).0
      (pass_all throws 50 (send (message 7) ∷ tick ∷ []) bridge).1
      (message 7 ∷ [])
pass_all-Passes_example =
    pass_all-Passes throws 50 (omega arith) (send (message 7) ∷ tick ∷ []) bridge refl refl

abbrev waiting : Bridge ℕ
waiting = record bridge { pending_calls = ("call_1", 4) ∷ ("call_2", 5) ∷ [] }

pending_call : JsMap.get "call_1" waiting.pending_calls ≡ some 4
unfolding JsMap.get
pending_call = refl

end_call_once_example :
    let (c, effects) = end_call "call_1" (resolves 6) waiting in
    (effects ≡ ending_effects 4 (resolves 6))
    × (end_call "call_1" (times_out "late") c ≡ (c, []))
    × ((other : String)
        → JsMap.get other c.pending_calls
          ≡ (if "call_1" == other then none else JsMap.get other waiting.pending_calls))
end_call_once_example = end_call_once "call_1" (resolves 6) (times_out "late") waiting pending_call

called :
    (call_native throws 50 "geo" "where"
      (1 ∷ [])
      4
      "call_1"
      (register_module "geo" (("where", λ args. resolved 9) ∷ []) bridge)).1
    ≡ settles 4 (resolved 9) ∷ []
unfolding call_native register_module JsMap.get JsMap.set
called = refl

unanswered :
    (call_native throws 1 "geo" "where" (1 ∷ []) 4 "call_1" bridge).0.pending_calls
    ≡ ("call_1", 4) ∷ []
unfolding call_native send_message flush_messages JsMap.get JsMap.set
unanswered = refl
