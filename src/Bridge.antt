-- ===== src/Bridge.antt =====
-- native/src/bridge.ts: createBridge. Handlers, listeners and promises are numbers. Call identifiers
-- are drawn outside, and so is what handlers and the methods of modules do.
pub mod Batches
pub mod Quiet
pub mod Calls
mod Tests
use vais_lang.Prelude.{
  ℕ, String, Option, none, some, List, [], ◌∷◌, ◌++◌, Bool, true, false, leb, if◌then◌else◌,
  or_else, length, string_eq, nat_eq, map, ◌&◌, ◌>>=◌,
}
use vais_lang.Prelude.JsMap
use vais_lang.Prelude.JsMap.{JsMap}
use vais_lang.Prelude.JsSet

-- The payload of a message: of a caller of sendMessage, or of callNative.
pub data Payload (V : Type 0) : Type 0 where
  given : V → Payload V
  native_call : String → String → String → List V → Payload V

pub record QueuedMessage (V : Type 0) : Type 0 where
  pub type : String
  pub payload : Payload V

-- How a promise ends, or a method: a method that throws is rejected, and one that returns a promise is
-- resolved with that.
pub data Settlement (V : Type 0) : Type 0 where
  resolved : V → Settlement V
  rejected : String → Settlement V

-- What the bridge does outside, in order. An error is its text.
pub data Effect (V : Type 0) : Type 0 where
  handles : ℕ → QueuedMessage V → Effect V
  listens : ℕ → String → V → Effect V
  settles : ℕ → Settlement V → Effect V
  on_error : String → Effect V

-- The functions that `methods` of a module has, also those that it inherits, with what each does with
-- its arguments.
abbrev pub NativeModule : Type 0 → Type 0
NativeModule V = JsMap String (List V → Settlement V)

-- `pending_calls` holds the promise of each call, whose timer runs as long as it is there.
pub record Bridge (V : Type 0) : Type 0 where
  pub message_queue : List (QueuedMessage V)
  pub message_handlers : List ℕ
  pub pending_calls : JsMap String ℕ
  pub modules : JsMap String (NativeModule V)
  pub event_listeners : JsMap String (List ℕ)
  pub batch_timer : Bool
  pub destroyed : Bool

-- The state when createBridge returns.
abbrev pub new_bridge : {V : Type 0} → Bridge V
new_bridge = record {
  message_queue = [];
  message_handlers = [];
  pending_calls = [];
  modules = [];
  event_listeners = [];
  batch_timer = true;
  destroyed = false;
}

module _ {V : Type 0} (throws : ℕ → Option String) where
  -- One handler after the other; the error of one does not stop the next.
  unfoldable pub call_handlers : List ℕ → QueuedMessage V → List (Effect V)
  call_handlers [] m = []
  call_handlers (h ∷ hs) m =
      let rest = call_handlers hs m in
      handles h m ∷ elim (throws h) [ none ↦ rest | some error ↦ on_error error ∷ rest ]

  unfoldable pub deliver : List ℕ → List (QueuedMessage V) → List (Effect V)
  unfolding call_handlers
  deliver hs [] = []
  deliver hs (m ∷ ms) = call_handlers hs m ++ deliver hs ms

  unfoldable pub flush_messages : Bridge V → Bridge V × List (Effect V)
  unfolding deliver
  flush_messages b = (record b { message_queue = [] }, deliver b.message_handlers b.message_queue)

  -- The interval of the timer, which is there as long as `batch_timer`.
  unfoldable pub timer_fires : Bridge V → Bridge V × List (Effect V)
  unfolding flush_messages
  timer_fires b = if b.batch_timer then flush_messages b else (b, [])

  unfoldable pub send_message : ℕ → QueuedMessage V → Bridge V → Bridge V × List (Effect V)
  unfolding flush_messages
  send_message max_batch_size m b =
      let queued = record b { message_queue = b.message_queue ++ m ∷ []; batch_timer = true } in
      if b.destroyed
      then (b, [])
      else if leb max_batch_size (length queued.message_queue)
      then flush_messages queued
      else (queued, [])

  unfoldable pub receive_message : QueuedMessage V → Bridge V → Bridge V × List (Effect V)
  unfolding call_handlers
  receive_message m b = (b, call_handlers b.message_handlers m)

  -- `promise` is the one that the call returns; `id` is what generateCallId gives if it is called.
  unfoldable pub call_native :
      ℕ → String → String → List V → ℕ → String → Bridge V → Bridge V × List (Effect V)
  unfolding send_message JsMap.get JsMap.set
  call_native max_batch_size module_name method args promise id b =
      let waiting = record b { pending_calls = JsMap.set id promise b.pending_calls } in
      let message : QueuedMessage V = record {
        type = "callNative";
        payload = native_call id module_name method args;
      } in
      if b.destroyed
      then (b, settles promise (rejected "Bridge has been destroyed") ∷ [])
      else elim (JsMap.get module_name b.modules) [
        | none ↦ send_message max_batch_size message waiting
        | some methods ↦ elim (JsMap.get method methods) [
          | none ↦
              let error = "Method \"" & method & "\" not found on module \"" & module_name & "\"" in
              (b, on_error error ∷ settles promise (rejected error) ∷ [])
          | some run ↦ elim (run args) [
            | resolved v ↦ (b, settles promise (resolved v) ∷ [])
            | rejected error ↦ (b, on_error error ∷ settles promise (rejected error) ∷ [])
          ]
        ]
      ]

  unfoldable pub call_listeners : List ℕ → String → V → List (Effect V)
  call_listeners [] event datum = []
  call_listeners (h ∷ hs) event datum =
      let rest = call_listeners hs event datum in
      listens h event datum ∷ elim (throws h) [ none ↦ rest | some error ↦ on_error error ∷ rest ]

  unfoldable pub emit_event : String → V → Bridge V → Bridge V × List (Effect V)
  unfolding JsMap.get call_listeners
  emit_event event datum b =
      (b, call_listeners (or_else (JsMap.get event b.event_listeners) []) event datum)

module _ {V : Type 0} where
  unfoldable pub on_message : ℕ → Bridge V → Bridge V
  unfolding JsSet.add
  on_message h b = record b { message_handlers = JsSet.add h b.message_handlers }

  -- The function that onMessage returns
  unfoldable pub off_message : ℕ → Bridge V → Bridge V
  unfolding JsSet.delete
  off_message h b = record b { message_handlers = JsSet.delete h b.message_handlers }

  unfoldable pub register_module : String → NativeModule V → Bridge V → Bridge V
  unfolding JsMap.set
  register_module name methods b = record b { modules = JsMap.set name methods b.modules }

  unfoldable pub add_listener : String → ℕ → Bridge V → Bridge V
  unfolding JsMap.get JsMap.set JsSet.add
  add_listener event h b =
      let hs = or_else (JsMap.get event b.event_listeners) [] in
      record b { event_listeners = JsMap.set event (JsSet.add h hs) b.event_listeners }

  unfoldable pub remove_listener : String → ℕ → Bridge V → Bridge V
  unfolding JsMap.get JsMap.set JsSet.delete
  remove_listener event h b = elim (JsMap.get event b.event_listeners) [
    | none ↦ b
    | some hs ↦ record b { event_listeners = JsMap.set event (JsSet.delete h hs) b.event_listeners }
  ]

  -- A call that is still pending ends; else nothing happens.
  unfoldable pub settle_call : String → Settlement V → Bridge V → Bridge V × List (Effect V)
  unfolding JsMap.get JsMap.delete
  settle_call id settlement b = elim (JsMap.get id b.pending_calls) [
    | none ↦ (b, [])
    | some promise ↦ (
      record b { pending_calls = JsMap.delete id b.pending_calls },
      settles promise settlement ∷ [],
    )
  ]

  unfoldable pub resolve_call : String → V → Bridge V → Bridge V × List (Effect V)
  unfolding settle_call
  resolve_call id result b = settle_call id (resolved result) b

  unfoldable pub reject_call : String → String → Bridge V → Bridge V × List (Effect V)
  unfolding settle_call
  reject_call id reason b = settle_call id (rejected reason) b

  -- The timer of a call
  unfoldable pub call_times_out : String → String → Bridge V → Bridge V × List (Effect V)
  unfolding JsMap.get JsMap.delete
  call_times_out id error b = elim (JsMap.get id b.pending_calls) [
    | none ↦ (b, [])
    | some promise ↦ (
      record b { pending_calls = JsMap.delete id b.pending_calls },
      on_error error ∷ settles promise (rejected error) ∷ [],
    )
  ]

  abbrev pub reject_pending : JsMap String ℕ → List (Effect V)
  reject_pending [] = []
  reject_pending ((id, promise) ∷ calls) =
      settles promise (rejected "Bridge destroyed") ∷ reject_pending calls

  unfoldable pub destroy : Bridge V → Bridge V × List (Effect V)
  destroy b = if b.destroyed then (b, []) else (
    record {
      message_queue = [];
      message_handlers = [];
      pending_calls = [];
      modules = [];
      event_listeners = [];
      batch_timer = false;
      destroyed = true;
    },
    reject_pending b.pending_calls,
  )
