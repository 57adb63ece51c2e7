-- ===== src/Bridge/Quiet.antt =====
-- What holds of a bridge after any calls, and after it is destroyed.
use vais_lang.Prelude.{ap, string_eq, ℕ, String, Option, List, [], true, not, ◌≡◌, refl, arith}
use vais_lang.Prelude.JsMap
use vais_lang.Bridge.{
  Bridge, QueuedMessage, Settlement, NativeModule, new_bridge, flush_messages, timer_fires,
  send_message, receive_message, call_native, emit_event, on_message, off_message, register_module,
  add_listener, remove_listener, resolve_call, reject_call, call_times_out, destroy, settle_call,
  resolved, rejected,
}

module _ {V : Type 0} (throws : ℕ → Option String) (max_batch_size : ℕ) where
  -- A call of the bridge, a message or an answer from the native side, or a timer that fires.
  pub data Step (b : Bridge V) : Bridge V → Type 0 where
    flushes : Step b (flush_messages throws b).0
    ticks : Step b (timer_fires throws b).0
    sends : (m : QueuedMessage V) → Step b (send_message throws max_batch_size m b).0
    receives : (m : QueuedMessage V) → Step b (receive_message throws m b).0
    calls :
        (module_name method : String) (args : List V) (promise : ℕ) (id : String)
        → Step b (call_native throws max_batch_size module_name method args promise id b).0
    emits : (event : String) (datum : V) → Step b (emit_event throws event datum b).0
    listens_in : (h : ℕ) → Step b (on_message h b)
    leaves : (h : ℕ) → Step b (off_message h b)
    registers : (name : String) (methods : NativeModule V) → Step b (register_module name methods b)
    adds : (event : String) (h : ℕ) → Step b (add_listener event h b)
    removes : (event : String) (h : ℕ) → Step b (remove_listener event h b)
    resolves : (id : String) (v : V) → Step b (resolve_call id v b).0
    rejects : (id reason : String) → Step b (reject_call id reason b).0
    times_out : (id error : String) → Step b (call_times_out id error b).0
    destroys : Step b (destroy b).0

  pub data Reach (s : Bridge V) : Bridge V → Type 0 where
    here : Reach s s
    step : {b c : Bridge V} → Reach s b → Step b c → Reach s c

-- The timer runs until the bridge is destroyed; from then on nothing waits.
pub record IsQuiet {V : Type 0} (b : Bridge V) : Type 0 where
  pub timed : b.batch_timer ≡ not b.destroyed
  pub empty : b.destroyed ≡ true → b.message_queue ≡ []
  pub settled : b.destroyed ≡ true → b.pending_calls ≡ []

module _ {V : Type 0} (throws : ℕ → Option String) (max_batch_size : ℕ) where
  flush-IsQuiet : (b : Bridge V) → IsQuiet b → IsQuiet (flush_messages throws b).0
  unfolding flush_messages
  flush-IsQuiet b q = record { timed = q.timed; empty = λ h. refl; settled = q.settled }

  timer-IsQuiet : (b : Bridge V) → IsQuiet b → IsQuiet (timer_fires throws b).0
  unfolding timer_fires flush_messages
  timer-IsQuiet b q = ground (arith, q)

  send-IsQuiet :
      (m : QueuedMessage V) (b : Bridge V)
      → IsQuiet b
      → IsQuiet (send_message throws max_batch_size m b).0
  unfolding send_message flush_messages
  send-IsQuiet m b q = ground (arith, q)

  call-IsQuiet :
      (module_name method : String) (args : List V) (promise : ℕ) (id : String) (b : Bridge V)
      → IsQuiet b
      → IsQuiet (call_native throws max_batch_size module_name method args promise id b).0
  unfolding call_native send_message flush_messages
  call-IsQuiet module_name method args promise id b q = ground (arith, q)

  remove-IsQuiet :
      (event : String) (h : ℕ) (b : Bridge V) → IsQuiet b → IsQuiet (remove_listener event h b)
  unfolding remove_listener
  remove-IsQuiet event h b q = ground (arith, q)

  -- A deletion from no pending calls leaves none.
  delete-IsQuiet :
      (id : String) (b : Bridge V)
      → IsQuiet b
      → IsQuiet (record b { pending_calls = JsMap.delete id b.pending_calls })
  unfolding JsMap.delete
  delete-IsQuiet id b q = record {
    timed = q.timed;
    empty = q.empty;
    settled = λ h. ap (JsMap.delete id) (q.settled h);
  }

  settle-IsQuiet :
      (id : String) (settlement : Settlement V) (b : Bridge V)
      → IsQuiet b
      → IsQuiet (settle_call id settlement b).0
  unfolding settle_call
  settle-IsQuiet id settlement b q = ground (arith, q, delete-IsQuiet id b q)

  timeout-IsQuiet :
      (id error : String) (b : Bridge V) → IsQuiet b → IsQuiet (call_times_out id error b).0
  unfolding call_times_out
  timeout-IsQuiet id error b q = ground (arith, q, delete-IsQuiet id b q)

  destroy-IsQuiet : (b : Bridge V) → IsQuiet b → IsQuiet (destroy b).0
  unfolding destroy
  destroy-IsQuiet b q = ground (arith, q)

  Step-IsQuiet : {b c : Bridge V} → Step throws max_batch_size b c → IsQuiet b → IsQuiet c
  unfolding receive_message emit_event on_message off_message register_module add_listener
      resolve_call reject_call
  Step-IsQuiet {b} flushes q = flush-IsQuiet b q
  Step-IsQuiet {b} ticks q = timer-IsQuiet b q
  Step-IsQuiet {b} (sends m) q = send-IsQuiet m b q
  Step-IsQuiet (receives m) q = q
  Step-IsQuiet {b} (calls module_name method args promise id) q =
      call-IsQuiet module_name method args promise id b q
  Step-IsQuiet (emits event datum) q = q
  Step-IsQuiet (listens_in h) q = record { timed = q.timed; empty = q.empty; settled = q.settled }
  Step-IsQuiet (leaves h) q = record { timed = q.timed; empty = q.empty; settled = q.settled }
  Step-IsQuiet (registers name methods) q = record {
    timed = q.timed;
    empty = q.empty;
    settled = q.settled;
  }
  Step-IsQuiet (adds event h) q = record { timed = q.timed; empty = q.empty; settled = q.settled }
  Step-IsQuiet {b} (removes event h) q = remove-IsQuiet event h b q
  Step-IsQuiet {b} (resolves id v) q = settle-IsQuiet id (resolved v) b q
  Step-IsQuiet {b} (rejects id reason) q = settle-IsQuiet id (rejected reason) b q
  Step-IsQuiet {b} (times_out id error) q = timeout-IsQuiet id error b q
  Step-IsQuiet {b} destroys q = destroy-IsQuiet b q

  -- After any calls, messages and timers from its creation on: the timer of a bridge runs exactly until
  -- it is destroyed, and from then on no message waits in its queue and no call is pending.
  pub Reach-IsQuiet : {b : Bridge V} → Reach throws max_batch_size new_bridge b → IsQuiet b
  Reach-IsQuiet here = record { timed = refl; empty = λ h. cc; settled = λ h. cc }
  Reach-IsQuiet (step r st) = Step-IsQuiet st (Reach-IsQuiet r)
