-- ===== src/Reactive.antt =====
-- runtime/src/signal.ts and scheduler.ts: signals, computed signals, effects and the queue that runs
-- them. Signals, functions and clean-up functions are numbers. The body of a function is a tree of
-- its reads and writes of signals; `Object.is` and the bodies are arguments. A flush runs the
-- functions that the queue holds when it starts, so it needs no fuel.
pub mod Queue
pub mod Effects
mod Tests
use vais_lang.Prelude.{
  ℕ, ◌+◌, ◌-◌, Option, none, some, List, [], ◌∷◌, ◌++◌, Bool, true, false, if◌then◌else◌, nat_beq,
  nat_eq,
}
use vais_lang.Prelude.JsSet

-- The value and the subscribers that `createSignal` closes over.
pub record Signal (V : Type 0) : Type 0 where
  pub value : V
  pub subscribers : List ℕ

-- What a body does, from its first read, write or end on.
pub data Body (V R : Type 0) : Type 0 where
  returns : R → Body V R
  throws : Body V R
  reads : ℕ → (V → Body V R) → Body V R
  writes : ℕ → V → Body V R → Body V R

-- A function that can be scheduled: `update` of a computed signal, and `run` of an effect, which may
-- return a clean-up function.
pub data Subscriber (V : Type 0) : Type 0 where
  computed : ℕ → Body V V → Subscriber V
  effect : Body V (Option ℕ) → Subscriber V

-- `microtasks` counts the flushes that `queueMicrotask` has yet to run, `cleaned` has the clean-up
-- functions that ran, the last first.
pub record Runtime (V : Type 0) : Type 0 where
  pub signals : ℕ → Signal V
  pub current_tracker : Option ℕ
  pub queue : List ℕ
  pub dirty : Bool
  pub microtasks : ℕ
  pub cleanups : ℕ → Option ℕ
  pub cleaned : List ℕ

abbrev pub update {ℓ} : {A : Type ℓ} → ℕ → A → (ℕ → A) → ℕ → A
update n a f m = if nat_beq n m then a else f m

module _ {V : Type 0} where
  -- `$$schedule`
  unfoldable pub schedule : ℕ → Runtime V → Runtime V
  unfolding JsSet.add
  schedule fn s =
      let queued = record s { queue = JsSet.add fn s.queue } in
      if s.dirty then queued else record queued { dirty = true; microtasks = s.microtasks + 1 }

  unfoldable pub schedule_all : List ℕ → Runtime V → Runtime V
  unfolding schedule
  schedule_all [] s = s
  schedule_all (sub ∷ subs) s = schedule_all subs (schedule sub s)

  -- `signal()`
  unfoldable pub read_signal : ℕ → Runtime V → V × Runtime V
  unfolding JsSet.add
  read_signal n s = elim s.current_tracker [
    | none ↦ ((s.signals n).value, s)
    | some i ↦
        let seen = record (s.signals n) { subscribers = JsSet.add i (s.signals n).subscribers } in
        ((s.signals n).value, record s { signals = update n seen s.signals })
  ]

  -- `createSignal`, for the signal numbered n
  unfoldable pub create_signal : ℕ → V → Runtime V → Runtime V
  create_signal n v s = record s {
    signals = update n (record { value = v; subscribers = [] }) s.signals;
  }

  -- `if (cleanup) cleanup()`
  unfoldable pub clean : ℕ → Runtime V → Runtime V
  clean i s = elim (s.cleanups i) [ none ↦ s | some c ↦ record s { cleaned = c ∷ s.cleaned } ]

  -- The function that `createEffect` returns.
  unfoldable pub dispose : ℕ → Runtime V → Runtime V
  unfolding clean
  dispose i s = clean i s

module _ {V : Type 0} (same : V → V → Bool) where
  -- `signal.set`
  unfoldable pub set_signal : ℕ → V → Runtime V → Runtime V
  unfolding schedule_all
  set_signal n v s =
      let written = record s {
        signals = update n (record (s.signals n) { value = v }) s.signals;
      } in
      if same (s.signals n).value v then s else schedule_all (s.signals n).subscribers written

  -- `none` where the body throws.
  unfoldable pub run_body : {R : Type 0} → Body V R → Runtime V → Option R × Runtime V
  unfolding read_signal set_signal
  run_body (returns r) s = (some r, s)
  run_body throws s = (none, s)
  run_body (reads n k) s = let (v, t) = read_signal n s in run_body (k v) t
  run_body (writes n v b) s = run_body b (set_signal n v s)

  unfoldable pub track : {R : Type 0} → Body V R → ℕ → Runtime V → Option R × Runtime V
  unfolding run_body
  track b i s =
      let (r, t) = run_body b (record s { current_tracker = some i }) in
      (r, record t { current_tracker = s.current_tracker })

  -- One call of `update` or of `run`, numbered i, and whether it returns.
  unfoldable pub run_subscriber : Subscriber V → ℕ → Runtime V → Bool × Runtime V
  unfolding track clean set_signal
  run_subscriber (computed n b) i s =
      let (r, t) = track b i s in elim r [ none ↦ (false, t) | some v ↦ (true, set_signal n v t) ]
  run_subscriber (effect b) i s =
      let (r, t) = track b i (clean i s) in
      elim r [ none ↦ (false, t) | some c ↦ (true, record t { cleanups = update i c t.cleanups }) ]

  module _ (subscriber : ℕ → Subscriber V) where
    -- The first call of a function is the one that `createComputed` and `createEffect` make.
    abbrev pub call : ℕ → Runtime V → Bool × Runtime V
    call i s = run_subscriber (subscriber i) i s

    -- The loop of `$$flush`, which ends at the first function that throws.
    unfoldable pub call_each : List ℕ → Runtime V → Runtime V
    unfolding run_subscriber
    call_each [] s = s
    call_each (fn ∷ fns) s =
        let (returned, t) = call fn s in let rest = call_each fns t in if returned then rest else t

    -- `$$flush`
    unfoldable pub flush : Runtime V → Runtime V
    unfolding call_each
    flush s = call_each s.queue (record s { queue = []; dirty = false })

    -- The next microtask, where there is one.
    unfoldable pub microtask : Runtime V → Runtime V
    unfolding flush
    microtask s = flush (record s { microtasks = s.microtasks - 1 })
