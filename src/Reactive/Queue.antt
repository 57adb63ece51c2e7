-- ===== src/Reactive/Queue.antt =====
-- The queue of the scheduler: what is scheduled is run by a flush that is to come.
use vais_lang.Prelude.{
  ◌-◌, false, sym, Bool-cases, subst, Option-cases, inl, inr, ℕ, ◌<◌, ◌≡◌, ◌≢◌, refl, some, List,
  [], ◌∷◌, Bool, true, nat_eq, arith,
}
use vais_lang.Prelude.JsSet.{IsDistinct, add-IsDistinct}
use vais_lang.Reactive.{
  dispose, effect, microtask, computed, create_signal, run_subscriber, call_each, flush, call,
  Subscriber, Body, returns, throws, reads, writes, Runtime, schedule, schedule_all, read_signal,
  set_signal, run_body, track, clean,
}

-- No function is queued twice, and while one is queued a flush is to come.
pub record IsQueued {V : Type 0} (s : Runtime V) : Type 0 where
  pub distinct : IsDistinct s.queue
  pub marked : s.queue ≢ [] → s.dirty ≡ true
  pub to_come : s.dirty ≡ true → 0 < s.microtasks

module _ {V : Type 0} where
  schedule-IsQueued : (fn : ℕ) {s : Runtime V} → IsQueued s → IsQueued (schedule fn s)
  unfolding schedule
  schedule-IsQueued fn {s} q = ground (arith, add-IsDistinct fn s.queue q.distinct)

  schedule_all-IsQueued :
      (fns : List ℕ) {s : Runtime V} → IsQueued s → IsQueued (schedule_all fns s)
  unfolding schedule_all
  schedule_all-IsQueued [] q = q
  schedule_all-IsQueued (fn ∷ fns) q = schedule_all-IsQueued fns (schedule-IsQueued fn q)

  keep-IsQueued :
      {s t : Runtime V}
      → t.queue ≡ s.queue
      → t.dirty ≡ s.dirty
      → t.microtasks ≡ s.microtasks
      → IsQueued s
      → IsQueued t
  keep-IsQueued {s} {t} a b c q = record {
    distinct = subst IsDistinct (sym a) q.distinct;
    marked = λ h. ground (arith, q.marked);
    to_come = λ h. ground (arith, q.to_come);
  }

  read_signal-IsQueued : (n : ℕ) {s : Runtime V} → IsQueued s → IsQueued (read_signal n s).1
  unfolding read_signal
  read_signal-IsQueued n {s} q = elim (Option-cases s.current_tracker) [
    | inl e ↦ rw (e, read_signal) q
    | inr (i, e) ↦ rw (e, read_signal) (keep-IsQueued refl refl refl q)
  ]

  clean-IsQueued : (i : ℕ) {s : Runtime V} → IsQueued s → IsQueued (clean i s)
  unfolding clean
  clean-IsQueued i {s} q = elim (Option-cases (s.cleanups i)) [
    | inl e ↦ rw (e, clean) q
    | inr (c, e) ↦ rw (e, clean) (keep-IsQueued refl refl refl q)
  ]

module _ {V : Type 0} (same : V → V → Bool) where
  set_signal-IsQueued :
      (n : ℕ) (v : V) {s : Runtime V} → IsQueued s → IsQueued (set_signal same n v s)
  unfolding set_signal
  set_signal-IsQueued n v {s} q = elim (Bool-cases (same (s.signals n).value v)) [
    | inl e ↦ rw (e, set_signal) q
    | inr e ↦
        rw (e, set_signal)
          (schedule_all-IsQueued (s.signals n).subscribers (keep-IsQueued refl refl refl q))
  ]

  run_body-IsQueued :
      {R : Type 0} (b : Body V R) {s : Runtime V} → IsQueued s → IsQueued (run_body same b s).1
  unfolding run_body
  run_body-IsQueued (returns r) q = q
  run_body-IsQueued throws q = q
  run_body-IsQueued (reads n k) {s} q =
      run_body-IsQueued (k (read_signal n s).0) (read_signal-IsQueued n q)
  run_body-IsQueued (writes n v b) q = run_body-IsQueued b (set_signal-IsQueued n v q)

  track-IsQueued :
      {R : Type 0} (b : Body V R) (i : ℕ) {s : Runtime V}
      → IsQueued s
      → IsQueued (track same b i s).1
  unfolding track
  track-IsQueued b i {s} q = keep-IsQueued refl refl refl (
      run_body-IsQueued b {s = record s { current_tracker = some i }}
        (keep-IsQueued refl refl refl q))

  run_subscriber-IsQueued :
      (f : Subscriber V) (i : ℕ) {s : Runtime V}
      → IsQueued s
      → IsQueued (run_subscriber same f i s).1
  unfolding run_subscriber
  run_subscriber-IsQueued (computed n b) i {s} q = elim (Option-cases (track same b i s).0) [
    | inl e ↦ rw (e, run_subscriber) (track-IsQueued b i q)
    | inr (v, e) ↦ rw (e, run_subscriber) (set_signal-IsQueued n v (track-IsQueued b i q))
  ]
  run_subscriber-IsQueued (effect b) i {s} q = elim (Option-cases (track same b i (clean i s)).0) [
    | inl e ↦ rw (e, run_subscriber) (track-IsQueued b i (clean-IsQueued i q))
    | inr (c, e) ↦
        rw (e, run_subscriber)
          (keep-IsQueued refl refl refl (track-IsQueued b i (clean-IsQueued i q)))
  ]

  module _ (subscriber : ℕ → Subscriber V) where
    call_each-IsQueued :
        (fns : List ℕ) {s : Runtime V} → IsQueued s → IsQueued (call_each same subscriber fns s)
    unfolding call_each
    call_each-IsQueued [] q = q
    call_each-IsQueued (fn ∷ fns) {s} q = elim (Bool-cases (call same subscriber fn s).0) [
      | inl e ↦
          rw (e, call_each) (call_each-IsQueued fns (run_subscriber-IsQueued (subscriber fn) fn q))
      | inr e ↦ rw (e, call_each) (run_subscriber-IsQueued (subscriber fn) fn q)
    ]

    flush-IsQueued : (s : Runtime V) → IsQueued (flush same subscriber s)
    unfolding flush
    flush-IsQueued s = call_each-IsQueued s.queue (ground arith)

-- One thing that happens to the runtime.
pub data Step {V : Type 0} (same : V → V → Bool) (subscriber : ℕ → Subscriber V) (s : Runtime V)
    : Runtime V → Type 0 where
  creates : (n : ℕ) (v : V) → Step same subscriber s (create_signal n v s)
  sets : (n : ℕ) (v : V) → Step same subscriber s (set_signal same n v s)
  calls : (i : ℕ) → Step same subscriber s (call same subscriber i s).1
  flushes : Step same subscriber s (flush same subscriber s)
  ticks : 0 < s.microtasks → Step same subscriber s (microtask same subscriber s)
  disposes : (i : ℕ) → Step same subscriber s (dispose i s)

pub data Reach {V : Type 0} (same : V → V → Bool) (subscriber : ℕ → Subscriber V) (s : Runtime V)
    : Runtime V → Type 0 where
  start : Reach same subscriber s s
  next :
      {t u : Runtime V}
      → Reach same subscriber s t
      → Step same subscriber t u
      → Reach same subscriber s u

module _ {V : Type 0} (same : V → V → Bool) (subscriber : ℕ → Subscriber V) where
  Step-IsQueued : {s t : Runtime V} → Step same subscriber s t → IsQueued s → IsQueued t
  unfolding create_signal microtask dispose
  Step-IsQueued (creates n v) q = keep-IsQueued refl refl refl q
  Step-IsQueued (sets n v) q = set_signal-IsQueued same n v q
  Step-IsQueued (calls i) q = run_subscriber-IsQueued same (subscriber i) i q
  Step-IsQueued {s} flushes q = flush-IsQueued same subscriber s
  Step-IsQueued {s} (ticks h) q =
      flush-IsQueued same subscriber (record s { microtasks = s.microtasks - 1 })
  Step-IsQueued (disposes i) q = clean-IsQueued i q

  Reach-IsQueued' :
      {s t : Runtime V} → s.queue ≡ [] → s.dirty ≡ false → Reach same subscriber s t → IsQueued t
  Reach-IsQueued' e d start = ground (arith, e, d)
  Reach-IsQueued' e d (next r st) = Step-IsQueued st (Reach-IsQueued' e d r)

  -- The calls of some functions one after the other, from one state to another; one that throws leaves
  -- out those after it.
  pub data Runs : List ℕ → Runtime V → Runtime V → Type 0 where
    over : {s : Runtime V} → Runs [] s s
    returned :
        {fn : ℕ} {fns : List ℕ} {s u : Runtime V}
        → (call same subscriber fn s).0 ≡ true
        → Runs fns (call same subscriber fn s).1 u
        → Runs (fn ∷ fns) s u
    threw :
        {fn : ℕ} {fns : List ℕ} {s : Runtime V}
        → (call same subscriber fn s).0 ≡ false
        → Runs (fn ∷ fns) s (call same subscriber fn s).1

  call_each-Runs : (fns : List ℕ) (s : Runtime V) → Runs fns s (call_each same subscriber fns s)
  unfolding call_each
  call_each-Runs [] s = over
  call_each-Runs (fn ∷ fns) s = elim (Bool-cases (call same subscriber fn s).0) [
    | inl e ↦ rw (e, call_each) (returned e (call_each-Runs fns (call same subscriber fn s).1))
    | inr e ↦ rw (e, call_each) (threw e)
  ]

  -- Starting with an empty queue and whatever signals, writes, calls of functions, flushes, microtasks
  -- and disposals happen, functions that throw included: no function is queued twice; while one is
  -- queued a microtask is to come; and that microtask empties the queue and calls the functions that
  -- were in it, in their order, all of them or those up to the first that throws.
  pub Reach-IsQueued :
      {s t : Runtime V}
      → s.queue ≡ []
      → s.dirty ≡ false
      → Reach same subscriber s t
      → IsQueued t
        × Runs t.queue
            (record t { queue = []; dirty = false; microtasks = t.microtasks - 1 })
            (microtask same subscriber t)
  unfolding microtask flush
  Reach-IsQueued {t = t} e d r = (
    Reach-IsQueued' e d r,
    call_each-Runs t.queue (record t { queue = []; dirty = false; microtasks = t.microtasks - 1 }),
  )
